-- ===== src/Store/File/Tasks/Moves.antt =====
-- One move of a task of `Store.File.Tasks`: what it makes of its own stage, of the others and of the
-- memory.
use oxiscale.Prelude.{
  ℕ, ◌==◌, ==_iff, ◌≡◌, refl, Bool, true, false, if◌then◌else◌, Option, none, some, Result, ok, err,
  Bool-cases, inl, inr,
}
use oxiscale.Store.Types.{IoError, StoreError}
use oxiscale.Store.Chrono.{Chrono}
use oxiscale.Store.Calls.{Call, Answer, Reply}
use oxiscale.Store.Host.{Host}
use oxiscale.Store.Memory.Trace
use oxiscale.Store.File.Tasks.{
  Stage, start, changed, taken, writing, written, done, is_start, flushes, Setup, System, stage_at,
  answered, on_disk, created, wrote, renamed, serialized, move, turn,
}

-- What the memory store has answered a task that has not failed.
module _ {h : Host} where
  abbrev pub reply_of : Stage h → Option Reply
  reply_of (changed r) = some r
  reply_of (taken r doc) = some r
  reply_of (writing r bytes file) = some r
  reply_of (written r) = some r
  reply_of (done (ok r)) = some r
  reply_of _ = none

  -- The task's next move may reach the disk.
  abbrev pub touches : Stage h → Bool
  touches (taken _ _) = true
  touches (writing _ _ _) = true
  touches (written _) = true
  touches _ = false

module _ (h : Host) (c : Chrono) (setup : Setup h c) where
  open h use {Disk}
  open setup use {calls}

  pub self :
      (i : ℕ) (stage : Stage h) (stages : ℕ → Stage h) → stage_at h c i stage stages i ≡ stage
  self i stage stages = rw ((==_iff i i).1 refl)

  -- A move of task `i` leaves the stages of the others alone.
  answered_other :
      (i j : ℕ) (call : Call c.DateTime) (a : Answer) (s : System h c)
      → (i == j) ≡ false
      → (answered h c i call a s).stages j ≡ s.stages j
  unfolding answered
  answered_other i j call (ok r) s e = rw e
  answered_other i j call (err x) s e = rw e

  serialized_other :
      (i j : ℕ) (r : Reply) (q : Result StoreError h.Bytes) (s : System h c)
      → (i == j) ≡ false
      → (serialized h c setup.path i r q s).stages j ≡ s.stages j
  unfolding serialized
  serialized_other i j r (ok bytes) s e = rw e
  serialized_other i j r (err x) s e = rw e

  pub move_other :
      (i j : ℕ) (stage : Stage h) (s : System h c)
      → (i == j) ≡ false
      → (move h c setup i stage s).stages j ≡ s.stages j
  unfolding move
  move_other i j start s e = answered_other i j (calls i) _ _ e
  move_other i j (changed r) s e = rw e
  move_other i j (taken r doc) s e = serialized_other i j r _ s e
  move_other i j (writing r bytes file) s e = rw e
  move_other i j (written r) s e = rw e
  move_other i j (done a) s e = refl

  pub turn_other :
      (i j : ℕ) (s : System h c) → (i == j) ≡ false → (turn h c setup i s).stages j ≡ s.stages j
  unfolding turn
  turn_other i j s e = move_other i j (s.stages i) s e

  -- A stage that can follow where the memory store has answered `a`, or will.
  abbrev pub Follows : Answer → Stage h → Type 0
  Follows a stage = (is_start stage ≡ false) × ((r : Reply) → reply_of stage ≡ some r → a ≡ ok r)

  -- The answer of a stage, where `a` is what the memory store would answer now.
  abbrev pub answer_at : Answer → Stage h → Answer
  answer_at a start = a
  answer_at a (changed r) = ok r
  answer_at a (taken r doc) = ok r
  answer_at a (writing r bytes file) = ok r
  answer_at a (written r) = ok r
  answer_at a (done b) = b

  answered-Follows :
      (i : ℕ) (call : Call c.DateTime) (a : Answer) (s : System h c)
      → Follows a ((answered h c i call a s).stages i)
  unfolding answered
  answered-Follows i call (err x) s = rw ((==_iff i i).1 refl) (refl, λ r e. cc)
  answered-Follows i call (ok r) s = elim (Bool-cases (flushes call r)) [
    | inl flushing ↦ rw (flushing, (==_iff i i).1 refl) (refl, λ r e. cc)
    | inr plain ↦ rw (plain, (==_iff i i).1 refl) (refl, λ r e. cc)
  ]

  created-Follows :
      (r : Reply) (bytes : h.Bytes) (q : Result IoError h.File × Disk)
      → Follows (ok r) (created h c r bytes q).0
  unfolding created
  created-Follows r bytes (ok file, disk) = (refl, λ r' e. cc)
  created-Follows r bytes (err x, disk) = (refl, λ r' e. cc)

  wrote-Follows :
      (r : Reply) (q : Result IoError (Unit {0}) × Disk) → Follows (ok r) (wrote h c r q).0
  unfolding wrote
  wrote-Follows r (ok u, disk) = (refl, λ r' e. cc)
  wrote-Follows r (err x, disk) = (refl, λ r' e. cc)

  renamed-Follows :
      (r : Reply) (q : Result IoError (Unit {0}) × Disk) → Follows (ok r) (renamed h c r q).0
  unfolding renamed
  renamed-Follows r (ok u, disk) = (refl, λ r' e. cc)
  renamed-Follows r (err x, disk) = (refl, λ r' e. cc)

  serialized-Follows :
      (i : ℕ) (r : Reply) (q : Result StoreError h.Bytes) (s : System h c)
      → Follows (ok r) ((serialized h c setup.path i r q s).stages i)
  unfolding serialized
  serialized-Follows i r (ok bytes) s = rw ((==_iff i i).1 refl) (created-Follows r bytes _)
  serialized-Follows i r (err x) s = rw ((==_iff i i).1 refl) (refl, λ r' e. cc)

  pub move-Follows :
      (i : ℕ) (s : System h c) (stage : Stage h)
      → s.stages i ≡ stage
      → Follows
          (answer_at (Trace.perform c (calls i) s.memory).0 stage)
          ((move h c setup i stage s).stages i)
  unfolding move
  move-Follows i s start e = answered-Follows i (calls i) _ _
  move-Follows i s (changed r) e = rw ((==_iff i i).1 refl) (refl, λ r' e. cc)
  move-Follows i s (taken r doc) e = serialized-Follows i r _ s
  move-Follows i s (writing r bytes file) e = rw ((==_iff i i).1 refl) (wrote-Follows r _)
  move-Follows i s (written r) e = rw ((==_iff i i).1 refl) (renamed-Follows r _)
  move-Follows i s (done (ok r)) e = rw e (refl, λ r' f. cc)
  move-Follows i s (done (err x)) e = rw e (refl, λ r' f. cc)

  -- What a move makes of the memory.
  answered_memory :
      (i : ℕ) (call : Call c.DateTime) (a : Answer) (s : System h c)
      → (answered h c i call a s).memory ≡ s.memory
  unfolding answered
  answered_memory i call (ok r) s = refl
  answered_memory i call (err x) s = refl

  serialized_memory :
      (i : ℕ) (r : Reply) (q : Result StoreError h.Bytes) (s : System h c)
      → (serialized h c setup.path i r q s).memory ≡ s.memory
  unfolding serialized
  serialized_memory i r (ok bytes) s = refl
  serialized_memory i r (err x) s = refl

  pub move_memory :
      (i : ℕ) (s : System h c) (stage : Stage h)
      → (move h c setup i stage s).memory
        ≡ (if is_start stage then (Trace.perform c (calls i) s.memory).1 else s.memory)
  unfolding move on_disk
  move_memory i s start = answered_memory i (calls i) _ _
  move_memory i s (changed r) = refl
  move_memory i s (taken r doc) = serialized_memory i r _ s
  move_memory i s (writing r bytes file) = refl
  move_memory i s (written r) = refl
  move_memory i s (done a) = refl

  -- A move that does not reach the disk leaves it as it is.
  answered_disk :
      (i : ℕ) (call : Call c.DateTime) (a : Answer) (s : System h c)
      → (answered h c i call a s).disk ≡ s.disk
  unfolding answered
  answered_disk i call (ok r) s = refl
  answered_disk i call (err x) s = refl

  pub move_disk :
      (i : ℕ) (s : System h c) (stage : Stage h)
      → touches stage ≡ false
      → (move h c setup i stage s).disk ≡ s.disk
  unfolding move
  move_disk i s start e = answered_disk i (calls i) _ _
  move_disk i s (changed r) e = refl
  move_disk i s (taken r doc) e = cc
  move_disk i s (writing r bytes file) e = cc
  move_disk i s (written r) e = cc
  move_disk i s (done a) e = refl
