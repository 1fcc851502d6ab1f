-- ===== src/Store/File/Tasks/Order.antt =====
-- The tasks of `Store.File.Tasks` and the sequential run that they amount to in memory.
use oxiscale.Prelude.{
  ℕ, ◌==◌, ==_iff, ◌≡◌, refl, sym, ap, subst, ◌∙◌, Bool, true, false, not, ◌||◌, if◌then◌else◌,
  Option, none, some, List, [], ◌∷◌, ◌++◌, append_assoc, append-nil, ok, err, Bool-cases, inl, inr,
  arith,
}
use mathlib.Core.List.{map}
use oxiscale.Store.Chrono.{Chrono}
use oxiscale.Store.Calls.{Answer, Reply}
use oxiscale.Store.Host.{Host}
use oxiscale.Store.Memory.{MemoryStore}
use oxiscale.Store.Memory.Trace
use oxiscale.Store.File.Tasks.{
  Stage, start, changed, taken, writing, written, done, is_start, Setup, System, turn, run, initial,
}
use oxiscale.Store.File.Tasks.Moves.{
  reply_of, move_other, Follows, answer_at, move-Follows, move_memory,
}

abbrev pub elem : ℕ → List ℕ → Bool
elem i [] = false
elem i (j ∷ rest) = (i == j) || elem i rest

-- The tasks of a schedule in the order in which they first move, less those in `seen`.
abbrev pub firsts : List ℕ → List ℕ → List ℕ
firsts seen [] = []
firsts seen (i ∷ rest) = if elem i seen then firsts seen rest else i ∷ firsts (i ∷ seen) rest

module _ (h : Host) (c : Chrono) (setup : Setup h c) where
  open h use {Disk}
  open setup use {calls}

  -- The memory store after the calls of these tasks, one after the other.
  abbrev pub after : List ℕ → MemoryStore → MemoryStore
  after log memory = Trace.run c (map calls log) memory

  -- What the memory store then answers task `i`.
  abbrev pub answer_of : ℕ → List ℕ → MemoryStore → Option Answer
  answer_of i [] memory = none
  answer_of i (j ∷ log) memory =
      if i == j
      then some (Trace.perform c (calls j) memory).0
      else answer_of i log (Trace.perform c (calls j) memory).1

  pub after-append :
      (log more : List ℕ) (memory : MemoryStore)
      → after (log ++ more) memory ≡ after more (after log memory)
  unfolding Trace.run
  after-append [] more memory = refl
  after-append (i ∷ log) more memory = after-append log more (Trace.perform c (calls i) memory).1

  answer_of-append :
      (i : ℕ) (log more : List ℕ) (memory : MemoryStore) {a : Answer}
      → answer_of i log memory ≡ some a
      → answer_of i (log ++ more) memory ≡ some a
  answer_of-append i [] more memory e = cc
  answer_of-append i (j ∷ log) more memory e = elim (Bool-cases (i == j)) [
    | inl same ↦ rw same (rw same at e)
    | inr other ↦
        rw other (answer_of-append i log more (Trace.perform c (calls j) memory).1 (rw other at e))
  ]

  answer_of-last :
      (i : ℕ) (log : List ℕ) (memory : MemoryStore)
      → elem i log ≡ false
      → answer_of i (log ++ i ∷ []) memory ≡ some (Trace.perform c (calls i) (after log memory)).0
  unfolding Trace.run
  answer_of-last i [] memory e = rw ((==_iff i i).1 refl)
  answer_of-last i (j ∷ log) memory e =
      let other : (i == j) ≡ false = ground (arith, e) in
      rw other (answer_of-last i log (Trace.perform c (calls j) memory).1 (rw other at e))

  elem-append : (i j : ℕ) (log : List ℕ) → elem i (log ++ j ∷ []) ≡ (i == j) || elem i log
  elem-append i j [] = refl
  elem-append i j (k ∷ log) = ground (arith, elem-append i j log)

  -- The tasks of `log` have moved, in that order, and no other has.
  pub record Tracks (memory : MemoryStore) (log : List ℕ) (s : System h c) : Type 0 where
    pub in_memory : s.memory ≡ after log memory
    pub moved : (i : ℕ) → is_start (s.stages i) ≡ not (elem i log)
    pub replies :
        (i : ℕ) (r : Reply) → reply_of (s.stages i) ≡ some r → answer_of i log memory ≡ some (ok r)

  -- The log after task `i` has moved.
  abbrev pub logged : ℕ → List ℕ → List ℕ
  logged i log = if elem i log then log else log ++ i ∷ []

  is_start_eq : (stage : Stage h) → is_start stage ≡ true → stage ≡ start
  is_start_eq start e = refl
  is_start_eq (changed r) e = cc
  is_start_eq (taken r doc) e = cc
  is_start_eq (writing r bytes file) e = cc
  is_start_eq (written r) e = cc
  is_start_eq (done a) e = cc

  reply_answer_at :
      (a : Answer) (stage : Stage h) (r : Reply)
      → is_start stage ≡ false
      → answer_at h c setup a stage ≡ ok r
      → reply_of stage ≡ some r
  reply_answer_at a start r e f = cc
  reply_answer_at a (changed r') r e f = cc
  reply_answer_at a (taken r' doc) r e f = cc
  reply_answer_at a (writing r' bytes file) r e f = cc
  reply_answer_at a (written r') r e f = cc
  reply_answer_at a (done (ok r')) r e f = cc
  reply_answer_at a (done (err x)) r e f = cc

  module _ (i : ℕ) (log : List ℕ) (memory : MemoryStore) (s : System h c)
      (t : Tracks memory log s) where
    -- What holds of the moving task's stage, and of each other task's as it was, holds of all.
    pub at_each :
        (P : ℕ → Stage h → Type 0)
        → P i ((turn h c setup i s).stages i)
        → ((j : ℕ) → (i == j) ≡ false → P j (s.stages j))
        → (j : ℕ) → P j ((turn h c setup i s).stages j)
    unfolding turn
    at_each P own other j = elim (Bool-cases (i == j)) [
      | inl same ↦ subst (λ k. P k ((turn h c setup i s).stages k)) ((==_iff i j).0 same) own
      | inr differs ↦
          subst (P j) (sym (move_other h c setup i j (s.stages i) s differs)) (other j differs)
    ]

    turn-Follows :
        Follows h c setup
          (answer_at h c setup (Trace.perform c (calls i) s.memory).0 (s.stages i))
          ((turn h c setup i s).stages i)
    unfolding turn
    turn-Follows = move-Follows h c setup i s (s.stages i) refl

    turn_memory :
        (turn h c setup i s).memory
        ≡ (if is_start (s.stages i) then (Trace.perform c (calls i) s.memory).1 else s.memory)
    unfolding turn
    turn_memory = move_memory h c setup i s (s.stages i)

    turn_again : elem i log ≡ true → Tracks memory log (turn h c setup i s)
    turn_again old =
        let begun : is_start (s.stages i) ≡ false = t.moved i ∙ ap not old in
        record {
          in_memory = turn_memory ∙ rw begun t.in_memory;
          moved =
              at_each (λ j stage. is_start stage ≡ not (elem j log))
                (turn-Follows.0 ∙ ap not (sym old)) (λ j differs. t.moved j);
          replies =
              at_each
                (λ j stage.
                  (r : Reply) → reply_of stage ≡ some r → answer_of j log memory ≡ some (ok r))
                (λ r e. t.replies i r (reply_answer_at _ (s.stages i) r begun (turn-Follows.1 r e)))
                (λ j differs. t.replies j);
        }

    turn_first : elem i log ≡ false → Tracks memory (log ++ i ∷ []) (turn h c setup i s)
    unfolding Trace.run
    turn_first new =
        let fresh : is_start (s.stages i) ≡ true = t.moved i ∙ ap not new in
        record {
          in_memory = turn_memory ∙ rw (fresh, after-append log (i ∷ []) memory, t.in_memory) refl;
          moved =
              at_each (λ j stage. is_start stage ≡ not (elem j (log ++ i ∷ [])))
                (turn-Follows.0 ∙ rw (elem-append i i log, (==_iff i i).1 refl) refl)
                (λ j differs.
                  let apart : (j == i) ≡ false = ground (arith, differs) in
                  rw (elem-append j i log, apart) (t.moved j));
          replies =
              at_each
                (λ j stage.
                  (r : Reply)
                  → reply_of stage ≡ some r
                  → answer_of j (log ++ i ∷ []) memory ≡ some (ok r))
                (λ r e.
                  answer_of-last i log memory new
                  ∙ ap some (
                      ap (λ m. (Trace.perform c (calls i) m).0) (sym t.in_memory)
                      ∙ ap (answer_at h c setup (Trace.perform c (calls i) s.memory).0)
                          (sym (is_start_eq (s.stages i) fresh))
                      ∙ turn-Follows.1 r e))
                (λ j differs r e. answer_of-append j log (i ∷ []) memory (t.replies j r e));
        }

    pub Tracks-turn : Tracks memory (logged i log) (turn h c setup i s)
    Tracks-turn = elim (Bool-cases (elem i log)) [
      | inl old ↦ rw old (turn_again old)
      | inr new ↦ rw new (turn_first new)
    ]

  -- An invariant of a system, of the moves to come and of the log of the tasks that have moved.
  pub run_invariant :
      (P : List ℕ → List ℕ → System h c → Type 0)
      → ((i : ℕ) (rest log : List ℕ) (s : System h c)
          → P (i ∷ rest) log s
          → P rest (logged i log) (turn h c setup i s))
      → (schedule seen log : List ℕ) (s : System h c) → ((j : ℕ) → elem j seen ≡ elem j log)
      → P schedule log s
      → P [] (log ++ firsts seen schedule) (run h c setup schedule s)
  unfolding run
  run_invariant P step [] seen log s agree t = rw append-nil t
  run_invariant P step (i ∷ rest) seen log s agree t = elim (Bool-cases (elem i seen)) [
    | inl old ↦ rw old (
        run_invariant P step rest seen log (turn h c setup i s) agree
          (rw (sym (agree i) ∙ old) at (step i rest log s t)))
    | inr new ↦
        rw (new, ← append_assoc log (i ∷ []) (firsts (i ∷ seen) rest))
          (run_invariant P step rest (i ∷ seen) (log ++ i ∷ []) (turn h c setup i s)
            (λ j. rw (elem-append j i log, agree j) refl)
            (rw (sym (agree i) ∙ new) at (step i rest log s t)))
  ]

  pub Tracks-initial :
      (memory : MemoryStore) (disk : Disk) → Tracks memory [] (initial h c memory disk)
  unfolding Trace.run
  Tracks-initial memory disk = record { in_memory = refl; moved = λ i. refl; replies = λ i r e. cc }

  -- However the tasks are interleaved, the memory is that of the sequential run in which each task that
  -- has moved calls once, in the order of their first moves; and whoever has not failed was answered
  -- what it is answered in that run.
  pub run-Tracks :
      (schedule : List ℕ) (memory : MemoryStore) (disk : Disk)
      → Tracks memory (firsts [] schedule) (run h c setup schedule (initial h c memory disk))
  run-Tracks schedule memory disk =
      run_invariant (λ _. Tracks memory) (λ i rest log s. Tracks-turn i log memory s) schedule [] []
        (initial h c memory disk) (λ j. refl) (Tracks-initial memory disk)
