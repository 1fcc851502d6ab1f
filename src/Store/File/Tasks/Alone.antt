-- ===== src/Store/File/Tasks/Alone.antt =====
-- The moves that a task of `Store.File.Tasks` makes with no other moving in between, beside the flush of
-- the method that it models.
use oxiscale.Prelude.{
  ℕ, ◌==◌, ◌≡◌, refl, sym, ap, subst, ◌∙◌, false, if◌then◌else◌, Result, ok, err,
}
use oxiscale.Store.Types.{IoError, StoreError, io}
use oxiscale.Store.Chrono.{Chrono}
use oxiscale.Store.Document.{StoreDocument}
use oxiscale.Store.FilePath.{with_extension}
use oxiscale.Store.Calls.{answer, Reply}
use oxiscale.Store.Host.{Host, IsCreate, write_created}
use oxiscale.Store.Memory
use oxiscale.Store.Memory.{MemoryStore}
use oxiscale.Store.Memory.Trace
use oxiscale.Store.File.{FileStore, serialize, flush, write_snapshot, io_step, tmp_extension}
use oxiscale.Store.File.Tasks.{
  Stage, start, changed, taken, writing, written, done, flushes, Setup, System, stage_at, settle,
  answered as settled, on_disk, created, wrote, renamed, serialized, move, turn,
}
use oxiscale.Store.File.Tasks.Moves.{self}

module _ (h : Host) (c : Chrono) (setup : Setup h c) (i : ℕ) where
  open h use {Bytes, File, Disk, write, create, write_all, rename}
  open setup use {path, format, calls}

  pub turn_is :
      (stage : Stage h) (s : System h c)
      → s.stages i ≡ stage
      → turn h c setup i s ≡ move h c setup i stage s
  unfolding turn
  turn_is stage s e = ap (λ x. move h c setup i x s) e

  -- The task has ended as a flush that came to `q`.
  pub record Ended (r : Reply) (q : Result StoreError (Unit {0}) × Disk) (memory : MemoryStore)
      (s : System h c) : Type 0 where
    pub stage : s.stages i ≡ done (answer (λ _. r) q.0)
    pub same : s.memory ≡ memory
    pub disk : s.disk ≡ q.1

  Ended-turn :
      (r : Reply) (q : Result StoreError (Unit {0}) × Disk) (memory : MemoryStore) (s : System h c)
      → Ended r q memory s
      → Ended r q memory (turn h c setup i s)
  unfolding move
  Ended-turn r q memory s e = subst (Ended r q memory) (sym (turn_is _ s e.stage)) e

  renamed-Ended :
      (r : Reply) (q : Result IoError (Unit {0}) × Disk) (s : System h c)
      → Ended r (io_step h q (λ d. (ok tt, d))) s.memory (on_disk h c i (renamed h c r q) s)
  unfolding on_disk renamed io_step
  renamed-Ended r (ok u, d) s = record {
    stage = self h c setup i _ s.stages;
    same = refl;
    disk = refl;
  }
  renamed-Ended r (err x, d) s = record {
    stage = self h c setup i _ s.stages;
    same = refl;
    disk = refl;
  }

  written-Ended :
      (r : Reply) (s : System h c)
      → s.stages i ≡ written r
      → Ended r
          (io_step h (rename (with_extension path tmp_extension) path s.disk) (λ d. (ok tt, d)))
          s.memory
          (turn h c setup i s)
  unfolding move
  written-Ended r s e = rw (turn_is (written r) s e) (renamed-Ended r _ s)

  wrote-Ended :
      (r : Reply) (q : Result IoError (Unit {0}) × Disk) (s : System h c)
      → Ended r
          (io_step h q
            (λ d. io_step h (rename (with_extension path tmp_extension) path d) (λ d. (ok tt, d))))
          s.memory
          (turn h c setup i (on_disk h c i (wrote h c r q) s))
  unfolding on_disk wrote io_step
  wrote-Ended r (ok u, d) s =
      written-Ended r (record s { disk = d; stages = stage_at h c i (written r) s.stages })
        (self h c setup i (written r) s.stages)
  wrote-Ended r (err x, d) s =
      Ended-turn r (err (io x), d) s.memory _
        (record { stage = self h c setup i _ s.stages; same = refl; disk = refl })

  writing-Ended :
      (r : Reply) (bytes : Bytes) (file : File) (s : System h c)
      → s.stages i ≡ writing r bytes file
      → Ended r
          (io_step h
            (write_all file bytes s.disk)
            (λ d. io_step h (rename (with_extension path tmp_extension) path d) (λ d. (ok tt, d))))
          s.memory
          (turn h c setup i (turn h c setup i s))
  unfolding move
  writing-Ended r bytes file s e =
      rw (turn_is (writing r bytes file) s e) (wrote-Ended r (write_all file bytes s.disk) s)

  created-Ended :
      (r : Reply) (bytes : Bytes) (q : Result IoError File × Disk) (s : System h c)
      → Ended r
          (io_step h
            (write_created h bytes q)
            (λ d. io_step h (rename (with_extension path tmp_extension) path d) (λ d. (ok tt, d))))
          s.memory
          (turn h c setup i (turn h c setup i (on_disk h c i (created h c r bytes q) s)))
  unfolding on_disk created io_step
  created-Ended r bytes (ok file, d) s =
      writing-Ended r bytes file
        (record s { disk = d; stages = stage_at h c i (writing r bytes file) s.stages })
        (self h c setup i (writing r bytes file) s.stages)
  created-Ended r bytes (err x, d) s =
      Ended-turn r (err (io x), d) s.memory _
        (Ended-turn r (err (io x), d) s.memory _
          (record { stage = self h c setup i _ s.stages; same = refl; disk = refl }))

  serialized-Ended :
      (r : Reply) (q : Result StoreError Bytes) (s : System h c)
      → IsCreate h
      → Ended r
          (write_snapshot h path q s.disk)
          s.memory
          (turn h c setup i (turn h c setup i (serialized h c path i r q s)))
  unfolding serialized settle write_snapshot
  serialized-Ended r (ok bytes) s files =
      rw (files.write_is (with_extension path tmp_extension) bytes s.disk)
        (created-Ended r bytes (create (with_extension path tmp_extension) s.disk) s)
  serialized-Ended r (err x) s files =
      Ended-turn r (err x, s.disk) s.memory _
        (Ended-turn r (err x, s.disk) s.memory _
          (record { stage = self h c setup i _ s.stages; same = refl; disk = refl }))

  abbrev pub store_of : MemoryStore → FileStore
  store_of memory = record { path = path; format = format; memory = memory }

  pub taken-Ended :
      (r : Reply) (doc : StoreDocument) (s : System h c)
      → IsCreate h
      → s.stages i ≡ taken r doc
      → Ended r
          (flush h (store_of (record { inner = doc })) s.disk)
          s.memory
          (turn h c setup i (turn h c setup i (turn h c setup i s)))
  unfolding move flush Memory.snapshot
  taken-Ended r doc s files e = rw (turn_is (taken r doc) s e) (serialized-Ended r _ s files)

  pub changed-Ended :
      (r : Reply) (s : System h c)
      → IsCreate h
      → s.stages i ≡ changed r
      → Ended r
          (flush h (store_of s.memory) s.disk)
          s.memory
          (turn h c setup i (turn h c setup i (turn h c setup i (turn h c setup i s))))
  unfolding move settle Memory.snapshot
  changed-Ended r s files e = rw (turn_is (changed r) s e) (
      taken-Ended r (Memory.snapshot s.memory)
        (record s { stages = stage_at h c i (taken r (Memory.snapshot s.memory)) s.stages }) files
        (self h c setup i _ s.stages))

  -- What two moves from `taken` come to, where the document serializes and a write comes to `q`.
  abbrev pub WroteAs : Reply → Result IoError (Unit {0}) × Disk → System h c → System h c → Type 0
  WroteAs r q s s' =
      (stages : ℕ → Stage h) × ((j : ℕ) → (i == j) ≡ false → stages j ≡ s.stages j)
      × (s' ≡ record {
        memory = s.memory;
        disk = q.1;
        stages = stage_at h c i (wrote h c r q).0 stages;
      })

  writing-WroteAs :
      (r : Reply) (bytes : Bytes) (file : File) (s : System h c)
      (q : Result IoError (Unit {0}) × Disk)
      → s.stages i ≡ writing r bytes file
      → write_all file bytes s.disk ≡ q
      → turn h c setup i s ≡ record {
        memory = s.memory;
        disk = q.1;
        stages = stage_at h c i (wrote h c r q).0 s.stages;
      }
  unfolding move on_disk wrote
  writing-WroteAs r bytes file s (ok u, d) at e = rw (turn_is (writing r bytes file) s at, e)
  writing-WroteAs r bytes file s (err x, d) at e = rw (turn_is (writing r bytes file) s at, e)

  created-WroteAs :
      (r : Reply) (bytes : Bytes) (s : System h c) (p : Result IoError File × Disk)
      (q : Result IoError (Unit {0}) × Disk)
      → write_created h bytes p ≡ q
      → WroteAs r q s (turn h c setup i (on_disk h c i (created h c r bytes p) s))
  unfolding on_disk created wrote move
  created-WroteAs r bytes s (ok file, d) q e = (
    stage_at h c i (writing r bytes file) s.stages,
    λ j apart. rw apart,
    writing-WroteAs r bytes file
        (record s { disk = d; stages = stage_at h c i (writing r bytes file) s.stages }) q
        (self h c setup i _ s.stages) e,
  )
  created-WroteAs r bytes s (err x, d) q e = (
    s.stages,
    λ j apart. refl,
    turn_is (done (err (io x)))
          (record s { disk = d; stages = stage_at h c i (done (err (io x))) s.stages })
          (self h c setup i _ s.stages)
        ∙ ap
            (λ (z : Result IoError (Unit {0}) × Disk). record s {
              disk = z.1;
              stages = stage_at h c i (wrote h c r z).0 s.stages;
            })
            e,
  )

  pub taken-WroteAs :
      (r : Reply) (doc : StoreDocument) (bytes : Bytes) (s : System h c)
      (q : Result IoError (Unit {0}) × Disk)
      → IsCreate h
      → s.stages i ≡ taken r doc
      → serialize h format doc ≡ ok bytes
      → write (with_extension path tmp_extension) bytes s.disk ≡ q
      → WroteAs r q s (turn h c setup i (turn h c setup i s))
  unfolding move serialized
  taken-WroteAs r doc bytes s q files at coded e =
      rw (turn_is (taken r doc) s at, coded)
        (created-WroteAs r bytes s (create (with_extension path tmp_extension) s.disk) q
          (sym (files.write_is (with_extension path tmp_extension) bytes s.disk) ∙ e))

  -- The first move of a task, from a reply of the memory store.
  pub begun :
      (r : Reply) (s : System h c)
      → s.stages i ≡ start
      → (Trace.perform c (calls i) s.memory).0 ≡ ok r
      → turn h c setup i s ≡ record s {
        memory = (Trace.perform c (calls i) s.memory).1;
        stages = stage_at h c i (if flushes (calls i) r then changed r else done (ok r)) s.stages;
      }
  unfolding move settled settle
  begun r s e f = rw (turn_is start s e, f)
