-- ===== src/Store/File/Tasks/Lost.antt =====
-- An interleaving of two tasks of `Store.File.Tasks` in which the older snapshot is written last.
use oxiscale.Prelude.{
  ℕ, ◌==◌, ◌≡◌, refl, sym, ap, subst, ◌∙◌, true, false, some, List, [], ◌∷◌, ok, arith,
}
use oxiscale.Store.Chrono.{Chrono}
use oxiscale.Store.Calls.{answer, Reply}
use oxiscale.Store.Host.{Host, IsFileSystem, IsCreate, IsCodec}
use oxiscale.Store.Memory
use oxiscale.Store.Memory.{MemoryStore}
use oxiscale.Store.Memory.Trace
use oxiscale.Store.File.{flush, from_path}
use oxiscale.Store.File.Healthy.{IsHealthy, Coded, flush_ok}
use oxiscale.Store.File.Restart.{Loads, flush-Loads}
use oxiscale.Store.File.Tasks.{
  start, changed, taken, done, flushes, Setup, System, stage_at, turn, run, initial, move, settle,
}
use oxiscale.Store.File.Tasks.Alone.{taken-Ended, changed-Ended, begun, turn_is, store_of}
use oxiscale.Store.File.Tasks.Moves.{self, turn_other}

-- The schedule: task `i` takes its snapshot, task `j` runs to its end, task `i` goes on.
abbrev pub overtaken : ℕ → ℕ → List ℕ
overtaken i j = i ∷ i ∷ j ∷ j ∷ j ∷ j ∷ j ∷ i ∷ i ∷ i ∷ []

module _ (h : Host) (c : Chrono) (setup : Setup h c) where
  open h use {Disk, read}
  open setup use {path, format, calls}

  -- The task calls, and its method will flush.
  pub record Writes (i : ℕ) (memory : MemoryStore) : Type 0 where
    pub reply : Reply
    pub replied : (Trace.perform c (calls i) memory).0 ≡ ok reply
    pub flushing : flushes (calls i) reply ≡ true

  abbrev pub called : ℕ → MemoryStore → MemoryStore
  called i memory = (Trace.perform c (calls i) memory).1

  begins :
      (i : ℕ) (s : System h c) (w : Writes i s.memory)
      → s.stages i ≡ start
      → turn h c setup i s ≡ record s {
        memory = called i s.memory;
        stages = stage_at h c i (changed w.reply) s.stages;
      }
  begins i s w e = rw (begun h c setup i w.reply s e w.replied, w.flushing)

  -- A task calls and takes its snapshot.
  pub takes :
      (i : ℕ) (s : System h c) (w : Writes i s.memory)
      → s.stages i ≡ start
      → turn h c setup i (turn h c setup i s) ≡ record {
        memory = called i s.memory;
        disk = s.disk;
        stages =
            stage_at h c i
              (taken w.reply (called i s.memory).inner)
              (stage_at h c i (changed w.reply) s.stages);
      }
  unfolding move settle Memory.snapshot
  takes i s w e = rw (begins i s w e) (
      turn_is h c setup i (changed w.reply)
        (record s {
          memory = called i s.memory;
          stages = stage_at h c i (changed w.reply) s.stages;
        })
        (self h c setup i (changed w.reply) s.stages))

  -- Two tasks that write documents that serialize, where the first is overtaken between its snapshot and
  -- its write, both succeed on a disk that does not fail; the store has taken both calls; and a restart
  -- loads a document without the second.
  pub overtaken_lost :
      (i j : ℕ) (memory : MemoryStore) (disk : Disk)
      → (fs : IsFileSystem h) → IsCodec h
      → IsCreate h
      → IsHealthy h c fs
      → from_path path ≡ some format
      → (i == j) ≡ false
      → Coded h c fs format (called i memory).inner
      → Coded h c fs format (called j (called i memory)).inner
      → (wi : Writes i memory) (wj : Writes j (called i memory))
      → let s = run h c setup (overtaken i j) (initial h c memory disk) in
        (s.stages i ≡ done (ok wi.reply))
        × (s.stages j ≡ done (ok wj.reply))
        × (s.memory ≡ called j (called i memory))
        × Loads h c path s.disk (called i memory).inner
  unfolding run
  overtaken_lost i j memory disk fs codec files healthy opened apart coded_i coded_j wi wj =
      let m1 = called i memory in
      let s2 : System h c = record {
        memory = m1;
        disk = disk;
        stages =
            stage_at h c i (taken wi.reply m1.inner)
              (stage_at h c i (changed wi.reply) (λ _. start));
      } in
      let s3 : System h c = record s2 {
        memory = called j m1;
        stages = stage_at h c j (changed wj.reply) s2.stages;
      } in
      let s7 = turn h c setup j (turn h c setup j (turn h c setup j (turn h c setup j s3))) in
      let apart' : (j == i) ≡ false = ground (arith, apart) in
      let waiting : s7.stages i ≡ taken wi.reply m1.inner =
        turn_other h c setup j i _ apart'
        ∙ turn_other h c setup j i _ apart'
        ∙ turn_other h c setup j i _ apart'
        ∙ turn_other h c setup j i s3 apart'
        ∙ rw apart' (self h c setup i _ (stage_at h c i (changed wi.reply) (λ _. start))) in
      let first = changed-Ended h c setup j wj.reply s3 files (self h c setup j _ s2.stages) in
      let last = taken-Ended h c setup i wi.reply m1.inner s7 files waiting in
      let ok_j = flush_ok h c fs (store_of h c setup j (called j m1)) disk healthy coded_j in
      let ok_i = flush_ok h c fs (store_of h c setup i m1) s7.disk healthy coded_i in
      rw (takes i (initial h c memory disk) wi refl, begins j s2 wj (rw apart refl))
        (
          last.stage ∙ ap (λ q. done (answer (λ _. wi.reply) q)) ok_i,
          turn_other h c setup i j _ apart
              ∙ turn_other h c setup i j _ apart
              ∙ turn_other h c setup i j s7 apart
              ∙ first.stage
              ∙ ap (λ q. done (answer (λ _. wj.reply) q)) ok_j,
          last.same ∙ first.same,
          subst (λ d. Loads h c path d m1.inner) (sym last.disk)
              (flush-Loads h c fs codec (store_of h c setup i m1) s7.disk
                (flush h (store_of h c setup i m1) s7.disk).1 opened
                (ap (λ q. (q, (flush h (store_of h c setup i m1) s7.disk).1)) ok_i)),
        )
