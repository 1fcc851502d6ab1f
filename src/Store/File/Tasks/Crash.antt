-- ===== src/Store/File/Tasks/Crash.antt =====
-- Restarts of the store that the tasks of `Store.File.Tasks` share, at any point.
use oxiscale.Prelude.{◌≡◌, refl, subst, ◌∙◌, some, ℕ, List, [], ◌++◌, inl, inr}
use oxiscale.Store.Chrono.{Chrono}
use oxiscale.Store.Host.{Host, IsFileSystem, IsCreate, IsCodec, Agrees}
use oxiscale.Store.Memory.{MemoryStore}
use oxiscale.Store.Memory.Trace
use oxiscale.Store.File.{from_path}
use oxiscale.Store.File.Flush.{open_store-serialized}
use oxiscale.Store.File.Restart.{open_store-read, Loads}
use oxiscale.Store.File.Tasks.{Setup, run, initial}
use oxiscale.Store.File.Tasks.Order.{after, firsts}
use oxiscale.Store.File.Tasks.Intact.{TakesTurns, IsIntact}
use oxiscale.Store.File.Tasks.Snapshot.{run-IsIntact}

module _ (h : Host) (c : Chrono) (setup : Setup h c) where
  open h use {Disk}
  open setup use {path, format}

  -- A restart loads the document that the memory held after the first of these calls, up to some point.
  abbrev pub LoadsPast : List ℕ → MemoryStore → Disk → Type 0
  LoadsPast log memory disk =
      (earlier : List ℕ) × (later : List ℕ) × (log ≡ earlier ++ later)
      × Loads h c path disk (after h c setup earlier memory).inner

  intact-LoadsPast :
      (codec : IsCodec h) (memory : MemoryStore) (before disk : Disk) (log : List ℕ)
      → from_path path ≡ some format
      → Loads h c path before memory.inner
      → IsIntact h c setup memory before log disk
      → LoadsPast log memory disk
  unfolding Trace.run
  intact-LoadsPast codec memory before disk log opened (s, opens, agrees) intact = elim intact [
    | inl same ↦ ([], log, refl, (s, open_store-read h path before disk same ∙ opens, agrees))
    | inr (doc, (earlier, later, split, past), bytes, written, stored) ↦
        let (s', loads, p, f, agrees') =
          open_store-serialized h codec path format doc bytes disk opened written stored in
        (earlier, later, split, (s', loads, subst (λ d. Agrees s'.memory.inner d) past agrees'))
  ]

  -- On any disk, whatever fails and whatever calls are under way on a store that a restart would load as
  -- it is: where no task reaches the disk while another is between creating the temporary file and
  -- renaming it, a restart loads, wherever they stop, a document that the memory has held, after the
  -- first of the calls in the order of their first moves up to some point.
  pub run-LoadsPast :
      (schedule : List ℕ) (memory : MemoryStore) (before : Disk)
      → IsFileSystem h
      → IsCodec h
      → IsCreate h
      → from_path path ≡ some format
      → Loads h c path before memory.inner
      → TakesTurns h c setup schedule (initial h c memory before)
      → LoadsPast
          (firsts [] schedule)
          memory
          (run h c setup schedule (initial h c memory before)).disk
  run-LoadsPast schedule memory before fs codec files opened loads turns =
      intact-LoadsPast codec memory before _ (firsts [] schedule) opened loads
        (run-IsIntact h c setup memory before {f = format} schedule fs files opened turns)
