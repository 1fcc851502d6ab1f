-- ===== src/Store/File/Tasks/Snapshot.antt =====
-- What the tasks of `Store.File.Tasks` leave at the path of the snapshot, where they take turns at the
-- disk.
use oxiscale.Prelude.{
  ℕ, ◌==◌, ◌≡◌, ◌≢◌, refl, sym, subst, false, some, List, [], ◌∷◌, Bool-cases, inl, inr,
}
use oxiscale.Store.Chrono.{Chrono}
use oxiscale.Store.Host.{Host, IsFileSystem, IsCreate}
use oxiscale.Store.Memory.{MemoryStore}
use oxiscale.Store.File.{Format, from_path}
use oxiscale.Store.File.Flush.{tmp_path, tmp_path-ne}
use oxiscale.Store.File.Tasks.{Setup, System, turn, run, initial}
use oxiscale.Store.File.Tasks.Moves.{touches, move_disk}
use oxiscale.Store.File.Tasks.Order.{
  Tracks, Tracks-turn, Tracks-initial, at_each, elem, firsts, logged, run_invariant,
}
use oxiscale.Store.File.Tasks.Intact.{
  TakesTurns, IsIntact, IsIntact-append, IsBacked, IsBacked-append, IsBacked-disk, Kept,
}
use oxiscale.Store.File.Tasks.Kept.{move-Kept}

module _ (h : Host) (c : Chrono) (setup : Setup h c) (memory : MemoryStore) (before : h.Disk) where
  open h use {Bytes, File, Disk, read, write, create, write_all, rename}
  open setup use {path, format, calls}

  module _ (fs : IsFileSystem h) (files : IsCreate h) (apart : tmp_path path ≢ path) where
    -- The log tracks the tasks, and the disk holds what their stages say.
    record Holds (log : List ℕ) (s : System h c) : Type 0 where
      tracks : Tracks h c setup memory log s
      intact : IsIntact h c setup memory before log s.disk
      backed : (i : ℕ) → IsBacked h c setup memory before log s.disk (s.stages i)

    module _ (i : ℕ) (rest log : List ℕ) (s : System h c) (holds : Holds log s)
        (turns : TakesTurns h c setup (i ∷ rest) s) where
      turn-Kept :
          Kept h c setup memory before log (turn h c setup i s).disk ((turn h c setup i s).stages i)
      unfolding turn
      turn-Kept =
          move-Kept h c setup memory before fs files apart i log s (s.stages i) refl
            holds.tracks.in_memory holds.intact (holds.backed i)

      -- A task that does not move has not begun to write, or the disk stays.
      other-IsBacked :
          (j : ℕ)
          → (i == j) ≡ false
          → IsBacked h c setup memory before log (turn h c setup i s).disk (s.stages j)
      unfolding turn
      other-IsBacked j differs = elim (Bool-cases (touches (s.stages i))) [
        | inl reaches ↦
            IsBacked-disk h c setup memory before log s.disk _ (s.stages j)
              (turns.0 j differs reaches) (holds.backed j)
        | inr away ↦
            subst (λ d. IsBacked h c setup memory before log d (s.stages j))
              (sym (move_disk h c setup i s (s.stages i) away)) (holds.backed j)
      ]

      turn-IsBacked :
          (j : ℕ)
          → IsBacked h c setup memory before log
              (turn h c setup i s).disk
              ((turn h c setup i s).stages j)
      turn-IsBacked =
          at_each h c setup i log memory s holds.tracks
            (λ j stage. IsBacked h c setup memory before log (turn h c setup i s).disk stage)
            turn-Kept.backed other-IsBacked

      Holds-turn :
          Holds (logged h c setup i log) (turn h c setup i s)
          × TakesTurns h c setup rest (turn h c setup i s)
      Holds-turn =
          let tracks = Tracks-turn h c setup i log memory s holds.tracks in
          elim (Bool-cases (elem i log)) [
            | inl old ↦ rw old (
              record {
                tracks = rw old at tracks;
                intact = turn-Kept.intact;
                backed = turn-IsBacked;
              },
              turns.1,
            )
            | inr new ↦ rw new (
              record {
                tracks = rw new at tracks;
                intact = IsIntact-append h c setup memory before log (i ∷ []) _ turn-Kept.intact;
                backed =
                    λ j. IsBacked-append h c setup memory before log (i ∷ []) _ _ (turn-IsBacked j);
              },
              turns.1,
            )
          ]

  -- On any disk, whatever fails: where no task reaches the disk while another is between creating the
  -- temporary file and renaming it, the tasks may be interleaved in any way and stopped anywhere, and
  -- the file at the path is as it was at first, or it holds, serialized, the document that the memory
  -- held after some of the calls, in the order of their first moves.
  pub run-IsIntact :
      {f : Format} (schedule : List ℕ)
      → IsFileSystem h
      → IsCreate h
      → from_path path ≡ some f
      → TakesTurns h c setup schedule (initial h c memory before)
      → IsIntact h c setup memory before
          (firsts [] schedule)
          (run h c setup schedule (initial h c memory before)).disk
  run-IsIntact {f} schedule fs files opened turns =
      let apart = tmp_path-ne path f opened in
      (run_invariant h c setup
        (λ rest log s. Holds fs files apart log s × TakesTurns h c setup rest s)
        (λ i rest log s (holds, turns). Holds-turn fs files apart i rest log s holds turns) schedule
        [] [] (initial h c memory before) (λ j. refl)
        (
          record {
            tracks = Tracks-initial h c setup memory before;
            intact = inl refl;
            backed = λ i. tt;
          },
          turns,
        )).0.intact
