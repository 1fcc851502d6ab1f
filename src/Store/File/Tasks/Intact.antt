-- ===== src/Store/File/Tasks/Intact.antt =====
-- What the file at the path of a store of crates/control-core/src/store/file.rs may hold while tasks share
-- the store.
use oxiscale.Prelude.{
  ℕ, ◌==◌, ◌≡◌, sym, ap, subst, ◌∙◌, Bool, true, false, List, [], ◌∷◌, ◌++◌, append_assoc, Result,
  ok, ◌⊎◌, inl, inr,
}
use oxiscale.Store.Types.{IoError}
use oxiscale.Store.Chrono.{Chrono}
use oxiscale.Store.Document.{StoreDocument}
use oxiscale.Store.FilePath.{FilePath}
use oxiscale.Store.Host.{Host}
use oxiscale.Store.Memory.{MemoryStore}
use oxiscale.Store.File.{serialize}
use oxiscale.Store.File.Flush.{tmp_path}
use oxiscale.Store.File.Tasks.{
  Stage, start, changed, taken, writing, written, done, Setup, System, turn,
}
use oxiscale.Store.File.Tasks.Moves.{touches}
use oxiscale.Store.File.Tasks.Order.{after}

module _ {h : Host} where
  -- The task has created the temporary file and not renamed it.
  abbrev pub is_midway : Stage h → Bool
  is_midway (writing _ _ _) = true
  is_midway (written _) = true
  is_midway _ = false

module _ (h : Host) (c : Chrono) (setup : Setup h c) where
  -- Along the schedule, no task reaches the disk while another is between creating the temporary file
  -- and renaming it.
  abbrev pub TakesTurns : List ℕ → System h c → Type 0
  TakesTurns [] s = Unit
  TakesTurns (i ∷ rest) s =
      ((j : ℕ) → (i == j) ≡ false → touches (s.stages i) ≡ true → is_midway (s.stages j) ≡ false)
      × TakesTurns rest (turn h c setup i s)

module _ (h : Host) (c : Chrono) (setup : Setup h c) (memory : MemoryStore) (before : h.Disk) where
  open h use {Bytes, Disk, read, create}
  open setup use {path, format, calls}

  abbrev pub tmp : FilePath
  tmp = tmp_path path

  -- The memory held this document after some of the first calls of the log.
  abbrev pub IsPast : List ℕ → StoreDocument → Type 0
  IsPast log doc =
      (earlier : List ℕ) × (later : List ℕ) × (log ≡ earlier ++ later)
      × (doc ≡ (after h c setup earlier memory).inner)

  -- A file that holds such a document, serialized.
  abbrev pub Stored : List ℕ → Result IoError Bytes → Type 0
  Stored log file =
      (doc : StoreDocument) × IsPast log doc
      × (bytes : Bytes) × (serialize h format doc ≡ ok bytes)
      × (file ≡ ok bytes)

  abbrev pub IsIntact : List ℕ → Disk → Type 0
  IsIntact log d = (read path d ≡ read path before) ⊎ Stored log (read path d)

  pub IsPast-append :
      (log more : List ℕ) (doc : StoreDocument) → IsPast log doc → IsPast (log ++ more) doc
  IsPast-append log more doc (earlier, later, split, same) =
      (earlier, later ++ more, ap (λ l. l ++ more) split ∙ append_assoc earlier later more, same)

  pub Stored-append :
      (log more : List ℕ) (file : Result IoError Bytes)
      → Stored log file
      → Stored (log ++ more) file
  Stored-append log more file (doc, past, bytes, coded, e) =
      (doc, IsPast-append log more doc past, bytes, coded, e)

  pub IsIntact-append : (log more : List ℕ) (d : Disk) → IsIntact log d → IsIntact (log ++ more) d
  IsIntact-append log more d (inl e) = inl e
  IsIntact-append log more d (inr st) = inr (Stored-append log more _ st)

  -- What the stage of a task says of the disk.
  abbrev pub IsBacked : List ℕ → Disk → Stage h → Type 0
  IsBacked log d (taken r doc) = IsPast log doc
  IsBacked log d (writing r bytes file) =
      (doc : StoreDocument) × IsPast log doc
      × (serialize h format doc ≡ ok bytes)
      × (d0 : Disk) × (create tmp d0 ≡ (ok file, d))
  IsBacked log d (written r) = Stored log (read tmp d)
  IsBacked log d _ = Unit

  pub IsBacked-append :
      (log more : List ℕ) (d : Disk) (stage : Stage h)
      → IsBacked log d stage
      → IsBacked (log ++ more) d stage
  IsBacked-append log more d start b = tt
  IsBacked-append log more d (changed r) b = tt
  IsBacked-append log more d (taken r doc) b = IsPast-append log more doc b
  IsBacked-append log more d (writing r bytes file) (doc, past, coded, d0, e) =
      (doc, IsPast-append log more doc past, coded, d0, e)
  IsBacked-append log more d (written r) b = Stored-append log more (read tmp d) b
  IsBacked-append log more d (done a) b = tt

  -- A task that is not midway does not mind what becomes of the disk.
  pub IsBacked-disk :
      (log : List ℕ) (d d' : Disk) (stage : Stage h)
      → is_midway stage ≡ false
      → IsBacked log d stage
      → IsBacked log d' stage
  IsBacked-disk log d d' start away b = tt
  IsBacked-disk log d d' (changed r) away b = tt
  IsBacked-disk log d d' (taken r doc) away b = b
  IsBacked-disk log d d' (writing r bytes file) away b = cc
  IsBacked-disk log d d' (written r) away b = cc
  IsBacked-disk log d d' (done a) away b = tt

  pub disk-IsIntact :
      (log : List ℕ) (d d' : Disk) → read path d' ≡ read path d → IsIntact log d → IsIntact log d'
  disk-IsIntact log d d' e intact =
      subst (λ file. (file ≡ read path before) ⊎ Stored log file) (sym e) intact

  -- The disk and the task's stage after a move.
  pub record Kept (log : List ℕ) (d' : Disk) (stage : Stage h) : Type 0 where
    pub intact : IsIntact log d'
    pub backed : IsBacked log d' stage
