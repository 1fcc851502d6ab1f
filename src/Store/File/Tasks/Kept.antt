-- ===== src/Store/File/Tasks/Kept.antt =====
-- What a move of a task of `Store.File.Tasks` makes of the file at the path of the snapshot.
use oxiscale.Prelude.{
  ℕ, ◌≡◌, ◌≢◌, refl, sym, ap, subst, ◌∙◌, List, [], append-nil, Result, ok, err, Bool-cases, inl,
  inr,
}
use oxiscale.Store.Types.{IoError, StoreError}
use oxiscale.Store.Chrono.{Chrono}
use oxiscale.Store.Document.{StoreDocument}
use oxiscale.Store.Calls.{Call, Answer, Reply}
use oxiscale.Store.Host.{Host, IsFileSystem, IsCreate}
use oxiscale.Store.Memory
use oxiscale.Store.Memory.{MemoryStore}
use oxiscale.Store.File.{serialize}
use oxiscale.Store.File.Flush.{tmp_path}
use oxiscale.Store.File.Tasks.{
  Stage, start, changed, taken, writing, written, done, flushes, Setup, System, settle, answered,
  on_disk, created, wrote, renamed, serialized, move,
}
use oxiscale.Store.File.Tasks.Moves.{self}
use oxiscale.Store.File.Tasks.Order.{after}
use oxiscale.Store.File.Tasks.Intact.{IsPast, Stored, IsIntact, IsBacked, disk-IsIntact, Kept}

module _ (h : Host) (c : Chrono) (setup : Setup h c) (memory : MemoryStore) (before : h.Disk) where
  open h use {Bytes, File, Disk, read, write, create, write_all, rename}
  open setup use {path, format, calls}

  module _ (fs : IsFileSystem h) (files : IsCreate h) (apart : tmp_path path ≢ path) where
    created-Kept :
        (log : List ℕ) (doc : StoreDocument) (bytes : Bytes) (r : Reply) (d : Disk)
        (q : Result IoError File × Disk)
        → IsIntact h c setup memory before log d
        → IsPast h c setup memory before log doc
        → serialize h format doc ≡ ok bytes
        → create (tmp_path path) d ≡ q
        → Kept h c setup memory before log (created h c r bytes q).1 (created h c r bytes q).0
    unfolding created
    created-Kept log doc bytes r d (ok file, d') intact past coded e = record {
      intact =
          disk-IsIntact h c setup memory before log d d'
            (rw e at (files.create_other (tmp_path path) path d apart)) intact;
      backed = (doc, past, coded, d, e);
    }
    created-Kept log doc bytes r d (err x, d') intact past coded e = record {
      intact =
          disk-IsIntact h c setup memory before log d d'
            (rw e at (files.create_other (tmp_path path) path d apart)) intact;
      backed = tt;
    }

    -- Writing to the file that was just created is a `write`, which leaves the path alone.
    wrote-Kept :
        (log : List ℕ) (doc : StoreDocument) (bytes : Bytes) (r : Reply) (d : Disk)
        (q : Result IoError (Unit {0}) × Disk)
        → IsPast h c setup memory before log doc
        → serialize h format doc ≡ ok bytes
        → write (tmp_path path) bytes d ≡ q
        → IsIntact h c setup memory before log d
        → Kept h c setup memory before log (wrote h c r q).1 (wrote h c r q).0
    unfolding wrote
    wrote-Kept log doc bytes r d (ok u, d') past coded e intact = record {
      intact =
          disk-IsIntact h c setup memory before log d d'
            (rw e at (fs.write_other (tmp_path path) path bytes d apart)) intact;
      backed = (doc, past, bytes, coded, fs.write_read (tmp_path path) bytes d d' e);
    }
    wrote-Kept log doc bytes r d (err x, d') past coded e intact = record {
      intact =
          disk-IsIntact h c setup memory before log d d'
            (rw e at (fs.write_other (tmp_path path) path bytes d apart)) intact;
      backed = tt;
    }

    -- What was at the path when the temporary file was created is still there.
    writing-Kept :
        (log : List ℕ) (bytes : Bytes) (file : File) (r : Reply) (d : Disk)
        → IsIntact h c setup memory before log d
        → IsBacked h c setup memory before log d (writing r bytes file)
        → Kept h c setup memory before log
            (wrote h c r (write_all file bytes d)).1
            (wrote h c r (write_all file bytes d)).0
    writing-Kept log bytes file r d intact (doc, past, coded, d0, e) =
        wrote-Kept log doc bytes r d0 (write_all file bytes d) past coded
          (files.write_is (tmp_path path) bytes d0 ∙ rw e refl)
          (disk-IsIntact h c setup memory before log d d0
            (sym (rw e at (files.create_other (tmp_path path) path d0 apart))) intact)

    renamed-Kept :
        (log : List ℕ) (r : Reply) (d : Disk) (q : Result IoError (Unit {0}) × Disk)
        → IsIntact h c setup memory before log d
        → Stored h c setup memory before log (read (tmp_path path) d)
        → rename (tmp_path path) path d ≡ q
        → Kept h c setup memory before log (renamed h c r q).1 (renamed h c r q).0
    unfolding renamed
    renamed-Kept log r d (ok u, d') intact stored e = record {
      intact = inr (
          subst (Stored h c setup memory before log)
            (sym (fs.rename_moves (tmp_path path) path d d' e)) stored);
      backed = tt;
    }
    renamed-Kept log r d (err x, d') intact stored e = record {
      intact =
          disk-IsIntact h c setup memory before log d d'
            (fs.rename_fails (tmp_path path) path path x d d' e) intact;
      backed = tt;
    }

    answered-Kept :
        (i : ℕ) (log : List ℕ) (call : Call c.DateTime) (a : Answer) (s : System h c)
        → IsIntact h c setup memory before log s.disk
        → Kept h c setup memory before log
            (answered h c i call a s).disk
            ((answered h c i call a s).stages i)
    unfolding answered settle
    answered-Kept i log call (err x) s intact =
        rw (self h c setup i (done (err x)) s.stages) (record { intact = intact; backed = tt })
    answered-Kept i log call (ok r) s intact = elim (Bool-cases (flushes call r)) [
      | inl flushing ↦
          rw (flushing, self h c setup i (changed r) s.stages)
            (record { intact = intact; backed = tt })
      | inr plain ↦
          rw (plain, self h c setup i (done (ok r)) s.stages)
            (record { intact = intact; backed = tt })
    ]

    serialized-Kept :
        (i : ℕ) (log : List ℕ) (r : Reply) (doc : StoreDocument) (q : Result StoreError Bytes)
        (s : System h c)
        → IsIntact h c setup memory before log s.disk
        → IsPast h c setup memory before log doc
        → serialize h format doc ≡ q
        → Kept h c setup memory before log
            (serialized h c path i r q s).disk
            ((serialized h c path i r q s).stages i)
    unfolding serialized settle on_disk
    serialized-Kept i log r doc (ok bytes) s intact past coded =
        rw (self h c setup i (created h c r bytes (create (tmp_path path) s.disk)).0 s.stages) (
          created-Kept log doc bytes r s.disk (create (tmp_path path) s.disk) intact past coded
            refl)
    serialized-Kept i log r doc (err x) s intact past coded =
        rw (self h c setup i (done (err x)) s.stages) (record { intact = intact; backed = tt })

    pub move-Kept :
        (i : ℕ) (log : List ℕ) (s : System h c) (stage : Stage h)
        → s.stages i ≡ stage
        → s.memory ≡ after h c setup log memory
        → IsIntact h c setup memory before log s.disk
        → IsBacked h c setup memory before log s.disk stage
        → Kept h c setup memory before log
            (move h c setup i stage s).disk
            ((move h c setup i stage s).stages i)
    unfolding move settle on_disk Memory.snapshot
    move-Kept i log s start e same intact backed = answered-Kept i log (calls i) _ _ intact
    move-Kept i log s (changed r) e same intact backed =
        rw (self h c setup i (taken r s.memory.inner) s.stages) (record {
          intact = intact;
          backed = (log, [], sym (append-nil log), ap (λ (m : MemoryStore). m.inner) same);
        })
    move-Kept i log s (taken r doc) e same intact backed =
        serialized-Kept i log r doc (serialize h format doc) s intact backed refl
    move-Kept i log s (writing r bytes file) e same intact backed =
        rw (self h c setup i (wrote h c r (write_all file bytes s.disk)).0 s.stages)
          (writing-Kept log bytes file r s.disk intact backed)
    move-Kept i log s (written r) e same intact backed =
        rw (self h c setup i (renamed h c r (rename (tmp_path path) path s.disk)).0 s.stages)
          (renamed-Kept log r s.disk (rename (tmp_path path) path s.disk) intact backed refl)
    move-Kept i log s (done a) e same intact backed = rw e (record { intact = intact; backed = tt })
