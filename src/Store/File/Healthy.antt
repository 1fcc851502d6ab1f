-- ===== src/Store/File/Healthy.antt =====
-- Runs of crates/control-core/src/store/file.rs on a disk that does not fail.
use oxiscale.Prelude.{◌≡◌, refl, sym, ap, ◌∙◌, List, [], ◌∷◌, Result, ok, err, inl, inr}
use oxiscale.Store.Types.{IoError}
use oxiscale.Store.Chrono.{Chrono}
use oxiscale.Store.Document.{StoreDocument}
use oxiscale.Store.Calls.{Call}
use oxiscale.Store.FilePath.{FilePath}
use oxiscale.Store.Host.{Host, IsFileSystem}
use oxiscale.Store.Memory
use oxiscale.Store.Memory.{MemoryStore}
use oxiscale.Store.Memory.Trace
use oxiscale.Store.File.{FileStore, Format, flush, write_snapshot, io_step, serialize}
use oxiscale.Store.File.Trace.{perform}
use oxiscale.Store.File.Flush.{tmp_path}
use oxiscale.Store.File.Durable.{next, perform-Ends}
use oxiscale.Store.File.Restart.{answered, run}

module _ (h : Host) (c : Chrono) (fs : IsFileSystem h) where
  open h use {Bytes, Disk, read, write, rename}
  open c use {DateTime}

  -- Every write succeeds, and so does every rename of a file that is there.
  pub record IsHealthy : Type 0 where
    pub writes : (p : FilePath) (b : Bytes) (d : Disk) → (write p b d).0 ≡ ok tt
    pub renames :
        (p q : FilePath) (b : Bytes) (d : Disk) → read p d ≡ ok b → (rename p q d).0 ≡ ok tt

  -- The document serializes, which TOML refuses of an integer above 2^63 - 1.
  abbrev pub Coded : Format → StoreDocument → Type 0
  Coded f doc = (b : Bytes) × (serialize h f doc ≡ ok b)

  -- After each of the calls the memory holds a document that serializes.
  abbrev pub Serializable : Format → List (Call DateTime) → MemoryStore → Type 0
  Serializable f [] memory = Unit
  Serializable f (call ∷ rest) memory =
      Coded f (Trace.perform c call memory).1.inner
      × Serializable f rest (Trace.perform c call memory).1

  renamed_ok :
      (q : Result IoError (Unit {0}) × Disk)
      → q.0 ≡ ok tt
      → (io_step h q (λ d. (ok tt, d))).0 ≡ ok tt
  unfolding io_step
  renamed_ok (ok u, d) e = refl
  renamed_ok (err x, d) e = cc

  written_ok :
      (path : FilePath) (bytes : Bytes) (disk : Disk) (q : Result IoError (Unit {0}) × Disk)
      → IsHealthy
      → write (tmp_path path) bytes disk ≡ q
      → q.0 ≡ ok tt
      → (io_step h q (λ w. io_step h (rename (tmp_path path) path w) (λ d. (ok tt, d)))).0 ≡ ok tt
  unfolding io_step
  written_ok path bytes disk (ok u, d) healthy e f =
      renamed_ok (rename (tmp_path path) path d) (
        healthy.renames (tmp_path path) path bytes d (fs.write_read (tmp_path path) bytes disk d e))
  written_ok path bytes disk (err x, d) healthy e f = cc

  pub flush_ok :
      (s : FileStore) (disk : Disk)
      → IsHealthy
      → Coded s.format s.memory.inner
      → (flush h s disk).0 ≡ ok tt
  unfolding flush write_snapshot Memory.snapshot
  flush_ok s disk healthy (bytes, e) =
      rw (flush, e, write_snapshot)
        (written_ok s.path bytes disk (write (tmp_path s.path) bytes disk) healthy refl
          (healthy.writes (tmp_path s.path) bytes disk))

  perform_ok :
      (call : Call DateTime) (s : FileStore) (disk : Disk)
      → IsHealthy
      → Coded s.format (Trace.perform c call s.memory).1.inner
      → (disk' : Disk) × (perform h c call s disk
          ≡ ((Trace.perform c call s.memory).0, next h c call s, disk'))
  perform_ok call s disk healthy coded = elim (perform-Ends h c call s disk) [
    | inl (e, same) ↦ (disk, e ∙ ap (λ x. ((Trace.perform c call s.memory).0, x, disk)) (sym same))
    | inr (inl (disk', flushed, e)) ↦ (disk', e)
    | inr (inr (x, disk', failed, e)) ↦
        cc (ap (λ r. r.0) failed, flush_ok (next h c call s) disk healthy coded)
  ]

  -- On a disk that does not fail, every run of calls after each of which the document in memory
  -- serializes in the format of the store gets to its end without an error, and the store then holds
  -- what the memory store holds after those calls.
  pub run_completes :
      (calls : List (Call DateTime)) (s : FileStore) (disk : Disk)
      → IsHealthy
      → Serializable s.format calls s.memory
      → (s' : FileStore) × (disk' : Disk) × (run h c calls s disk ≡ ok (s', disk'))
        × (s'.memory ≡ Trace.run c calls s.memory)
  unfolding run Trace.run
  run_completes [] s disk healthy codes = (s, disk, refl, refl)
  run_completes (call ∷ rest) s disk healthy (coded, codes) =
      let (disk1, e) = perform_ok call s disk healthy coded in
      let (reply, answer) = answered h c call s.memory in
      let (s', disk', runs, same) = run_completes rest (next h c call s) disk1 healthy codes in
      (s', disk', rw (run, e, answer, e, runs), same)
