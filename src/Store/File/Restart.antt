-- ===== src/Store/File/Restart.antt =====
-- What a restart of crates/control-core/src/store/file.rs loads after a run, and after a failure.
use oxiscale.Prelude.{
  ◌≡◌, refl, sym, ap, ◌∙◌, true, false, some, List, [], ◌∷◌, Result, ok, err, inl, inr, ◌⊎◌,
  Option-cases,
}
use oxiscale.Store.Types.{StoreError, IoError, not_found, other_kind}
use oxiscale.Store.Chrono.{Chrono}
use oxiscale.Store.Document.{StoreDocument}
use oxiscale.Store.Calls.{Call, Answer, Reply, consume_preauth_key}
use oxiscale.Store.FilePath.{FilePath}
use oxiscale.Store.Host.{Host, IsFileSystem, IsCodec, Agrees}
use oxiscale.Store.Memory
use oxiscale.Store.Memory.{MemoryStore}
use oxiscale.Store.Memory.Trace
use oxiscale.Store.Memory.Consume.{consume_cases}
use oxiscale.Store.File.{
  FileStore, from_path, flush, open_store, open_with, load, loaded, load_read, load_document,
}
use oxiscale.Store.File.Trace.{perform}
use oxiscale.Store.File.Flush.{Flushed, flush-Flushed, open_store-serialized}
use oxiscale.Store.File.Durable.{next, perform-Ends}

pub Agrees-refl : (d : StoreDocument) → Agrees d d
Agrees-refl d = record {
  version = refl;
  networks = refl;
  users = refl;
  nodes = refl;
  preauth_keys = refl;
  policies = λ _. refl;
}

module _ (h : Host) where
  open h use {Disk, read}

  -- What opening a path yields depends on what the disk holds there, and on nothing else of it.
  pub open_store-read :
      (path : FilePath) (d d' : Disk)
      → read path d' ≡ read path d
      → open_store h path d' ≡ open_store h path d
  unfolding open_store load
  open_store-read path d d' e = elim (Option-cases (from_path path)) [
    | inl unknown ↦ rw (unknown, open_with)
    | inr (f, known) ↦ rw (known, open_with, load, e)
  ]

  -- An opened store keeps the path, and has the format that its extension names.
  abbrev pub IsOpened : FileStore → Type 0
  IsOpened s = from_path s.path ≡ some s.format

  abbrev Keeps : FileStore → Result StoreError (Unit {0}) × FileStore → Type 0
  Keeps store (ok _, s) = (s.path ≡ store.path) × (s.format ≡ store.format)
  Keeps store (err e, s) = Unit

  load_document-Keeps :
      (store : FileStore) (r : Result StoreError StoreDocument)
      → Keeps store (load_document h store r)
  unfolding load_document
  load_document-Keeps store (ok doc) = (refl, refl)
  load_document-Keeps store (err e) = tt

  load_read-Keeps :
      (store : FileStore) (r : Result IoError h.Bytes) → Keeps store (load_read h store r)
  unfolding load_read
  load_read-Keeps store (ok bytes) = load_document-Keeps store _
  load_read-Keeps store (err not_found) = (refl, refl)
  load_read-Keeps store (err (other_kind n)) = tt

  loaded-Keeps :
      (store s : FileStore) (q : Result StoreError (Unit {0}) × FileStore)
      → Keeps store q
      → loaded h q ≡ ok s
      → (s.path ≡ store.path) × (s.format ≡ store.format)
  unfolding loaded
  loaded-Keeps store s (ok u, s') k e = let same : s' ≡ s = cc in rw (← same) k
  loaded-Keeps store s (err x, s') k e = cc

  pub open_store-IsOpened :
      (path : FilePath) (d : Disk) (s : FileStore)
      → open_store h path d ≡ ok s
      → (s.path ≡ path) × IsOpened s
  unfolding open_store load
  open_store-IsOpened path d s e = elim (Option-cases (from_path path)) [
    | inl unknown ↦ cc (rw (unknown, open_with) at e)
    | inr (f, known) ↦
        let fresh : FileStore = record { path = path; format = f; memory = Memory.new } in
        let (p, g) =
          loaded-Keeps fresh s (load h fresh d) (load_read-Keeps fresh (read path d))
            (rw (known, open_with) at e) in
        (p, ap from_path p ∙ known ∙ ap some (sym g))
  ]

module _ (h : Host) (c : Chrono) where
  open h use {Disk, read}
  open c use {DateTime}

  -- The memory store answers every call.
  pub answered :
      (call : Call DateTime) (s : MemoryStore) → (r : Reply) × ((Trace.perform c call s).0 ≡ ok r)
  unfolding Trace.perform Memory.upsert_network Memory.upsert_user Memory.upsert_node
      Memory.delete_node Memory.upsert_preauth_key Memory.set_policy Memory.list_networks
      Memory.list_users Memory.list_nodes Memory.get_node Memory.list_preauth_keys Memory.get_policy
  answered (consume_preauth_key now id) s = elim (consume_cases c now id s) [
    | inl refused ↦ (Reply.consumed false, rw refused)
    | inr accepted ↦ (Reply.consumed true, rw accepted)
  ]
  answered _ s = (_, refl)

  -- The calls in turn, up to the first error.
  unfoldable pub run :
      List (Call DateTime) → FileStore → Disk → Result StoreError (FileStore × Disk)
  run [] s d = ok (s, d)
  run (call ∷ rest) s d =
      let (a, s', d') = perform h c call s d in elim a [ ok _ ↦ run rest s' d' | err e ↦ err e ]

  abbrev continue :
      List (Call DateTime) → Answer × FileStore × Disk → Result StoreError (FileStore × Disk)
  continue rest (a, s, d) = elim a [ ok _ ↦ run rest s d | err e ↦ err e ]

  -- Opening the path loads this document.
  abbrev pub Loads : FilePath → Disk → StoreDocument → Type 0
  Loads path d doc = (s : FileStore) × (open_store h path d ≡ ok s) × Agrees s.memory.inner doc

  module _ (fs : IsFileSystem h) (codec : IsCodec h) where
    pub flush-Loads :
        (s : FileStore) (d d' : Disk)
        → IsOpened h s
        → flush h s d ≡ (ok tt, d')
        → Loads s.path d' s.memory.inner
    flush-Loads s d d' opened e =
        let flushed : Flushed h fs s d (ok tt, d') = rw e at (flush-Flushed h fs s d opened) in
        let (bytes, written, stored) = flushed in
        let (s', loads, p, f, agrees) =
          open_store-serialized h codec s.path s.format s.memory.inner bytes d' opened written
            stored in
        (s', loads, agrees)

    pub step-Loads :
        (call : Call DateTime) (s : FileStore) (d : Disk)
        → IsOpened h s
        → Loads s.path d s.memory.inner
        → ((e : StoreError) × ((perform h c call s d).0 ≡ err e))
          ⊎ ((d' : Disk) × (perform h c call s d
                ≡ ((Trace.perform c call s.memory).0, next h c call s, d'))
              × Loads s.path d' (Trace.perform c call s.memory).1.inner)
    step-Loads call s d opened loads = elim (perform-Ends h c call s d) [
      | inl (answer_, same) ↦
          inr (d, rw same answer_, rw (ap (λ (t : FileStore). t.memory) same) loads)
      | inr (inl (d', flushed, answer_)) ↦
          inr (d', answer_, flush-Loads (next h c call s) d d' opened flushed)
      | inr (inr (x, d', failed, answer_)) ↦ inl (x, rw answer_)
    ]

    run-Loads :
        (calls : List (Call DateTime)) (s s' : FileStore) (d d' : Disk)
        → IsOpened h s
        → Loads s.path d s.memory.inner
        → run calls s d ≡ ok (s', d')
        → (s' ≡ record s { memory = Trace.run c calls s.memory })
          × Loads s.path d' (Trace.run c calls s.memory).inner
    unfolding run Trace.run
    run-Loads [] s s' d d' opened loads e =
        let pair : ◌≡◌ {A = FileStore × Disk} (s, d) (s', d') = cc in
        (sym (ap (λ q. q.0) pair), rw (ap (λ q. q.1) pair) at loads)
    run-Loads (call ∷ rest) s s' d d' opened loads e = elim (step-Loads call s d opened loads) [
      | inl (x, failed) ↦ cc (rw (run, failed) at e)
      | inr (d1, performed, loads') ↦
          let (r, reply) = answered call s.memory in
          run-Loads rest (next h c call s) s' d1 d' opened loads'
            (sym (ap (continue rest) (performed ∙ ap (λ a. (a, next h c call s, d1)) reply)) ∙ e)
    ]

    -- Where the calls of a run on an opened store all succeed, the store holds what the memory store
    -- holds after them, and opening its path again loads that document.
    pub restart-Loads :
        (path : FilePath) (calls : List (Call DateTime)) (s s' : FileStore) (d d' : Disk)
        → open_store h path d ≡ ok s
        → run calls s d ≡ ok (s', d')
        → (s'.memory ≡ Trace.run c calls s.memory) × Loads path d' s'.memory.inner
    restart-Loads path calls s s' d d' e ran =
        let (p, opened) = open_store-IsOpened h path d s e in
        let again : Loads s.path d s.memory.inner =
          (s, ap (λ q. open_store h q d) p ∙ e, Agrees-refl s.memory.inner) in
        let (same, loads) = run-Loads calls s s' d d' opened again ran in
        let memory : s'.memory ≡ Trace.run c calls s.memory = ap (λ t. t.memory) same in
        (memory, rw (memory, ← p) loads)

    -- A call that fails leaves what opening the path loads as it was, while the store in memory has
    -- taken the call all the same.
    pub failed_call :
        (call : Call DateTime) (s : FileStore) (d : Disk) (e : StoreError)
        → IsOpened h s
        → (perform h c call s d).0 ≡ err e
        → (open_store h s.path (perform h c call s d).2 ≡ open_store h s.path d)
          × ((perform h c call s d).1.memory ≡ (Trace.perform c call s.memory).1)
    failed_call call s d e opened f = elim (perform-Ends h c call s d) [
      | inl (answer_, same) ↦ rw answer_ (refl, ap (λ (t : FileStore). t.memory) (sym same))
      | inr (inl (d', flushed, answer_)) ↦
          let (r, reply) = answered call s.memory in cc (rw (answer_, reply) at f)
      | inr (inr (x, d', failed, answer_)) ↦
          let kept : Flushed h fs (next h c call s) d (err x, d') =
            rw failed at (flush-Flushed h fs (next h c call s) d opened) in
          rw answer_ (open_store-read h s.path d d' kept, refl)
    ]
