-- ===== src/Store/File/History.antt =====
-- crates/control-core/src/store/file.rs over restarts: a server that opens its store, is called until a
-- call fails or it is stopped, and is started again.
mod Tests
use oxiscale.Prelude.{
  ◌≡◌, refl, sym, ap, ◌∙◌, subst, fun_ext, some, List, [], ◌∷◌, ◌++◌, Result, ok, err, inl, inr,
}
use oxiscale.Store.Types.{IoError, StoreError, not_found}
use oxiscale.Store.Chrono.{Chrono}
use oxiscale.Store.Document.{StoreDocument}
use oxiscale.Store.FilePath.{FilePath}
use oxiscale.Store.Calls.{Call, Answer, Reply}
use oxiscale.Store.Spec.{View, nothing, advance, advance_all, IsAnswer}
use oxiscale.Store.Host.{Host, IsFileSystem, IsCodec, Agrees}
use oxiscale.Store.Memory
use oxiscale.Store.Memory.{MemoryStore}
use oxiscale.Store.Memory.Trace as MemoryTrace
use oxiscale.Store.Memory.Unique.{IsWellFormed, new-IsWellFormed, perform-IsWellFormed}
use oxiscale.Store.Memory.Refines.{view, new-view, view-perform, perform-IsAnswer}
use oxiscale.Store.File.{
  FileStore, Format, from_path, open_store, open_with, load, loaded, load_read,
}
use oxiscale.Store.File.Trace.{perform}
use oxiscale.Store.File.Durable.{next}
use oxiscale.Store.File.Restart.{
  IsOpened, open_store-IsOpened, Loads, step-Loads, failed_call, answered, Agrees-refl,
}
use oxiscale.Store.Contract.Backends.{perform_answer}

module _ (h : Host) (c : Chrono) where
  open h use {Disk, read}
  open c use {DateTime}

  abbrev on_answer :
      Call DateTime
      → (FileStore → Disk → List (Call DateTime) × Disk)
      → Answer × FileStore × Disk
      → List (Call DateTime) × Disk
  on_answer call again (ok r, s, disk) = let (done, left) = again s disk in (call ∷ done, left)
  on_answer call again (err e, s, disk) = ([], disk)

  abbrev on_open :
      (FileStore → List (Call DateTime) × Disk)
      → (Disk → List (Call DateTime) × Disk)
      → Disk
      → Result StoreError FileStore
      → List (Call DateTime) × Disk
  on_open session again disk (ok s) =
      let (done, left) = session s in let (later, end) = again left in (done ++ later, end)
  on_open session again disk (err e) = ([], disk)

  -- The calls in turn up to the first that fails: those that succeeded, and what is left on the disk.
  unfoldable pub succeeded : List (Call DateTime) → FileStore → Disk → List (Call DateTime) × Disk
  succeeded [] s disk = ([], disk)
  succeeded (call ∷ rest) s disk = on_answer call (succeeded rest) (perform h c call s disk)

  -- A number of such sessions, each on the store as it is opened.
  unfoldable pub history :
      FilePath → List (List (Call DateTime)) → Disk → List (Call DateTime) × Disk
  history path [] disk = ([], disk)
  history path (calls ∷ rest) disk =
      on_open (λ s. succeeded calls s disk) (history path rest) disk (open_store h path disk)

  -- What a call is answered that succeeds.
  abbrev pub IsAnswered : Call DateTime → View → Answer → Type 0
  IsAnswered call v (ok r) = IsAnswer c call v (ok r)
  IsAnswered call v (err e) = Unit

  -- A memory store that the disk holds, with maps.
  record Holds (path : FilePath) (disk : Disk) (v : View) : Type 0 where
    memory : MemoryStore
    loads : Loads h c path disk memory.inner
    valid : IsWellFormed memory.inner
    shows : view memory ≡ v

  Agrees-view :
      (d e : StoreDocument) → Agrees d e → view (record { inner = d }) ≡ view (record { inner = e })
  Agrees-view d e same =
      rw (same.networks, same.users, same.nodes, same.preauth_keys)
        (ap (λ f. record (view (record { inner = e })) { policies = f }) (fun_ext same.policies))

  Agrees-IsWellFormed : (d e : StoreDocument) → Agrees d e → IsWellFormed e → IsWellFormed d
  Agrees-IsWellFormed d e same valid = record {
    networks = rw same.networks valid.networks;
    users = rw same.users valid.users;
    nodes = rw same.nodes valid.nodes;
    preauth_keys = rw same.preauth_keys valid.preauth_keys;
  }

  -- A call that fails is not counted.
  refused-Holds :
      (call : Call DateTime) (again : FileStore → Disk → List (Call DateTime) × Disk)
      (path : FilePath) (q : Answer × FileStore × Disk) (e : StoreError) (v : View)
      → q.0 ≡ err e
      → Holds path q.2 v
      → Holds path (on_answer call again q).1 (advance_all c (on_answer call again q).0 v)
  refused-Holds call again path (ok r, s, disk) e v failed holds = cc failed
  refused-Holds call again path (err x, s, disk) e v failed holds = holds

  module _ (fs : IsFileSystem h) (codec : IsCodec h) where
    succeeded-Holds :
        (calls : List (Call DateTime)) (s : FileStore) (disk : Disk)
        → IsOpened h s
        → Loads h c s.path disk s.memory.inner
        → IsWellFormed s.memory.inner
        → Holds s.path
            (succeeded calls s disk).1
            (advance_all c (succeeded calls s disk).0 (view s.memory))
    unfolding succeeded
    succeeded-Holds [] s disk opened loads valid = record {
      memory = s.memory;
      loads = loads;
      valid = valid;
      shows = refl;
    }
    succeeded-Holds (call ∷ rest) s disk opened loads valid =
        elim (step-Loads h c fs codec call s disk opened loads) [
          | inl (e, failed) ↦
              let kept = (failed_call h c fs codec call s disk e opened failed).0 in
              refused-Holds call (succeeded rest) s.path (perform h c call s disk) e _ failed
                (record {
                  memory = s.memory;
                  loads = (loads.0, kept ∙ loads.1, loads.2);
                  valid = valid;
                  shows = refl;
                })
          | inr (disk', performed, loads') ↦
              let (r, reply) = answered h c call s.memory in
              let s' = next h c call s in
              let later =
                succeeded-Holds rest s' disk' opened loads'
                  (perform-IsWellFormed c call s.memory valid) in
              subst
                (λ q.
                  Holds s.path (on_answer call (succeeded rest) q).1
                    (advance_all c (on_answer call (succeeded rest) q).0 (view s.memory)))
                (sym (performed ∙ ap (λ a. (a, s', disk')) reply))
                (record {
                  memory = later.memory;
                  loads = later.loads;
                  valid = later.valid;
                  shows =
                      later.shows
                      ∙ ap (advance_all c (succeeded rest s' disk').0)
                          (view-perform c call s.memory);
                })
        ]

    advance_all-append :
        (done later : List (Call DateTime)) (v : View)
        → advance_all c (done ++ later) v ≡ advance_all c later (advance_all c done v)
    advance_all-append [] later v = refl
    advance_all-append (call ∷ done) later v = advance_all-append done later (advance c call v)

    history-Holds :
        (path : FilePath) (sessions : List (List (Call DateTime))) (disk : Disk) (v : View)
        → Holds path disk v
        → Holds path (history path sessions disk).1 (advance_all c (history path sessions disk).0 v)
    unfolding history
    history-Holds path [] disk v holds = holds
    history-Holds path (calls ∷ rest) disk v holds =
        let (s, opens, agrees) = holds.loads in
        let (same, opened) = open_store-IsOpened h path disk s opens in
        let shown : view s.memory ≡ v =
          Agrees-view s.memory.inner holds.memory.inner agrees ∙ holds.shows in
        let (done, left) = succeeded calls s disk in
        let after : Holds path left (advance_all c done v) =
          subst (λ p. Holds p left (advance_all c done v)) same
            (subst (λ w. Holds s.path left (advance_all c done w)) shown
              (succeeded-Holds calls s disk opened
                (s, ap (λ p. open_store h p disk) same ∙ opens, Agrees-refl s.memory.inner)
                (Agrees-IsWellFormed s.memory.inner holds.memory.inner agrees holds.valid))) in
        let all = history-Holds path rest left (advance_all c done v) after in
        rw opens (
          subst (Holds path (history path rest left).1)
            (sym (advance_all-append done (history path rest left).0 v)) all)

    answer-IsAnswered :
        (call : Call DateTime) (v : View) (a : Answer)
        → ((r : Reply) → a ≡ ok r → IsAnswer c call v (ok r))
        → IsAnswered call v a
    answer-IsAnswered call v (ok r) lawful = lawful r refl
    answer-IsAnswered call v (err e) lawful = tt

    missing-Holds :
        (path : FilePath) (disk : Disk) {f : Format}
        → from_path path ≡ some f
        → read path disk ≡ err not_found
        → Holds path disk nothing
    unfolding open_store load
    missing-Holds path disk {f} opened missing = record {
      memory = Memory.new;
      loads = (
        record { path = path; format = f; memory = Memory.new },
        rw (opened, open_with, load, missing, load_read, loaded) refl,
        Agrees-refl Memory.new.inner,
      );
      valid = new-IsWellFormed;
      shows = new-view;
    }

    -- Where a path of a known format has no file at first, and the server is restarted any number of
    -- times, each time at the first call that fails or before: the store opens again, and a call on it
    -- that succeeds is answered as by the maps that the calls that have succeeded, and no others, have
    -- written.
    pub history_refines :
        (path : FilePath) (sessions : List (List (Call DateTime))) (call : Call DateTime)
        (disk : Disk) {f : Format}
        → from_path path ≡ some f
        → read path disk ≡ err not_found
        → let (done, left) = history path sessions disk in
          (s : FileStore) × (open_store h path left ≡ ok s)
          × IsAnswered call (advance_all c done nothing) (perform h c call s left).0
    history_refines path sessions call disk {f} opened missing =
        let v = advance_all c (history path sessions disk).0 nothing in
        let end =
          history-Holds path sessions disk nothing (missing-Holds path disk opened missing) in
        let (s, opens, agrees) = end.loads in
        let shown : view s.memory ≡ v =
          Agrees-view s.memory.inner end.memory.inner agrees ∙ end.shows in
        (
          s,
          opens,
          answer-IsAnswered call v _ λ r e.
              subst (λ w. IsAnswer c call w (ok r)) shown
                (subst (IsAnswer c call (view s.memory))
                  (perform_answer h c call s (history path sessions disk).1 r e)
                  (perform-IsAnswer c call s.memory
                    (Agrees-IsWellFormed s.memory.inner end.memory.inner agrees end.valid))),
        )
