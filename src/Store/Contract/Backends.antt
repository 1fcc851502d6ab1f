-- ===== src/Store/Contract/Backends.antt =====
-- The two backends of crates/control-core/src/store as instances of the contract.
use oxiscale.Prelude.{◌≡◌, sym, ap, subst, ◌∙◌, List, ok, inl, inr}
use oxiscale.Store.Chrono.{Chrono}
use oxiscale.Store.Calls.{Call, Reply}
use oxiscale.Store.Spec.{advance_all, IsAnswer}
use oxiscale.Store.Host.{Host}
use oxiscale.Store.Memory.{MemoryStore}
use oxiscale.Store.Memory.Trace
use oxiscale.Store.Memory.Unique.{IsWellFormed, perform-IsWellFormed}
use oxiscale.Store.Memory.Refines.{view, view-perform, perform-IsAnswer}
use oxiscale.Store.File.{FileStore}
use oxiscale.Store.File.Trace.{perform, OnDisk}
use oxiscale.Store.File.Durable.{perform-Ends}
use oxiscale.Store.Contract.{Backend, IsStore, run_all, run_all-IsValid, view-run_all}

abbrev pub memory_backend : (c : Chrono) → Backend c
memory_backend c = record { State = MemoryStore; perform = Trace.perform c }

-- The file store, together with the disk.
abbrev pub file_backend : Host → (c : Chrono) → Backend c
file_backend h c = record {
  State = OnDisk h;
  perform = λ call s. let (a, s', disk') = perform h c call s.0 s.1 in (a, (s', disk'));
}

unfoldable pub memory_backend-IsStore : (c : Chrono) → IsStore (memory_backend c)
memory_backend-IsStore c = record {
  IsValid = λ s. IsWellFormed s.inner;
  view = view;
  stays_valid = perform-IsWellFormed c;
  takes = λ call s valid. view-perform c call s;
  answers =
      λ call s r valid e. subst (IsAnswer c call (view s)) e (perform-IsAnswer c call s valid);
}

module _ (h : Host) (c : Chrono) where
  -- Whatever the disk does, a call leaves in memory what the memory store leaves.
  pub perform_memory :
      (call : Call c.DateTime) (s : FileStore) (disk : h.Disk)
      → (perform h c call s disk).1.memory ≡ (Trace.perform c call s.memory).1
  perform_memory call s disk = elim (perform-Ends h c call s disk) [
    | inl (e, same) ↦ ap (λ q. q.1.memory) e ∙ sym (ap (λ (x : FileStore). x.memory) same)
    | inr (inl (disk', flushed, e)) ↦ ap (λ q. q.1.memory) e
    | inr (inr (x, disk', failed, e)) ↦ ap (λ q. q.1.memory) e
  ]

  -- A call that does not fail is answered as by the memory store.
  pub perform_answer :
      (call : Call c.DateTime) (s : FileStore) (disk : h.Disk) (r : Reply)
      → (perform h c call s disk).0 ≡ ok r
      → (Trace.perform c call s.memory).0 ≡ ok r
  perform_answer call s disk r f = elim (perform-Ends h c call s disk) [
    | inl (e, same) ↦ sym (ap (λ q. q.0) e) ∙ f
    | inr (inl (disk', flushed, e)) ↦ sym (ap (λ q. q.0) e) ∙ f
    | inr (inr (x, disk', failed, e)) ↦ cc (ap (λ q. q.0) e, f)
  ]

  unfoldable pub file_backend-IsStore : IsStore (file_backend h c)
  file_backend-IsStore = record {
    IsValid = λ s. IsWellFormed s.0.memory.inner;
    view = λ s. view s.0.memory;
    stays_valid = λ call s valid.
        subst (λ (m : MemoryStore). IsWellFormed m.inner) (sym (perform_memory call s.0 s.1))
          (perform-IsWellFormed c call s.0.memory valid);
    takes = λ call s valid. ap view (perform_memory call s.0 s.1) ∙ view-perform c call s.0.memory;
    answers = λ call s r valid e.
        subst (IsAnswer c call (view s.0.memory)) (perform_answer call s.0 s.1 r e)
          (perform-IsAnswer c call s.0.memory valid);
  }

  -- On any disk, whatever fails: in every run of a file store, whatever it holds, in whose tables no
  -- two rows have one id, a call that succeeds is answered as by the maps that are in its memory at
  -- first, with what the calls before it have written, those that failed among them.
  pub file_refines :
      (calls : List (Call c.DateTime)) (call : Call c.DateTime) (s : FileStore) (disk : h.Disk)
      (r : Reply)
      → IsWellFormed s.memory.inner
      → ((file_backend h c).perform call (run_all (file_backend h c) calls (s, disk))).0 ≡ ok r
      → IsAnswer c call (advance_all c calls (view s.memory)) (ok r)
  unfolding file_backend-IsStore
  file_refines calls call s disk r well e =
      let b = file_backend h c in
      let start : (file_backend h c).State = (s, disk) in
      let valid = run_all-IsValid b file_backend-IsStore calls start well in
      rw (view-run_all b file_backend-IsStore calls start well) at
        (file_backend-IsStore.answers call (run_all b calls start) r valid e)
