-- ===== src/Store/File/Durable.antt =====
-- The calls of crates/control-core/src/store/file.rs beside those of the memory store.
use oxiscale.Prelude.{◌≡◌, refl, ap, ok, err, inl, inr, ◌⊎◌, Result-cases}
use oxiscale.Store.Types.{StoreError, PreAuthKeyId}
use oxiscale.Store.Chrono.{Chrono}
use oxiscale.Store.Calls.{
  Call, answer, Reply, upsert_network, upsert_user, upsert_node, delete_node, upsert_preauth_key,
  consume_preauth_key, set_policy,
}
use oxiscale.Store.Host.{Host}
use oxiscale.Store.Memory
use oxiscale.Store.Memory.{MemoryStore}
use oxiscale.Store.Memory.Trace
use oxiscale.Store.Memory.Consume.{consume_cases}
use oxiscale.Store.File.{FileStore, flush}
use oxiscale.Store.File.Methods
use oxiscale.Store.File.Methods.{mutate, flushed, flush_if_consumed, answered}
use oxiscale.Store.File.Trace.{perform}

module _ (h : Host) (c : Chrono) where
  open h use {Disk}
  open c use {DateTime}

  -- The store after a call.
  abbrev pub next : Call DateTime → FileStore → FileStore
  next call s = record s { memory = (Trace.perform c call s.memory).1 }

  -- How a call ends: without a flush, with one that succeeds, or with one that fails.
  abbrev pub Ends : Call DateTime → FileStore → Disk → Type 0
  Ends call s disk =
      ((perform h c call s disk ≡ ((Trace.perform c call s.memory).0, s, disk)) × (next call s ≡ s))
      ⊎ ((disk' : Disk) × (flush h (next call s) disk ≡ (ok tt, disk'))
          × (perform h c call s disk ≡ ((Trace.perform c call s.memory).0, next call s, disk')))
      ⊎ ((e : StoreError) × (disk' : Disk) × (flush h (next call s) disk ≡ (err e, disk'))
          × (perform h c call s disk ≡ (err e, next call s, disk')))

  write_Ends :
      (call : Call DateTime) (s : FileStore) (disk : Disk)
      → perform h c call s disk ≡ (
        answer (λ _. Reply.unit) (flush h (next call s) disk).0,
        next call s,
        (flush h (next call s) disk).1,
      )
      → (Trace.perform c call s.memory).0 ≡ ok Reply.unit
      → Ends call s disk
  write_Ends call s disk e f = elim (Result-cases (flush h (next call s) disk).0) [
    | inl (u, good) ↦ inr (
        inl (
          (flush h (next call s) disk).1,
          ap (λ r. (r, (flush h (next call s) disk).1)) good,
          rw (f, e, good),
        ))
    | inr (x, bad) ↦ inr (
        inr (
          x,
          (flush h (next call s) disk).1,
          ap (λ r. (r, (flush h (next call s) disk).1)) bad,
          rw (e, bad),
        ))
  ]

  consume_Ends :
      (now : DateTime) (id : PreAuthKeyId) (s : FileStore) (disk : Disk)
      → Ends (consume_preauth_key now id) s disk
  unfolding perform Trace.perform Methods.consume_preauth_key
  consume_Ends now id s disk = elim (consume_cases c now id s.memory) [
    | inl refused ↦
        inl (rw (refused, Methods.consume_preauth_key, flush_if_consumed, refused), rw refused)
    | inr accepted ↦
        let s' = next (consume_preauth_key now id) s in
        elim (Result-cases (flush h s' disk).0) [
          | inl (u, good) ↦
              let done : flush h s' disk ≡ (ok tt, (flush h s' disk).1) =
                ap (λ r. (r, (flush h s' disk).1)) good in
              inr (
                inl (
                  (flush h s' disk).1,
                  done,
                  rw (accepted, Methods.consume_preauth_key, flush_if_consumed, done, answered),
                ))
          | inr (x, bad) ↦
              let failed : flush h s' disk ≡ (err x, (flush h s' disk).1) =
                ap (λ r. (r, (flush h s' disk).1)) bad in
              inr (
                inr (
                  x,
                  (flush h s' disk).1,
                  failed,
                  rw (accepted, Methods.consume_preauth_key, flush_if_consumed, failed, answered),
                ))
        ]
  ]

  -- Each call of the file store leaves in memory what the memory store makes of the call, and ends in
  -- one of three ways: it answers as the memory store, which the call has not changed, and leaves the
  -- disk alone; or the new document is flushed, and it answers as the memory store; or the flush
  -- fails, and it answers with the error of the flush.
  pub perform-Ends : (call : Call DateTime) (s : FileStore) (disk : Disk) → Ends call s disk
  unfolding perform Trace.perform Methods.upsert_network Methods.upsert_user Methods.upsert_node
      Methods.delete_node Methods.upsert_preauth_key Methods.set_policy Memory.upsert_network
      Memory.upsert_user Memory.upsert_node Memory.delete_node Memory.upsert_preauth_key
      Memory.set_policy Methods.list_networks Methods.list_users Methods.list_nodes Methods.get_node
      Methods.list_preauth_keys Methods.get_policy
  perform-Ends (upsert_network net) s disk = write_Ends (upsert_network net) s disk refl refl
  perform-Ends (upsert_user user) s disk = write_Ends (upsert_user user) s disk refl refl
  perform-Ends (upsert_node node) s disk = write_Ends (upsert_node node) s disk refl refl
  perform-Ends (delete_node id) s disk = write_Ends (delete_node id) s disk refl refl
  perform-Ends (upsert_preauth_key key) s disk =
      write_Ends (upsert_preauth_key key) s disk refl refl
  perform-Ends (set_policy network policy) s disk =
      write_Ends (set_policy network policy) s disk refl refl
  perform-Ends (consume_preauth_key now id) s disk = consume_Ends now id s disk
  perform-Ends _ s disk = inl (refl, refl)
