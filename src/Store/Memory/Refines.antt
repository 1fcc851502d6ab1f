-- ===== src/Store/Memory/Refines.antt =====
-- crates/control-core/src/store/memory.rs beside the maps of `Store.Spec`.
use oxiscale.Prelude.{
  ◌≡◌, refl, fun_ext, ap, ◌∙◌, List, [], ◌∷◌, arith, ==_iff, ◌==◌, if◌then◌else◌, inl, inr,
  Option-cases, Option, none, some, true,
}
use oxiscale.Store.Types.{PreAuthKey, Network, User, Node, PreAuthKeyId}
use oxiscale.Store.Document.{get, get-insert}
use oxiscale.Store.Chrono.{Chrono}
use oxiscale.Store.Table.{find, has_key}
use oxiscale.Store.Table.Laws.{keep_if, find-upsert, find-retain, find-filter, filter-IsUnique}
use oxiscale.Store.Calls.{
  Call, upsert_network, upsert_user, upsert_node, delete_node, upsert_preauth_key,
  consume_preauth_key, list_networks, list_users, list_nodes, list_preauth_keys, set_policy,
}
use oxiscale.Store.Spec
use oxiscale.Store.Spec.{View, nothing, Lists, advance, advance_all, IsAnswer}
use oxiscale.Store.Memory
use oxiscale.Store.Memory.{MemoryStore, preauth_key_expired}
use oxiscale.Store.Memory.Trace.{perform, run}
use oxiscale.Store.Memory.Consume.{
  key_of, consume_answer, consume_missing, key_of-consume, accepts, after_consume,
}
use oxiscale.Store.Memory.Unique.{IsWellFormed, new-IsWellFormed, run-IsWellFormed}

abbrev pub view : MemoryStore → View
view s = record {
  networks = λ k. find (has_key (λ n. n.id) k) s.inner.networks;
  users = λ k. find (has_key (λ u. u.id) k) s.inner.users;
  nodes = λ k. find (has_key (λ n. n.id) k) s.inner.nodes;
  preauth_keys = λ k. key_of k s;
  policies = λ k. get k s.inner.policies;
}

pub new-view : view Memory.new ≡ nothing
unfolding Memory.new find get
new-view = refl

keep_all {ℓ} : {A : Type ℓ} (o : Option A) → o ≡ keep_if (λ _. true) o
keep_all none = refl
keep_all (some a) = refl

module _ (c : Chrono) where
  open c use {DateTime}

  pub expired_lem :
      (now : DateTime) (key : PreAuthKey)
      → preauth_key_expired c now key ≡ Spec.is_expired c now key
  unfolding preauth_key_expired
  expired_lem now key = ground arith

  accepts_lem : (now : DateTime) (key : PreAuthKey) → accepts c now key ≡ Spec.is_valid c now key
  unfolding preauth_key_expired
  accepts_lem now key = ground arith

  after_lem :
      (now : DateTime) (key : PreAuthKey)
      → some (after_consume c now key) ≡ Spec.use_up c now (some key)
  unfolding preauth_key_expired
  after_lem now key = ground arith

  key_of-consume_view :
      (now : DateTime) (id k : PreAuthKeyId) (s : MemoryStore)
      → key_of k (Memory.consume_preauth_key c now id s).1
        ≡ Spec.update id (Spec.use_up c now (key_of id s)) (λ j. key_of j s) k
  key_of-consume_view now id k s = elim (Option-cases (key_of id s)) [
    | inl e ↦ rw (consume_missing c now id s e, e) (ground (arith, ==_iff id k, e))
    | inr (key, e) ↦
        key_of-consume c now id k s e
        ∙ rw e
            (ap (λ (o : Option PreAuthKey). if id == k then o else key_of k s) (after_lem now key))
  ]

  -- A consumption writes to the table of keys alone.
  consume_writes_keys :
      (now : DateTime) (id : PreAuthKeyId) (s : MemoryStore)
      → (Memory.consume_preauth_key c now id s).1.inner ≡ record s.inner {
        preauth_keys = (Memory.consume_preauth_key c now id s).1.inner.preauth_keys;
      }
  unfolding Memory.consume_preauth_key
  consume_writes_keys now id s = ground arith

  view-consume :
      (now : DateTime) (id : PreAuthKeyId) (s : MemoryStore)
      → view (Memory.consume_preauth_key c now id s).1
        ≡ advance c (consume_preauth_key now id) (view s)
  view-consume now id s =
      ap (λ d. view (record { inner = d })) (consume_writes_keys now id s)
      ∙ ap (λ f. record (view s) { preauth_keys = f }) (fun_ext λ k. key_of-consume_view now id k s)

  pub view-perform :
      (call : Call DateTime) (s : MemoryStore) → view (perform c call s).1 ≡ advance c call (view s)
  unfolding perform Memory.upsert_network Memory.upsert_user Memory.upsert_node Memory.delete_node
      Memory.upsert_preauth_key Memory.set_policy
  view-perform (upsert_network net) s =
      ap (λ f. record (view s) { networks = f })
        (fun_ext λ k. find-upsert (λ (n : Network). n.id) k net s.inner.networks)
  view-perform (upsert_user user) s =
      ap (λ f. record (view s) { users = f })
        (fun_ext λ k. find-upsert (λ (n : User). n.id) k user s.inner.users)
  view-perform (upsert_node node) s =
      ap (λ f. record (view s) { nodes = f })
        (fun_ext λ k. find-upsert (λ (n : Node). n.id) k node s.inner.nodes)
  view-perform (delete_node id) s =
      ap (λ f. record (view s) { nodes = f })
        (fun_ext λ k. find-retain (λ (n : Node). n.id) k id s.inner.nodes)
  view-perform (upsert_preauth_key key) s =
      ap (λ f. record (view s) { preauth_keys = f })
        (fun_ext λ k. find-upsert (λ (n : PreAuthKey). n.id) k key s.inner.preauth_keys)
  view-perform (consume_preauth_key now id) s = view-consume now id s
  view-perform (set_policy network policy) s =
      ap (λ f. record (view s) { policies = f })
        (fun_ext λ k. get-insert network k policy s.inner.policies)
  view-perform _ s = refl

  view-run :
      (calls : List (Call DateTime)) (s : MemoryStore)
      → view (run c calls s) ≡ advance_all c calls (view s)
  unfolding run
  view-run [] s = refl
  view-run (call ∷ rest) s =
      view-run rest (perform c call s).1 ∙ ap (advance_all c rest) (view-perform call s)

  pub perform-IsAnswer :
      (call : Call DateTime) (s : MemoryStore)
      → IsWellFormed s.inner
      → IsAnswer c call (view s) (perform c call s).0
  unfolding perform Memory.list_networks Memory.list_users Memory.list_nodes
      Memory.list_preauth_keys Memory.get_node Memory.get_policy Memory.upsert_network
      Memory.upsert_user Memory.upsert_node Memory.delete_node Memory.upsert_preauth_key
      Memory.set_policy
  perform-IsAnswer list_networks s w = (s.inner.networks, refl, (w.networks, λ k. keep_all _))
  perform-IsAnswer (list_users network) s w = (
    _,
    refl,
    (
      filter-IsUnique (λ (u : User). u.id) _ _ w.users,
      λ k. find-filter (λ (u : User). u.id) k _ _ w.users,
    ),
  )
  perform-IsAnswer (list_nodes network) s w = (
    _,
    refl,
    (
      filter-IsUnique (λ (u : Node). u.id) _ _ w.nodes,
      λ k. find-filter (λ (u : Node). u.id) k _ _ w.nodes,
    ),
  )
  perform-IsAnswer (list_preauth_keys network) s w = (
    _,
    refl,
    (
      filter-IsUnique (λ (u : PreAuthKey). u.id) _ _ w.preauth_keys,
      λ k. find-filter (λ (u : PreAuthKey). u.id) k _ _ w.preauth_keys,
    ),
  )
  perform-IsAnswer (consume_preauth_key now id) s w = elim (Option-cases (key_of id s)) [
    | inl e ↦ rw (consume_missing c now id s e, e)
    | inr (key, e) ↦ rw (consume_answer c now id s e, e) (rw accepts_lem)
  ]
  perform-IsAnswer _ s w = refl

  -- In every run from a new store, each call is answered as by the maps that the calls before it
  -- have written.
  pub new_refines :
      (calls : List (Call DateTime)) (call : Call DateTime)
      → IsAnswer c call (advance_all c calls nothing) (perform c call (run c calls Memory.new)).0
  new_refines calls call =
      rw (← new-view, ← view-run calls Memory.new)
        (perform-IsAnswer call _ (run-IsWellFormed c calls Memory.new new-IsWellFormed))
