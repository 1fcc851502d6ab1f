-- ===== src/Store/Memory/Reusable.antt =====
-- The reusable keys of crates/control-core/src/store/memory.rs over a run of calls.
use oxiscale.Prelude.{
  ℕ, ◌+◌, ◌==◌, ◌≡◌, refl, ◌∙◌, true, if◌then◌else◌, some, List, [], ◌∷◌, arith, inl, inr, ==_iff,
  Bool-cases, All,
}
use oxiscale.Store.Types.{PreAuthKeyId, PreAuthKey}
use oxiscale.Store.Chrono.{Chrono}
use oxiscale.Store.Calls.{Call, upsert_preauth_key, consume_preauth_key}
use oxiscale.Store.Memory.{MemoryStore, preauth_key_expired}
use oxiscale.Store.Memory.Trace.{perform, run, wins}
use oxiscale.Store.Memory.Consume.{key_of, Leaves, win_count}
use oxiscale.Store.Memory.Expiry.{untouched, own_consume}

module _ (c : Chrono) where
  open c use {DateTime}

  -- How many calls try to consume the key while it has not expired.
  abbrev pub attempt : PreAuthKeyId → PreAuthKey → Call DateTime → ℕ
  attempt id key (consume_preauth_key now j) =
      if j == id then (if preauth_key_expired c now key then 0 else 1) else 0
  attempt id key _ = 0

  abbrev pub attempts : PreAuthKeyId → PreAuthKey → List (Call DateTime) → ℕ
  attempts id key [] = 0
  attempts id key (call ∷ rest) = attempt id key call + attempts id key rest

  step_reusable :
      (id : PreAuthKeyId) (call : Call DateTime) (s : MemoryStore) {key : PreAuthKey}
      → Leaves c id call
      → key_of id s ≡ some key
      → key.reusable ≡ true
      → (key_of id (perform c call s).1 ≡ some key) × (win_count c id call s ≡ attempt id key call)
  step_reusable id (consume_preauth_key now j) s {key} l e reusable = elim (Bool-cases (j == id)) [
    | inl same ↦ rw ((==_iff j id).0 same) (
      (own_consume c id now s e).0 ∙ ground (arith, reusable),
      (own_consume c id now s e).1 ∙ ground (arith, reusable),
    )
    | inr differs ↦
        let kept = untouched c id (consume_preauth_key now j) s differs in
        (kept.0 ∙ e, kept.1 ∙ ground (arith, differs))
  ]
  step_reusable id (upsert_preauth_key k) s l e reusable =
      let kept = untouched c id (upsert_preauth_key k) s l in (kept.0 ∙ e, kept.1)
  step_reusable id call s l e reusable = let kept = untouched c id call s l in (kept.0 ∙ e, kept.1)

  -- In a run that stores no key under its id anew, a reusable key is consumed by every attempt made
  -- while it has not expired, and by no other call, and the stored key stays as it was.
  pub wins-reusable :
      (id : PreAuthKeyId) (calls : List (Call DateTime)) (s : MemoryStore) (key : PreAuthKey)
      → All (Leaves c id) calls
      → key_of id s ≡ some key
      → key.reusable ≡ true
      → (wins c id calls s ≡ attempts id key calls) × (key_of id (run c calls s) ≡ some key)
  unfolding wins run
  wins-reusable id [] s key l e reusable = (refl, e)
  wins-reusable id (call ∷ rest) s key (l, ls) e reusable =
      let (e', count) = step_reusable id call s l e reusable in
      let (later, kept) = wins-reusable id rest (perform c call s).1 key ls e' reusable in
      (omega (arith, count, later), kept)
