-- ===== src/Store/Memory/Consume.antt =====
-- The single-use keys of crates/control-core/src/store/memory.rs over a run of calls.
use oxiscale.Prelude.{
  ℕ, ◌+◌, ◌≤◌, ◌==◌, ◌≡◌, ◌≢◌, refl, Bool, true, false, if◌then◌else◌, Option, none, some, List, [],
  ◌∷◌, ok, not, arith, inl, inr, ◌⊎◌, Bool-cases, Option-cases, ◌∙◌, All, ==_iff,
}
use oxiscale.Store.Types.{PreAuthKeyId, PreAuthKey}
use oxiscale.Store.Chrono.{Chrono}
use oxiscale.Store.Table.{find, has_key}
use oxiscale.Store.Table.Laws.{find-upsert, key-find, find-write}
use oxiscale.Store.Calls.{Call, upsert_preauth_key, consume_preauth_key}
use oxiscale.Store.Memory
use oxiscale.Store.Memory.{MemoryStore, preauth_key_expired, consume_found}
use oxiscale.Store.Memory.Trace.{perform, wins, is_win}

-- The stored key with an id.
abbrev pub key_of : PreAuthKeyId → MemoryStore → Option PreAuthKey
key_of id s = find (has_key (λ k. k.id) id) s.inner.preauth_keys

module _ (c : Chrono) where
  open c use {DateTime}

  -- Whether the code accepts the key at a time.
  abbrev pub accepts : DateTime → PreAuthKey → Bool
  accepts now key =
      if preauth_key_expired c now key then false else if key.reusable then true else not key.used

  -- What a consumption at a time makes of the stored key.
  abbrev pub after_consume : DateTime → PreAuthKey → PreAuthKey
  after_consume now key =
      if accepts now key then (if key.reusable then key else record key { used = true }) else key

  pub consume_answer :
      (now : DateTime) (id : PreAuthKeyId) (s : MemoryStore) {key : PreAuthKey}
      → key_of id s ≡ some key
      → (Memory.consume_preauth_key c now id s).0 ≡ ok (accepts now key)
  unfolding Memory.consume_preauth_key
  consume_answer now id s {key} h = rw (h, Memory.consume_preauth_key) (ground arith)

  -- The table after a consumption, at every id.
  pub key_of-consume :
      (now : DateTime) (id j : PreAuthKeyId) (s : MemoryStore) {key : PreAuthKey}
      → key_of id s ≡ some key
      → key_of j (Memory.consume_preauth_key c now id s).1
        ≡ (if id == j then some (after_consume now key) else key_of j s)
  unfolding Memory.consume_preauth_key
  key_of-consume now id j s {key} h =
      rw (h, Memory.consume_preauth_key)
        (ground (
          arith,
          h,
          find-write (λ (k : PreAuthKey). k.id) id j (record key { used = true })
              s.inner.preauth_keys (key-find (λ (k : PreAuthKey). k.id) id s.inner.preauth_keys h)
              h,
        ))

  -- How often a single-use key can still be consumed.
  abbrev pub uses_left : PreAuthKey → ℕ
  uses_left key = if key.used then 0 else 1

  -- The call does not store a key under the id anew.
  abbrev pub Leaves : PreAuthKeyId → Call DateTime → Type 0
  Leaves id (upsert_preauth_key key) = key.id ≢ id
  Leaves id _ = Unit

  abbrev pub win_count : PreAuthKeyId → Call DateTime → MemoryStore → ℕ
  win_count id call s = if is_win c id call (perform c call s).0 then 1 else 0

  abbrev pub IsSingleUse : PreAuthKeyId → ℕ → MemoryStore → Type 0
  IsSingleUse id n s =
      (key : PreAuthKey) × (key_of id s ≡ some key) × (key.reusable ≡ false) × (n ≡ uses_left key)

  pub consume_missing :
      (now : DateTime) (id : PreAuthKeyId) (s : MemoryStore)
      → key_of id s ≡ none
      → Memory.consume_preauth_key c now id s ≡ (ok false, s)
  unfolding Memory.consume_preauth_key
  consume_missing now id s h = rw (h, Memory.consume_preauth_key)

  consume_SingleUse :
      (now : DateTime) (id j : PreAuthKeyId) (s : MemoryStore) {n : ℕ}
      → IsSingleUse id n s
      → (m : ℕ) × IsSingleUse id m (perform c (consume_preauth_key now j) s).1
        × (win_count id (consume_preauth_key now j) s + m ≤ n)
  unfolding perform
  consume_SingleUse now id j s {n} (key, e, single, left) = elim (Option-cases (key_of j s)) [
    | inl missing ↦ rw (consume_missing now j s missing) (n, (key, e, single, left), omega arith)
    | inr (other, found) ↦ elim (Bool-cases (j == id)) [
      | inl same ↦
          let j_eq : j ≡ id = (==_iff j id).0 same in
          let is_key : key_of j s ≡ some key = rw j_eq e in
          (
            uses_left (after_consume now key),
            (
              after_consume now key,
              key_of-consume now j id s is_key ∙ ground (arith, same),
              ground arith,
              refl,
            ),
            rw (consume_answer now j s is_key) (ground (arith, same)),
          )
      | inr differs ↦ (
        n,
        (key, key_of-consume now j id s found ∙ ground (arith, differs, e), single, left),
        rw (consume_answer now j s found) (ground (arith, differs)),
      )
    ]
  ]

  pub step_SingleUse :
      (id : PreAuthKeyId) (call : Call DateTime) (s : MemoryStore) {n : ℕ}
      → Leaves id call
      → IsSingleUse id n s
      → (m : ℕ) × IsSingleUse id m (perform c call s).1 × (win_count id call s + m ≤ n)
  unfolding perform Memory.upsert_network Memory.upsert_user Memory.upsert_node Memory.delete_node
      Memory.upsert_preauth_key Memory.set_policy
  step_SingleUse id (upsert_preauth_key key) s {n} l (k, e, single, left) = (
    n,
    (
      k,
      find-upsert (λ (x : PreAuthKey). x.id) id key s.inner.preauth_keys ∙ ground (arith, e),
      single,
      left,
    ),
    omega arith,
  )
  step_SingleUse id (consume_preauth_key now j) s {n} l h = consume_SingleUse now id j s h
  step_SingleUse id _ s {n} l h = (n, h, omega arith)

  wins_SingleUse :
      (id : PreAuthKeyId) (calls : List (Call DateTime)) (s : MemoryStore) {n : ℕ}
      → All (Leaves id) calls
      → IsSingleUse id n s
      → wins c id calls s ≤ n
  unfolding wins
  wins_SingleUse id [] s l h = omega arith
  wins_SingleUse id (call ∷ rest) s (l, ls) h =
      let (m, h', bound) = step_SingleUse id call s l h in
      omega (arith, wins_SingleUse id rest (perform c call s).1 ls h', bound)

  -- A single-use key that the store holds is consumed once at most in any run that does not store
  -- a key under its id anew, and not at all if it is already used.
  pub wins-single_use :
      (id : PreAuthKeyId) (calls : List (Call DateTime)) (s : MemoryStore) (key : PreAuthKey)
      → All (Leaves id) calls
      → key_of id s ≡ some key
      → key.reusable ≡ false
      → wins c id calls s ≤ (if key.used then 0 else 1)
  wins-single_use id calls s key l e single = wins_SingleUse id calls s l (key, e, single, refl)

  -- A consumption says `true`, or says `false` and changes nothing.
  pub consume_cases :
      (now : DateTime) (id : PreAuthKeyId) (s : MemoryStore)
      → (Memory.consume_preauth_key c now id s ≡ (ok false, s))
        ⊎ ((Memory.consume_preauth_key c now id s).0 ≡ ok true)
  unfolding Memory.consume_preauth_key
  consume_cases now id s = elim (Option-cases (key_of id s)) [
    | inl missing ↦ inl (consume_missing now id s missing)
    | inr (key, found) ↦ elim (Bool-cases (accepts now key)) [
      | inl valid ↦ inr (consume_answer now id s found ∙ rw valid)
      | inr invalid ↦ inl (rw (found, Memory.consume_preauth_key) (ground (arith, invalid)))
    ]
  ]
