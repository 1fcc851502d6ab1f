-- ===== src/Store/Contract/SingleUse.antt =====
-- Single-use keys on any backend that keeps the contract.
use oxiscale.Prelude.{
  ℕ, ◌+◌, ◌≤◌, ◌==◌, ==_iff, ◌≡◌, refl, ◌∙◌, true, false, if◌then◌else◌, some, List, [], ◌∷◌, ok,
  err, All, arith, Bool-cases, inl, inr,
}
use oxiscale.Store.Types.{PreAuthKey, PreAuthKeyId}
use oxiscale.Store.Chrono.{Chrono}
use oxiscale.Store.Calls.{Call, Answer, Reply, upsert_preauth_key, consume_preauth_key}
use oxiscale.Store.Spec.{View, advance, IsAnswer, is_valid}
use oxiscale.Store.Memory.Trace.{is_win}
use oxiscale.Store.Memory.Consume.{Leaves}
use oxiscale.Store.Contract.{Backend, IsStore}

module _ (c : Chrono) where
  open c use {DateTime}

  -- The view holds a single-use key under the id, with `n` uses left.
  abbrev IsSingleUse : PreAuthKeyId → ℕ → View → Type 0
  IsSingleUse id n v =
      (key : PreAuthKey) × (v.preauth_keys id ≡ some key)
      × (key.reusable ≡ false)
      × (n ≡ (if key.used then 0 else 1))

  abbrev win : PreAuthKeyId → Call DateTime → Answer → ℕ
  win id call a = if is_win c id call a then 1 else 0

  -- A call that says that it consumed the key was for that key, and found it valid.
  win_other :
      (id j : PreAuthKeyId) (now : DateTime) (a : Answer)
      → (j == id) ≡ false
      → win id (consume_preauth_key now j) a ≡ 0
  win_other id j now (ok (Reply.consumed true)) differs = rw differs
  win_other id j now (ok (Reply.consumed false)) differs = refl
  win_other id j now (ok Reply.unit) differs = refl
  win_other id j now (ok _) differs = refl
  win_other id j now (err x) differs = refl

  win_invalid :
      (id j : PreAuthKeyId) (now : DateTime) (a : Answer)
      → ((r : Reply) → a ≡ ok r → ◌≡◌ {A = Answer} (ok r) (ok (Reply.consumed false)))
      → win id (consume_preauth_key now j) a ≡ 0
  win_invalid id j now (ok (Reply.consumed true)) invalid = cc (invalid (Reply.consumed true) refl)
  win_invalid id j now (ok (Reply.consumed false)) invalid = refl
  win_invalid id j now (ok Reply.unit) invalid = refl
  win_invalid id j now (ok _) invalid = refl
  win_invalid id j now (err x) invalid = refl

  win-le : (id : PreAuthKeyId) (call : Call DateTime) (a : Answer) → win id call a ≤ 1
  win-le id call a = ground arith

  consume_step :
      (id j : PreAuthKeyId) (now : DateTime) (v : View) (a : Answer) {n : ℕ}
      → ((r : Reply) → a ≡ ok r → IsAnswer c (consume_preauth_key now j) v (ok r))
      → IsSingleUse id n v
      → (m : ℕ) × IsSingleUse id m (advance c (consume_preauth_key now j) v)
        × (win id (consume_preauth_key now j) a + m ≤ n)
  consume_step id j now v a {n} lawful (key, e, single, left) = elim (Bool-cases (j == id)) [
    | inr differs ↦
        (n, (key, rw differs e, single, left), omega (arith, win_other id j now a differs))
    | inl same ↦
        let found : v.preauth_keys j ≡ some key = rw ((==_iff j id).0 same) e in
        elim (Bool-cases (is_valid c now key)) [
          | inl valid ↦
              let fresh : n ≡ 1 = ground (arith, valid, left, single) in
              (
                0,
                (record key { used = true }, rw (same, found, valid, single), single, refl),
                omega (arith, win-le id (consume_preauth_key now j) a, fresh),
              )
          | inr invalid ↦ (
            n,
            (key, rw (same, found, invalid), single, left),
            omega (arith, win_invalid id j now a (λ r f. lawful r f ∙ rw (found, invalid))),
          )
        ]
  ]

  step :
      (id : PreAuthKeyId) (call : Call DateTime) (v : View) (a : Answer) {n : ℕ}
      → Leaves c id call
      → ((r : Reply) → a ≡ ok r → IsAnswer c call v (ok r))
      → IsSingleUse id n v
      → (m : ℕ) × IsSingleUse id m (advance c call v) × (win id call a + m ≤ n)
  step id (upsert_preauth_key k) v a {n} leaves lawful (key, e, single, left) =
      (n, (key, ground (arith, e), single, left), omega arith)
  step id (consume_preauth_key now j) v a {n} leaves lawful h = consume_step id j now v a lawful h
  step id _ v a {n} leaves lawful h = (n, h, omega arith)

module _ {c : Chrono} (b : Backend c) (store : IsStore b) where
  open b use {State, perform}
  open store use {IsValid, view}

  -- How many calls of a run were told that they had consumed the key.
  unfoldable pub wins_of : PreAuthKeyId → List (Call c.DateTime) → State → ℕ
  wins_of id [] s = 0
  wins_of id (call ∷ rest) s =
      let (a, s') = perform call s in (if is_win c id call a then 1 else 0) + wins_of id rest s'

  wins_of_SingleUse :
      (id : PreAuthKeyId) (calls : List (Call c.DateTime)) (s : State) {n : ℕ}
      → All (Leaves c id) calls
      → IsValid s
      → IsSingleUse c id n (view s)
      → wins_of id calls s ≤ n
  unfolding wins_of
  wins_of_SingleUse id [] s leaves valid h = omega arith
  wins_of_SingleUse id (call ∷ rest) s (l, ls) valid h =
      let (m, h', bound) =
        step c id call (view s) (perform call s).0 l (λ r e. store.answers call s r valid e) h in
      omega (
        arith,
        wins_of_SingleUse id rest (perform call s).1 {n = m} ls (store.stays_valid call s valid)
            (rw (store.takes call s valid) h'),
        bound,
      )

  -- On any backend that keeps the contract, whatever calls fail: a single-use key is consumed at most
  -- once in a run that stores no key under its id anew, and not at all if it is used.
  pub wins_of-single_use :
      (id : PreAuthKeyId) (calls : List (Call c.DateTime)) (s : State) (key : PreAuthKey)
      → All (Leaves c id) calls
      → IsValid s
      → (view s).preauth_keys id ≡ some key
      → key.reusable ≡ false
      → wins_of id calls s ≤ (if key.used then 0 else 1)
  wins_of-single_use id calls s key leaves valid e single =
      wins_of_SingleUse id calls s leaves valid (key, e, single, refl)
