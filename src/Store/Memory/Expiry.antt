-- ===== src/Store/Memory/Expiry.antt =====
-- The expiry of the keys of crates/control-core/src/store/memory.rs, and attempts before it.
use oxiscale.Prelude.{
  String, ◌≤◌, ◌==◌, ◌≡◌, refl, ap, ◌∙◌, true, false, if◌then◌else◌, Option, none, some, List, [],
  ◌∷◌, arith, inl, inr, ◌⊎◌, ==_iff, Bool-cases, All,
}
use oxiscale.Store.Types.{PreAuthKeyId, PreAuthKey}
use oxiscale.Store.Chrono.{Chrono}
use oxiscale.Store.Calls.{Call, upsert_preauth_key, consume_preauth_key}
use oxiscale.Store.Spec.{has_passed, text_passed}
use oxiscale.Store.Memory.{MemoryStore, preauth_key_expired}
use oxiscale.Store.Memory.Trace.{perform, wins}
use oxiscale.Store.Memory.Consume.{
  key_of, accepts, after_consume, consume_answer, key_of-consume, Leaves, win_count,
  wins-single_use,
}
use oxiscale.Store.Memory.Refines.{view-perform, expired_lem}

module _ (c : Chrono) where
  open c use {DateTime, le, le_trans, parse_from_rfc3339}

  -- What has expired stays expired.
  expired_mono :
      (now later : DateTime) (key : PreAuthKey)
      → le now later ≡ true
      → preauth_key_expired c now key ≡ true
      → preauth_key_expired c later key ≡ true
  expired_mono now later key h e =
      expired_lem c later key ∙ passed_text key.expires_at (rw expired_lem at e)
    where
      passed_at : (o : Option DateTime) → has_passed c now o ≡ true → has_passed c later o ≡ true
      passed_at none p = refl
      passed_at (some t) p = le_trans t now later p h

      passed_text : (o : Option String) → text_passed c now o ≡ true → text_passed c later o ≡ true
      passed_text none p = p
      passed_text (some ts) p = passed_at (parse_from_rfc3339 ts) p

  -- A call that neither stores a key under the id nor consumes it leaves the key alone.
  abbrev pub Other : PreAuthKeyId → Call DateTime → Type 0
  Other id (consume_preauth_key now j) = (j == id) ≡ false
  Other id call = Leaves c id call

  loser :
      (id j : PreAuthKeyId) (now : DateTime) (s : MemoryStore)
      → (j == id) ≡ false
      → win_count c id (consume_preauth_key now j) s ≡ 0
  unfolding perform
  loser id j now s h = ground arith

  pub untouched :
      (id : PreAuthKeyId) (call : Call DateTime) (s : MemoryStore)
      → Other id call
      → (key_of id (perform c call s).1 ≡ key_of id s) × (win_count c id call s ≡ 0)
  untouched id (upsert_preauth_key key) s h =
      (ap (λ v. v.preauth_keys id) (view-perform c (upsert_preauth_key key) s) ∙ ground arith, refl)
  untouched id (consume_preauth_key now j) s h = (
    ap (λ v. v.preauth_keys id) (view-perform c (consume_preauth_key now j) s) ∙ ground arith,
    loser id j now s h,
  )
  untouched id call s h = (ap (λ v. v.preauth_keys id) (view-perform c call s), refl)

  pub own_consume :
      (id : PreAuthKeyId) (now : DateTime) (s : MemoryStore) {key : PreAuthKey}
      → key_of id s ≡ some key
      → (key_of id (perform c (consume_preauth_key now id) s).1 ≡ some (after_consume c now key))
        × (win_count c id (consume_preauth_key now id) s ≡ (if accepts c now key then 1 else 0))
  unfolding perform
  own_consume id now s e = (
    key_of-consume c now id id s e ∙ ground arith,
    rw (consume_answer c now id s e) (ground arith),
  )

  -- No consumption is tried before `now`, and no key is stored under the id anew.
  abbrev pub IsLate : PreAuthKeyId → DateTime → Call DateTime → Type 0
  IsLate id now (consume_preauth_key later j) = le now later ≡ true
  IsLate id now call = Leaves c id call

  step_expired :
      (id : PreAuthKeyId) (now : DateTime) (call : Call DateTime) (s : MemoryStore)
      {key : PreAuthKey}
      → IsLate id now call
      → key_of id s ≡ some key
      → preauth_key_expired c now key ≡ true
      → (key_of id (perform c call s).1 ≡ some key) × (win_count c id call s ≡ 0)
  step_expired id now (consume_preauth_key later j) s {key} l e gone = elim (Bool-cases (j == id)) [
    | inl same ↦
        let late : preauth_key_expired c later key ≡ true = expired_mono now later key l gone in
        rw ((==_iff j id).0 same) (
          (own_consume id later s e).0 ∙ ground (arith, late),
          (own_consume id later s e).1 ∙ ground (arith, late),
        )
    | inr differs ↦
        let kept = untouched id (consume_preauth_key later j) s differs in (kept.0 ∙ e, kept.1)
  ]
  step_expired id now (upsert_preauth_key k) s l e gone =
      let kept = untouched id (upsert_preauth_key k) s l in (kept.0 ∙ e, kept.1)
  step_expired id now call s l e gone = let kept = untouched id call s l in (kept.0 ∙ e, kept.1)

  -- In a run from `now` on that stores no key under its id anew, a key that has expired at `now`,
  -- reusable or not, is consumed by no call.
  pub wins-expired :
      (id : PreAuthKeyId) (now : DateTime) (calls : List (Call DateTime)) (s : MemoryStore)
      (key : PreAuthKey)
      → All (IsLate id now) calls
      → key_of id s ≡ some key
      → preauth_key_expired c now key ≡ true
      → wins c id calls s ≡ 0
  unfolding wins
  wins-expired id now [] s key l e gone = refl
  wins-expired id now (call ∷ rest) s key (l, ls) e gone =
      let (e', lost) = step_expired id now call s l e gone in
      omega (arith, wins-expired id now rest (perform c call s).1 key ls e' gone, lost)

  -- A consumption is tried at a time when the key has not expired.
  abbrev pub Tries : PreAuthKeyId → PreAuthKey → Call DateTime → Type 0
  Tries id key (consume_preauth_key now j) = (j ≡ id) × (preauth_key_expired c now key ≡ false)
  Tries id key _ = ⊥

  abbrev pub SomeTries : PreAuthKeyId → PreAuthKey → List (Call DateTime) → Type 0
  SomeTries id key [] = ⊥
  SomeTries id key (call ∷ rest) = Tries id key call ⊎ SomeTries id key rest

  abbrev Missed : PreAuthKeyId → PreAuthKey → Call DateTime → MemoryStore → Type 0
  Missed id key call s = (key_of id (perform c call s).1 ≡ some key) × ¬ Tries id key call

  step_fresh :
      (id : PreAuthKeyId) (call : Call DateTime) (s : MemoryStore) {key : PreAuthKey}
      → Leaves c id call
      → key_of id s ≡ some key
      → key.reusable ≡ false
      → key.used ≡ false
      → (win_count c id call s ≡ 1) ⊎ Missed id key call s
  step_fresh id (consume_preauth_key now j) s {key} l e single unused =
      elim (Bool-cases (j == id)) [
        | inl same ↦ rw ((==_iff j id).0 same) (elim (Bool-cases (preauth_key_expired c now key)) [
          | inl gone ↦
              inr
                ((own_consume id now s e).0 ∙ ground (arith, gone), λ t. ground (arith, t.1, gone))
          | inr valid ↦ inl ((own_consume id now s e).1 ∙ ground (arith, valid))
        ])
        | inr differs ↦ inr (
          (untouched id (consume_preauth_key now j) s differs).0 ∙ e,
          λ t. ground (arith, t.0, differs),
        )
      ]
  step_fresh id (upsert_preauth_key k) s l e single unused =
      inr ((untouched id (upsert_preauth_key k) s l).0 ∙ e, λ t. t)
  step_fresh id call s l e single unused = inr ((untouched id call s l).0 ∙ e, λ t. t)

  some_win :
      (id : PreAuthKeyId) (calls : List (Call DateTime)) (s : MemoryStore) (key : PreAuthKey)
      → All (Leaves c id) calls
      → key_of id s ≡ some key
      → key.reusable ≡ false
      → key.used ≡ false
      → SomeTries id key calls
      → 1 ≤ wins c id calls s
  unfolding wins
  some_win id [] s key l e single unused t = absurd t
  some_win id (call ∷ rest) s key (l, ls) e single unused t =
      elim (step_fresh id call s l e single unused) [
        | inl won ↦ omega (arith, won)
        | inr (e', missed) ↦ elim t [
          | inl now ↦ absurd (missed now)
          | inr later ↦
              omega (arith, some_win id rest (perform c call s).1 key ls e' single unused later)
        ]
      ]

  -- In a run that tries to consume an unused single-use key while it has not expired, and stores no
  -- key under its id anew, exactly one call consumes it.
  pub wins-exactly_once :
      (id : PreAuthKeyId) (calls : List (Call DateTime)) (s : MemoryStore) (key : PreAuthKey)
      → All (Leaves c id) calls
      → key_of id s ≡ some key
      → key.reusable ≡ false
      → key.used ≡ false
      → SomeTries id key calls
      → wins c id calls s ≡ 1
  wins-exactly_once id calls s key l e single unused t =
      let most : wins c id calls s ≤ 1 =
        rw unused at (wins-single_use c id calls s key l e single) in
      omega (arith, most, some_win id calls s key l e single unused t)
