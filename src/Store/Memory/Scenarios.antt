-- ===== src/Store/Memory/Scenarios.antt =====
-- The tests of crates/control-core/src/store/memory.rs as runs of the store: on any calendar, at any
-- readings of the clock. A failed `unwrap` and a failed `assert!` are `false`.
use Prim.Native.String.{slice, ◌++◌ as join}
use oxiscale.Prelude.{
  ℕ, zero, suc, ◌+◌, ◌-◌, ◌/◌, ◌%◌, ◌≡◌, refl, ltb, if◌then◌else◌, String, Bool, true, false, not,
  ◌&&◌, Option, none, some, List, [], ◌∷◌, ◌++◌, Result, ok, err, length,
}
use oxiscale.Store.Types.{PreAuthKeyId, PreAuthKey, StoreError}
use oxiscale.Store.Chrono.{Chrono}
use oxiscale.Store.Memory
use oxiscale.Store.Memory.{
  MemoryStore, preauth_key_expired, expired_at, consume_found, consume_preauth_key,
  upsert_preauth_key, list_preauth_keys,
}
use oxiscale.Store.Table.{find, write_first, upsert, filter}

abbrev hex_digits : ℕ → ℕ → List ℕ → List ℕ
hex_digits zero n acc = acc
hex_digits (suc fuel) n acc =
    let rest = hex_digits fuel (n / 16) ((n % 16) ∷ acc) in if ltb n 16 then n ∷ acc else rest

abbrev zeros : ℕ → List ℕ
zeros zero = []
zeros (suc n) = 0 ∷ zeros n

abbrev hex_text : List ℕ → String
hex_text [] = ""
hex_text (d ∷ digits) = join (slice "0123456789abcdef" d (d + 1)) (hex_text digits)

-- `format!("{id:012x}")` of a `u64`, which has 16 digits at most.
abbrev pub hex12 : ℕ → String
hex12 id = let digits = hex_digits 16 id [] in hex_text (zeros (12 - length digits) ++ digits)

abbrev pub key : PreAuthKeyId → Bool → Option String → PreAuthKey
key id reusable expires_at = record {
  id = id;
  network_id = 1;
  prefix = hex12 id;
  secret_hash = "hash";
  reusable = reusable;
  ephemeral = false;
  used = false;
  expires_at = expires_at;
  tags = [];
}

abbrev holds : Result StoreError Bool → Bool
holds (ok b) = b
holds (err e) = false

abbrev refuses : Result StoreError Bool → Bool
refuses (ok b) = not b
refuses (err e) = false

abbrev first_unused : Result StoreError (List PreAuthKey) → Bool
first_unused (ok (k ∷ rest)) = not k.used
first_unused _ = false

module _ (c : Chrono) where
  open c use {DateTime, le, parse_from_rfc3339}

  abbrev stored : PreAuthKey → MemoryStore
  stored k = (upsert_preauth_key k Memory.new).1

  unfoldable single_use_key_consumes_exactly_once : DateTime → DateTime → Bool
  single_use_key_consumes_exactly_once now later =
      let (first, s1) = consume_preauth_key c now 1 (stored (key 1 false none)) in
      let (second, s2) = consume_preauth_key c later 1 s1 in holds first && refuses second

  unfoldable reusable_key_consumes_repeatedly : DateTime → DateTime → Bool
  reusable_key_consumes_repeatedly now later =
      let (first, s1) = consume_preauth_key c now 2 (stored (key 2 true none)) in
      let (second, s2) = consume_preauth_key c later 2 s1 in
      holds first && (holds second && first_unused (list_preauth_keys 1 s2))

  unfoldable expired_key_is_rejected : DateTime → Bool
  expired_key_is_rejected now =
      refuses (consume_preauth_key c now 3 (stored (key 3 false (some "2000-01-01T00:00:00Z")))).0

  unfoldable unexpired_key_is_accepted : DateTime → Bool
  unexpired_key_is_accepted now =
      holds (consume_preauth_key c now 4 (stored (key 4 false (some "2999-01-01T00:00:00Z")))).0

  unfoldable unknown_key_returns_false : DateTime → Bool
  unknown_key_returns_false now = refuses (consume_preauth_key c now 99 Memory.new).0

  single_use_passes : (now later : DateTime) → single_use_key_consumes_exactly_once now later ≡ true
  unfolding single_use_key_consumes_exactly_once consume_preauth_key upsert_preauth_key find upsert
      write_first Memory.new preauth_key_expired
  single_use_passes now later = refl

  reusable_passes : (now later : DateTime) → reusable_key_consumes_repeatedly now later ≡ true
  unfolding reusable_key_consumes_repeatedly consume_preauth_key upsert_preauth_key find upsert
      Memory.new preauth_key_expired list_preauth_keys filter
  reusable_passes now later = refl

  unknown_passes : (now : DateTime) → unknown_key_returns_false now ≡ true
  unfolding unknown_key_returns_false consume_preauth_key find Memory.new
  unknown_passes now = refl

  -- A key is rejected after the instant that its timestamp names.
  expired_passes :
      (now expiry : DateTime)
      → parse_from_rfc3339 "2000-01-01T00:00:00Z" ≡ some expiry
      → le expiry now ≡ true
      → expired_key_is_rejected now ≡ true
  unfolding expired_key_is_rejected consume_preauth_key upsert_preauth_key find upsert Memory.new
      preauth_key_expired
  expired_passes now expiry parsed late = rw (parsed, late)

  -- A key is accepted before the instant that its timestamp names.
  unexpired_passes :
      (now expiry : DateTime)
      → parse_from_rfc3339 "2999-01-01T00:00:00Z" ≡ some expiry
      → le expiry now ≡ false
      → unexpired_key_is_accepted now ≡ true
  unfolding unexpired_key_is_accepted consume_preauth_key upsert_preauth_key find upsert Memory.new
      preauth_key_expired
  unexpired_passes now expiry parsed early = rw (parsed, early)

hex12_one : hex12 1 ≡ "000000000001"
hex12_one = refl
