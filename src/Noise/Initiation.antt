-- ===== src/Noise/Initiation.antt =====
-- The initiation message of crates/noise/src/responder.rs, as `accept` takes it apart. An index or a
-- slice out of range is `none`, the panic that it is in the source.
pub mod Format
use oxiscale.Prelude.{
  ℕ, ◌+◌, ◌-◌, ◌==◌, ltb, leb, not, if◌then◌else◌, Option, none, some, List, Result, ok, err,
  length, get_elem?, take, drop, from_be16,
}
use oxiscale.Noise.Tailcfg.{min_supported_capability_version}
use oxiscale.Noise.Ts.{Ts}
use oxiscale.Noise.Error.{NoiseError, bad_initiation, unsupported_version}

infixl 5 ◌>>=◌
abbrev pub ◌>>=◌ {ℓ κ} : {A : Type ℓ} {B : Type κ} → Option A → (A → Option B) → Option B
none >>= f = none
some a >>= f = f a

abbrev pub controlbase_header_len : ℕ
controlbase_header_len = 3

abbrev pub capver_prefix_len : ℕ
capver_prefix_len = 2

-- `xs[lo..hi]`
abbrev pub slice {ℓ} : {A : Type ℓ} → List A → ℕ → ℕ → Option (List A)
slice xs lo hi =
    if leb lo hi
    then (if leb hi (length xs) then some (take (hi - lo) (drop lo xs)) else none)
    else none

module _ (ts : Ts) where
  open ts use {init_size, resp_size, initiation, response}

  -- The checks of `accept` on the decoded bytes: the capability version and the payload.
  unfoldable pub parse_initiation : List ℕ → Option (Result (NoiseError ts) (ℕ × List ℕ))
  parse_initiation raw =
      if ltb (length raw) (capver_prefix_len + controlbase_header_len + init_size)
      then some (err (bad_initiation "initiation too short"))
      else do
        high ← get_elem? raw 0
        low ← get_elem? raw 1
        let capability_version = from_be16 high low
        let min = min_supported_capability_version
        if ltb capability_version min
            then some (err (unsupported_version capability_version min))
            else do
              kind ← get_elem? raw 2
              if not (kind == initiation)
                  then some (err (bad_initiation "not an initiation message"))
                  else do
                    len_high ← get_elem? raw 3
                    len_low ← get_elem? raw 4
                    if not (from_be16 len_high len_low == init_size)
                        then some (err (bad_initiation "unexpected initiation payload length"))
                        else do
                          let payload_start = capver_prefix_len + controlbase_header_len
                          payload ← slice raw payload_start (payload_start + init_size)
                          some (ok (capability_version, payload))
