-- ===== src/Noise/Initiation/Format.antt =====
-- Which bytes `accept` of crates/noise/src/responder.rs takes for an initiation.
use oxiscale.Prelude.{
  ℕ, ◌+◌, ◌-◌, ◌/◌, ◌%◌, ◌^◌, ◌≤◌, ◌<◌, ◌==◌, ltb, leb, not, if◌then◌else◌, none, some, List, [],
  ◌∷◌, ◌++◌, ok, err, length, ◌≡◌, ◌≢◌, ◌⊎◌, ◌↔◌, refl, ◌∙◌, take, drop, from_be16, be16, arith,
  All, IsByte, from_be16-be16, high_byte, low_byte, take-append-drop, take-length_append,
  length-append, length-take, Bool-cases, inl, inr,
}
use oxiscale.Noise.Ts.{Ts, IsTs}
use oxiscale.Noise.Error.{bad_initiation, unsupported_version}
use oxiscale.Noise.Initiation.{parse_initiation, slice}

module _ (ts : Ts) where
  open ts use {init_size, initiation}

  -- The initiation of a client: the version, the header of the message and the payload.
  abbrev pub initiation_message : ℕ → List ℕ → List ℕ
  initiation_message version payload = be16 version ++ (initiation ∷ be16 init_size) ++ payload

  too_short :
      (raw : List ℕ)
      → length raw < 5 + init_size
      → parse_initiation ts raw ≡ some (err (bad_initiation "initiation too short"))
  unfolding parse_initiation
  too_short raw h = ground arith

  slice_payload :
      (a b k l m : ℕ) (rest : List ℕ)
      → init_size ≤ length rest
      → slice (a ∷ b ∷ k ∷ l ∷ m ∷ rest) 5 (5 + init_size) ≡ some (take init_size rest)
  slice_payload a b k l m rest h =
      let size : 5 + init_size - 5 ≡ init_size = omega arith in rw size (ground arith)

  -- An initiation that is long enough, by its first five bytes.
  pub parse_long :
      (a b k l m : ℕ) (rest : List ℕ)
      → init_size ≤ length rest
      → parse_initiation ts (a ∷ b ∷ k ∷ l ∷ m ∷ rest) ≡ (
          if ltb (from_be16 a b) 113
          then some (err (unsupported_version (from_be16 a b) 113))
          else if not (k == initiation)
          then some (err (bad_initiation "not an initiation message"))
          else if not (from_be16 l m == init_size)
          then some (err (bad_initiation "unexpected initiation payload length"))
          else some (ok (from_be16 a b, take init_size rest)))
  unfolding parse_initiation
  parse_long a b k l m rest h = ground (arith, slice_payload a b k l m rest h)

  -- Bytes that are too few, or the first five and the rest.
  abbrev LongOrShort : List ℕ → Type 0
  LongOrShort raw =
      (length raw < 5 + init_size)
      ⊎ ((a : ℕ) × (b : ℕ) × (k : ℕ) × (l : ℕ) × (m : ℕ) × (rest : List ℕ) × (raw
            ≡ a ∷ b ∷ k ∷ l ∷ m ∷ rest)
          × (init_size ≤ length rest))

  long_or_short : (raw : List ℕ) → LongOrShort raw
  long_or_short [] = inl (omega arith)
  long_or_short (a ∷ []) = inl (omega arith)
  long_or_short (a ∷ b ∷ []) = inl (omega arith)
  long_or_short (a ∷ b ∷ k ∷ []) = inl (omega arith)
  long_or_short (a ∷ b ∷ k ∷ l ∷ []) = inl (omega arith)
  long_or_short (a ∷ b ∷ k ∷ l ∷ m ∷ rest) = elim (Bool-cases (leb init_size (length rest))) [
    | inl long ↦ inr (a, b, k, l, m, rest, refl, ground (arith, long))
    | inr short ↦ inl (ground (arith, short))
  ]

  -- No bytes make the parser index or slice out of range.
  pub parse_initiation-ne-none : (raw : List ℕ) → parse_initiation ts raw ≢ none
  parse_initiation-ne-none raw = elim (long_or_short raw) [
    | inl short ↦ rw (too_short raw short) (λ e. cc)
    | inr (a, b, k, l, m, rest, e, long) ↦ rw (e, parse_long a b k l m rest long) (ground arith)
  ]

  -- What the parser accepts is an initiation, with whatever follows it.
  abbrev pub IsInitiation : List ℕ → ℕ → List ℕ → Type 0
  IsInitiation raw version payload =
      (113 ≤ version)
      × (version < 2 ^ 16)
      × (length payload ≡ init_size)
      × (rest : List ℕ) × (raw ≡ initiation_message version payload ++ rest)

  parsed_long :
      (a b k l m v : ℕ) (payload rest : List ℕ)
      → init_size ≤ length rest
      → parse_initiation ts (a ∷ b ∷ k ∷ l ∷ m ∷ rest) ≡ some (ok (v, payload))
      → (113 ≤ v)
        × (v ≡ from_be16 a b)
        × (k ≡ initiation)
        × (from_be16 l m ≡ init_size)
        × (payload ≡ take init_size rest)
  parsed_long a b k l m v payload rest long e =
      ground (arith, rw (parse_long a b k l m rest long) at e)

  parse_sound :
      (raw payload : List ℕ) (v : ℕ)
      → All IsByte raw
      → parse_initiation ts raw ≡ some (ok (v, payload))
      → IsInitiation raw v payload
  parse_sound raw payload v bytes e = elim (long_or_short raw) [
    | inl short ↦ cc (rw (too_short raw short) at e)
    | inr (a, b, k, l, m, rest, shape, long) ↦
        let in_range : All IsByte (a ∷ b ∷ k ∷ l ∷ m ∷ rest) = rw shape at bytes in
        let (least, version, kind, size, body) =
          parsed_long a b k l m v payload rest long (rw shape at e) in
        let whole : payload ++ drop init_size rest ≡ rest =
          rw body (take-append-drop init_size rest) in
        (
          least,
          omega (arith, version, in_range.0, in_range.1.0),
          rw body (omega (arith, length-take init_size rest)),
          drop init_size rest,
          cc (
            shape,
            whole,
            version,
            kind,
            size,
            high_byte a b in_range.0 in_range.1.0,
            low_byte a b in_range.1.0,
            high_byte l m in_range.1.1.1.0 in_range.1.1.1.1.0,
            low_byte l m in_range.1.1.1.1.0,
          ),
        )
  ]

  pub parse_complete :
      (payload rest : List ℕ) (v : ℕ)
      → IsTs ts
      → 113 ≤ v
      → v < 2 ^ 16
      → length payload ≡ init_size
      → parse_initiation ts (initiation_message v payload ++ rest) ≡ some (ok (v, payload))
  parse_complete payload rest v laws least fits size =
      parse_long (v / 256 % 256) (v % 256) initiation (init_size / 256 % 256) (init_size % 256)
        (payload ++ rest) (omega (arith, length-append payload rest, size))
      ∙ rw (from_be16-be16 v fits, from_be16-be16 init_size laws.init_fits)
          (let front : take init_size (payload ++ rest) ≡ payload =
              rw size at (take-length_append payload rest) in
            ground (arith, front))

  -- The parser accepts exactly the messages that begin with an initiation of a supported version, and
  -- finds the version and the payload that it was made of.
  pub parse_initiation_iff :
      (raw payload : List ℕ) (v : ℕ)
      → IsTs ts
      → All IsByte raw
      → (parse_initiation ts raw ≡ some (ok (v, payload))) ↔ IsInitiation raw v payload
  parse_initiation_iff raw payload v laws bytes = (
    parse_sound raw payload v bytes,
    λ found.
        let (least, fits, size, rest, shape) = found in
        rw shape (parse_complete payload rest v laws least fits size),
  )
