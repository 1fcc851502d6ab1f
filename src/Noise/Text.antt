-- ===== src/Noise/Text.antt =====
-- What crates/noise/src/responder.rs does with text, as code points: `str::trim` of the handshake
-- header, and the prologue with the capability version in decimal.
use oxiscale.Prelude.{
  ℕ, zero, suc, ◌+◌, ◌-◌, ◌*◌, ◌/◌, ◌%◌, ◌<◌, ◌==◌, leb, ltb, ◌≡◌, refl, sym, ap, ◌∙◌, Bool, true,
  ◌||◌, ◌&&◌, if◌then◌else◌, List, [], ◌∷◌, ◌++◌, arith, append-nil, length, drop,
  drop-length_append, All, Bool-cases, inl, inr, String,
}
use Prim.Native.Char.{code}

-- The code points of a text.
abbrev pub codes : String → List ℕ
codes String.[] = []
codes (String.◌∷◌ c s) = code c ∷ codes s

-- The code points with the Unicode property White_Space.
unfoldable pub is_whitespace : ℕ → Bool
is_whitespace c =
    (leb 0x09 c && leb c 0x0d)
    || (c == 0x20)
    || (c == 0x85)
    || (c == 0xa0)
    || (c == 0x1680)
    || (leb 0x2000 c && leb c 0x200a)
    || (c == 0x2028)
    || (c == 0x2029)
    || (c == 0x202f)
    || (c == 0x205f)
    || (c == 0x3000)

unfoldable pub trim_start : List ℕ → List ℕ
trim_start [] = []
trim_start (c ∷ text) = if is_whitespace c then trim_start text else c ∷ text

unfoldable pub trim_end : List ℕ → List ℕ
trim_end [] = []
trim_end (c ∷ text) = elim (trim_end text) [
  | [] ↦ if is_whitespace c then [] else c ∷ []
  | d ∷ rest ↦ c ∷ d ∷ rest
]

-- `str::trim`
unfoldable pub trim : List ℕ → List ℕ
unfolding trim_start trim_end
trim text = trim_end (trim_start text)

-- The decimal digits of a number in front of `acc`; `suc n` rounds are enough for `n`.
decimal_loop : ℕ → ℕ → List ℕ → List ℕ
decimal_loop zero n acc = acc
decimal_loop (suc fuel) n acc =
    let rest = decimal_loop fuel (n / 10) ((b'0' + n % 10) ∷ acc) in
    if ltb n 10 then (b'0' + n) ∷ acc else rest

-- `{}` of an unsigned integer.
unfoldable pub decimal : ℕ → List ℕ
unfolding decimal_loop
decimal n = decimal_loop (suc n) n []

-- What a reader makes of decimal digits.
abbrev pub read_decimal : ℕ → List ℕ → ℕ
read_decimal value [] = value
read_decimal value (c ∷ text) = read_decimal (value * 10 + (c - b'0')) text

read_decimal_loop :
    (fuel n : ℕ) (acc : List ℕ)
    → n < fuel
    → read_decimal 0 (decimal_loop fuel n acc) ≡ read_decimal n acc
unfolding decimal_loop
read_decimal_loop zero n acc h = absurd (omega arith)
read_decimal_loop (suc fuel) n acc h = elim (Bool-cases (ltb n 10)) [
  | inl small ↦ rw small (ap (λ v. read_decimal v acc) (omega arith))
  | inr large ↦ rw large (
      read_decimal_loop fuel (n / 10) ((b'0' + n % 10) ∷ acc) (ground (arith, large))
      ∙ ap (λ v. read_decimal v acc) (omega arith))
]

-- Reading what `decimal` prints gives the number back.
pub read_decimal-decimal : (n : ℕ) → read_decimal 0 (decimal n) ≡ n
unfolding decimal
read_decimal-decimal n = read_decimal_loop (suc n) n [] (omega arith)

-- The text `Tailscale Control Protocol v` in bytes.
abbrev pub protocol_name : List ℕ
protocol_name = codes "Tailscale Control Protocol v"

-- `format!("Tailscale Control Protocol v{capability_version}").as_bytes()`
unfoldable pub prologue : ℕ → List ℕ
prologue capability_version = protocol_name ++ decimal capability_version

-- The prologue binds the capability version: two versions never have the same one.
pub prologue-injective : (v w : ℕ) → prologue v ≡ prologue w → v ≡ w
unfolding prologue
prologue-injective v w e =
    let same : decimal v ≡ decimal w =
      sym (drop-length_append protocol_name (decimal v))
      ∙ ap (drop (length protocol_name)) e
      ∙ drop-length_append protocol_name (decimal w) in
    sym (read_decimal-decimal v) ∙ ap (read_decimal 0) same ∙ read_decimal-decimal w

abbrev pub IsBlank : List ℕ → Type 0
IsBlank = All (λ c. is_whitespace c ≡ true)

trim_end-blank : (post : List ℕ) → IsBlank post → trim_end post ≡ []
unfolding trim_end
trim_end-blank [] h = refl
trim_end-blank (c ∷ post) (blank, h) = rw (trim_end-blank post h, blank)

trim_end-append : (text post : List ℕ) → IsBlank post → trim_end (text ++ post) ≡ trim_end text
unfolding trim_end
trim_end-append [] post h = trim_end-blank post h
trim_end-append (c ∷ text) post h = rw (trim_end-append text post h)

trim_start-append : (pre text : List ℕ) → IsBlank pre → trim_start (pre ++ text) ≡ trim_start text
unfolding trim_start
trim_start-append [] text h = refl
trim_start-append (c ∷ pre) text (blank, h) = rw blank (trim_start-append pre text h)

trim_append : (text post : List ℕ) → IsBlank post → trim (text ++ post) ≡ trim text
unfolding trim
trim_append [] post h = ap trim_end (rw append-nil at (trim_start-append post [] h))
trim_append (c ∷ text) post h = elim (Bool-cases (is_whitespace c)) [
  | inl blank ↦ rw blank (trim_append text post h)
  | inr other ↦ rw other (trim_end-append (c ∷ text) post h)
]

-- White space around a text does not change what `trim` makes of it.
pub trim_padded :
    (pre text post : List ℕ) → IsBlank pre → IsBlank post → trim (pre ++ (text ++ post)) ≡ trim text
trim_padded pre text post before after =
    unfold trim in
    ap trim_end (trim_start-append pre (text ++ post) before) ∙ trim_append text post after
