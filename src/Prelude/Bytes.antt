-- ===== src/Prelude/Bytes.antt =====
-- Bytes as numbers below 256, and big-endian integers: `to_be_bytes`, `from_be_bytes`.
use Prim.Native.Nat.{ℕ, ◌+◌, ◌*◌, ◌/◌, ◌%◌, ◌^◌, ◌<◌}
use mathlib.Core.Path.{◌≡◌}
use mathlib.Core.List.{List, [], ◌∷◌}
use native.Mathlib.Omega.{arith}

abbrev pub IsByte : ℕ → Type 0
IsByte b = b < 256

-- `u16::to_be_bytes`, of a number that `as u16` has cut off.
abbrev pub be16 : ℕ → List ℕ
be16 n = (n / 256 % 256) ∷ (n % 256) ∷ []

abbrev pub from_be16 : ℕ → ℕ → ℕ
from_be16 a b = a * 256 + b

-- `u32::to_be_bytes`
abbrev pub be32 : ℕ → List ℕ
be32 n = (n / 16777216 % 256) ∷ (n / 65536 % 256) ∷ (n / 256 % 256) ∷ (n % 256) ∷ []

abbrev pub from_be32 : ℕ → ℕ → ℕ → ℕ → ℕ
from_be32 a b c d = ((a * 256 + b) * 256 + c) * 256 + d

pub from_be16-be16 : (n : ℕ) → n < 2 ^ 16 → from_be16 (n / 256 % 256) (n % 256) ≡ n
from_be16-be16 n h = omega arith

pub high_byte : (a b : ℕ) → IsByte a → IsByte b → from_be16 a b / 256 % 256 ≡ a
high_byte a b ha hb = omega arith

pub low_byte : (a b : ℕ) → IsByte b → from_be16 a b % 256 ≡ b
low_byte a b hb = omega arith

pub from_be32-be32 :
    (n : ℕ)
    → n < 2 ^ 32
    → from_be32 (n / 16777216 % 256) (n / 65536 % 256) (n / 256 % 256) (n % 256) ≡ n
from_be32-be32 n h = omega arith
