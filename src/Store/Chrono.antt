-- ===== src/Store/Chrono.antt =====
-- The crate `chrono` as far as crates/control-core/src/store/memory.rs uses it: an instant, the
-- parser of RFC 3339 timestamps, and the order of instants, which is transitive.
use oxiscale.Prelude.{Bool, true, ◌≡◌, String, Option}

pub record Chrono : Type 1 where
  pub DateTime : Type 0
  pub le : DateTime → DateTime → Bool
  pub le_trans : (a b c : DateTime) → le a b ≡ true → le b c ≡ true → le a c ≡ true
  pub parse_from_rfc3339 : String → Option DateTime
