-- ===== src/Noise/Error.antt =====
-- crates/noise/src/error.rs: how accepting a handshake fails.
use oxiscale.Prelude.{ℕ, String}
use oxiscale.Store.Types.{IoError}
use oxiscale.Noise.Ts.{Ts}

pub data NoiseError (ts : Ts) : Type 0 where
  base64 : ts.DecodeError → NoiseError ts
  bad_initiation : String → NoiseError ts
  handshake_failed : NoiseError ts
  unsupported_version : ℕ → ℕ → NoiseError ts
  serde : ts.SerdeError → NoiseError ts
  io : IoError → NoiseError ts
