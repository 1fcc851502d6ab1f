-- ===== src/Noise/Tailcfg.antt =====
-- crates/tailcfg: the constants of the protocol, and the types that the server emits, over the key
-- types of the crate `ts_keys`.
pub mod Json
use oxiscale.Prelude.{ℕ, String, List, [], ◌∷◌}

-- capver.rs
abbrev pub min_supported_capability_version : ℕ
min_supported_capability_version = 113

-- protocol.rs
abbrev pub path_key : String
path_key = "/key"

abbrev pub path_ts2021 : String
path_ts2021 = "/ts2021"

abbrev pub path_machine_register : String
path_machine_register = "/machine/register"

abbrev pub path_machine_map : String
path_machine_map = "/machine/map"

abbrev pub upgrade_ts2021 : String
upgrade_ts2021 = "tailscale-control-protocol"

abbrev pub early_noise_magic : List ℕ
early_noise_magic = 0xff ∷ 0xff ∷ 0xff ∷ b'T' ∷ b'S' ∷ []

-- in seconds
abbrev pub keepalive_interval : ℕ
keepalive_interval = 50

-- key_exchange.rs
pub record OverTlsPublicKeyResponse (MachinePublicKey : Type 0) : Type 0 where
  pub legacy_public_key : MachinePublicKey
  pub public_key : MachinePublicKey

-- `OverTLSPublicKeyResponse::new`, with `MachinePublicKey::default()` as the first argument.
unfoldable pub over_tls_response :
    {MachinePublicKey : Type 0}
    → MachinePublicKey
    → MachinePublicKey
    → OverTlsPublicKeyResponse MachinePublicKey
over_tls_response zero_key public_key = record {
  legacy_public_key = zero_key;
  public_key = public_key;
}

pub record EarlyNoise (ChallengePublicKey : Type 0) : Type 0 where
  pub node_key_challenge : ChallengePublicKey
