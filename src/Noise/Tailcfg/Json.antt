-- ===== src/Noise/Tailcfg/Json.antt =====
-- crates/tailcfg/src/key_exchange.rs: the JSON of the two types, which its attributes and its tests
-- fix, over the texts of the keys.
use oxiscale.Prelude.{ℕ, List, ◌++◌}
use oxiscale.Noise.Tailcfg.{OverTlsPublicKeyResponse, EarlyNoise}
use oxiscale.Noise.Text.{codes}

module _ {K : Type 0} (display : K → List ℕ) where
  -- Fields in the order of their declaration, by their names in PascalCase.
  unfoldable pub over_tls_json : OverTlsPublicKeyResponse K → List ℕ
  over_tls_json r =
      codes "{\"LegacyPublicKey\":\""
      ++ (display r.legacy_public_key
          ++ (codes "\",\"PublicKey\":\"" ++ (display r.public_key ++ codes "\"}")))

  unfoldable pub early_noise_json : EarlyNoise K → List ℕ
  early_noise_json frame =
      codes "{\"NodeKeyChallenge\":\"" ++ (display frame.node_key_challenge ++ codes "\"}")
