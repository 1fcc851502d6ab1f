-- ===== src/Noise/Responder/Wire/Tests.antt =====
-- The JSON of crates/tailcfg/src/key_exchange.rs for keys whose digits are all the same, and the theorem
-- of `Noise.Responder.Wire` at a concrete frame.
use oxiscale.Prelude.{ℕ, zero, suc, ◌≡◌, refl, List, [], ◌∷◌, ◌++◌, ok}
use oxiscale.Noise.Tailcfg.{EarlyNoise, over_tls_response}
use oxiscale.Noise.Tailcfg.Json.{over_tls_json, early_noise_json}
use oxiscale.Noise.Text.{codes}
use oxiscale.Noise.Ts.{Ts}
use oxiscale.Noise.Responder.{
  write_early_noise, send_json, ◌>>◌, and_then, send, flush_socket, sending, early_noise_frame,
}
use oxiscale.Noise.Responder.Tests.{small_ts, open_socket, open_IsSocket}
use oxiscale.Noise.Responder.Wire.{write_early_noise_wire}

abbrev digits : ℕ → ℕ → List ℕ
digits zero d = []
digits (suc n) d = d ∷ digits n d

abbrev challenge_text : ℕ → List ℕ
challenge_text d = codes "chalpub:" ++ digits 64 d

-- Two digits are enough to see the shape.
over_tls_shape :
    over_tls_json (λ d. codes "mkey:" ++ digits 2 d) (over_tls_response b'0' b'1')
    ≡ codes "{\"LegacyPublicKey\":\"mkey:00\",\"PublicKey\":\"mkey:11\"}"
unfolding over_tls_json over_tls_response
over_tls_shape = refl

abbrev json_ts : Ts
json_ts = record small_ts { to_vec = λ frame. ok (early_noise_json challenge_text frame) }

abbrev frame : EarlyNoise ℕ
frame = record { node_key_challenge = b'2' }

abbrev after : List ℕ
after = (write_early_noise json_ts open_socket frame (7 ∷ [])).1

written : write_early_noise json_ts open_socket frame (7 ∷ []) ≡ (ok tt, after)
unfolding write_early_noise send_json ◌>>◌ and_then send flush_socket sending early_noise_frame
    early_noise_json
written = refl

write_early_noise_wire_example :
    after
    ≡ (7 ∷ [])
      ++ (0xff
          ∷ 0xff
          ∷ 0xff
          ∷ b'T'
          ∷ b'S'
          ∷ 0
          ∷ 0
          ∷ 0
          ∷ 95
          ∷ (codes "{\"NodeKeyChallenge\":\"" ++ (challenge_text b'2' ++ codes "\"}")))
unfolding open_IsSocket
write_early_noise_wire_example =
    write_early_noise_wire json_ts open_socket challenge_text open_IsSocket frame (7 ∷ []) after
      refl refl written
