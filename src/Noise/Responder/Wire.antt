-- ===== src/Noise/Responder/Wire.antt =====
-- The bytes of the EarlyNoise frame of crates/noise/src/responder.rs, down to the JSON of
-- crates/tailcfg/src/key_exchange.rs.
mod Tests
use oxiscale.Prelude.{
  ℕ, ◌≡◌, ◌%◌, ◌^◌, refl, sym, ap, ◌∙◌, List, ◌∷◌, ◌++◌, Result, ok, length, length-append, be32,
  arith,
}
use oxiscale.Noise.Tailcfg.{EarlyNoise, early_noise_magic}
use oxiscale.Noise.Tailcfg.Json.{early_noise_json}
use oxiscale.Noise.Text.{codes}
use oxiscale.Noise.Ts.{Ts, Socket, IsSocket}
use oxiscale.Noise.Responder.{early_noise_frame, write_early_noise}
use oxiscale.Noise.Responder.EarlyFrame.{json_sent}

module _ (ts : Ts) (socket : Socket) (display : ts.ChallengePublicKey → List ℕ) where
  abbrev json_length : ℕ
  json_length = 95

  length-early_noise_json :
      (frame : EarlyNoise ts.ChallengePublicKey)
      → length (display frame.node_key_challenge) ≡ 72
      → length (early_noise_json display frame) ≡ json_length
  unfolding early_noise_json
  length-early_noise_json frame long =
      omega (arith, long, length-append (display frame.node_key_challenge) (codes "\"}"))

  early_noise_frame_lem :
      (json : List ℕ)
      → length json ≡ json_length
      → early_noise_frame ts socket json ≡ 0xff ∷ 0xff ∷ 0xff ∷ b'T' ∷ b'S' ∷ 0 ∷ 0 ∷ 0 ∷ 95 ∷ json
  unfolding early_noise_frame
  early_noise_frame_lem json long = rw long

  -- Where the text of a key is eight characters and 64 hexadecimal digits, and a frame is serialized as
  -- the type says, writing the frame sends, where it succeeds, exactly the magic, the length 95 in four
  -- bytes, and the JSON of the key.
  pub write_early_noise_wire :
      (laws : IsSocket socket) (frame : EarlyNoise ts.ChallengePublicKey) (s s' : socket.State)
      → length (display frame.node_key_challenge) ≡ 72
      → ts.to_vec frame ≡ ok (early_noise_json display frame)
      → write_early_noise ts socket frame s ≡ (ok tt, s')
      → laws.sent s'
        ≡ laws.sent s
          ++ (0xff
              ∷ 0xff
              ∷ 0xff
              ∷ b'T'
              ∷ b'S'
              ∷ 0
              ∷ 0
              ∷ 0
              ∷ 95
              ∷ (codes "{\"NodeKeyChallenge\":\""
                  ++ (display frame.node_key_challenge ++ codes "\"}")))
  unfolding write_early_noise early_noise_json
  write_early_noise_wire laws frame s s' long coded wrote =
      let (json, same, sent) = json_sent ts socket laws (ts.to_vec frame) s s' wrote in
      let is_json : json ≡ early_noise_json display frame = cc (same, coded) in
      sent
      ∙ ap (λ z. laws.sent s ++ early_noise_frame ts socket z) is_json
      ∙ ap (λ z. laws.sent s ++ z)
          (early_noise_frame_lem (early_noise_json display frame)
            (length-early_noise_json frame long))
