-- ===== src/Noise/Responder/EarlyFrame.antt =====
-- The EarlyNoise frame of crates/noise/src/responder.rs, as the server writes it and a client reads
-- it.
use oxiscale.Prelude.{
  ℕ, ◌-◌, ◌/◌, ◌%◌, ◌^◌, ◌≤◌, ◌<◌, ◌≡◌, ◌⊎◌, inl, inr, false, be32, refl, ap, ◌∙◌, Bool, ◌==◌, ◌&&◌,
  leb, if◌then◌else◌, Option, none, some, List, ◌∷◌, ◌++◌, Result, ok, err, length, take, drop,
  from_be32, from_be32-be32, arith, take-length_append, drop-length_append, length-append,
}
use oxiscale.Noise.Tailcfg.{EarlyNoise}
use oxiscale.Noise.Ts.{Ts, Socket, IsSocket}
use oxiscale.Noise.Responder.{early_noise_frame, write_early_noise, send_json}
use oxiscale.Noise.Responder.Sent.{Sends-frame}

-- A client's reader of the decrypted stream: five bytes that must be the magic, four bytes of
-- length, and that many of JSON. It yields the JSON and what follows the frame.
abbrev pub read_body : ℕ → List ℕ → Option (List ℕ × List ℕ)
read_body n bytes = if leb n (length bytes) then some (take n bytes, drop n bytes) else none

abbrev pub is_magic : ℕ → ℕ → ℕ → ℕ → ℕ → Bool
is_magic a b c d e = (a == 0xff) && (b == 0xff) && (c == 0xff) && (d == b'T') && (e == b'S')

abbrev pub read_frame : List ℕ → Option (List ℕ × List ℕ)
read_frame (a ∷ b ∷ c ∷ d ∷ e ∷ w ∷ x ∷ y ∷ z ∷ rest) =
    if is_magic a b c d e then read_body (from_be32 w x y z) rest else none
read_frame _ = none

-- The frame header of HTTP/2: 24 bits of length, a type, flags and a stream.
abbrev pub http2_header : ℕ → ℕ → ℕ → ℕ → List ℕ
http2_header length kind flags stream =
    (length / 65536 % 256) ∷ (length / 256 % 256) ∷ (length % 256) ∷ kind ∷ flags ∷ be32 stream

other_magic :
    (length kind flags : ℕ)
    → length < 2 ^ 24
    → (length < 2 ^ 24 - 1) ⊎ (kind ≤ 9)
    → is_magic (length / 65536 % 256) (length / 256 % 256) (length % 256) kind flags ≡ false
other_magic length kind flags fits (inl shorter) = ground (arith, shorter, fits)
other_magic length kind flags fits (inr known) = ground (arith, known)

-- A client that looks for the magic never takes for it a frame of HTTP/2 that is shorter than the
-- longest, or of one of the ten types that HTTP/2 defines: the settings that open a connection are one.
pub read_frame-http2 :
    (length kind flags stream : ℕ) (rest : List ℕ)
    → length < 2 ^ 24
    → (length < 2 ^ 24 - 1) ⊎ (kind ≤ 9)
    → read_frame (http2_header length kind flags stream ++ rest) ≡ none
read_frame-http2 length kind flags stream rest fits other =
    rw (other_magic length kind flags fits other) refl

-- A body that fills its length is read back, with what follows it.
pub read_body-append :
    (n : ℕ) (json rest : List ℕ) → n ≡ length json → read_body n (json ++ rest) ≡ some (json, rest)
read_body-append n json rest e =
    rw (e, take-length_append json rest, drop-length_append json rest)
      (ground (arith, length-append json rest))

module _ (ts : Ts) (socket : Socket) where
  open ts use {ChallengePublicKey}
  open socket use {State}

  -- A client reads the JSON back from a frame, and finds what follows it, if the JSON is shorter than
  -- 4 GiB.
  pub read_frame-early_noise_frame :
      (json rest : List ℕ)
      → length json < 2 ^ 32
      → read_frame (early_noise_frame ts socket json ++ rest) ≡ some (json, rest)
  unfolding early_noise_frame
  read_frame-early_noise_frame json rest fits =
      let whole : length json % 2 ^ 32 ≡ length json = omega arith in
      read_body-append _ json rest (from_be32-be32 (length json % 2 ^ 32) (omega arith) ∙ whole)

  module _ (laws : IsSocket socket) where
    open laws use {sent}

    pub json_sent :
        (r : Result ts.SerdeError (List ℕ)) (s s' : State)
        → send_json ts socket r s ≡ (ok tt, s')
        → (json : List ℕ) × (r ≡ ok json) × (sent s' ≡ sent s ++ early_noise_frame ts socket json)
    unfolding send_json
    json_sent (err e) s s' h = cc (ap (λ p. p.0) h)
    json_sent (ok json) s s' h =
        (json, refl, (Sends-frame ts socket laws (early_noise_frame ts socket json)).at s s' h)

    -- Where writing an EarlyNoise frame succeeds, the socket was sent one frame that holds the JSON of
    -- what was written, and a client that reads the bytes sent, with any bytes after them, gets that
    -- JSON and those bytes, if the JSON is shorter than 4 GiB.
    pub write_early_noise_read :
        (frame : EarlyNoise ChallengePublicKey) (s s' : State)
        → write_early_noise ts socket frame s ≡ (ok tt, s')
        → (json : List ℕ) × (ts.to_vec frame ≡ ok json)
          × (bytes : List ℕ) × (sent s' ≡ sent s ++ bytes)
          × (length json < 2 ^ 32
              → (rest : List ℕ) → read_frame (bytes ++ rest) ≡ some (json, rest))
    unfolding write_early_noise
    write_early_noise_read frame s s' h =
        let (json, coded, wrote) = json_sent (ts.to_vec frame) s s' h in
        (
          json,
          coded,
          early_noise_frame ts socket json,
          wrote,
          λ fits rest. read_frame-early_noise_frame json rest fits,
        )
