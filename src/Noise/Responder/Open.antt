-- ===== src/Noise/Responder/Open.antt =====
-- The writes of crates/noise/src/responder.rs on a socket that never fails.
use oxiscale.Prelude.{ℕ, ◌≡◌, refl, List, Result, ok, err}
use oxiscale.Store.Types.{IoError}
use oxiscale.Noise.Tailcfg.{EarlyNoise}
use oxiscale.Noise.Ts.{Ts, Socket}
use oxiscale.Noise.Error.{NoiseError}
use oxiscale.Noise.Responder.{
  early_noise_frame, write_early_noise, send_json, send_response, response_header, Sending, send,
  flush_socket, sending, and_then,
}

module _ (ts : Ts) (socket : Socket) where
  open ts use {MachinePrivateKey, Random}
  open socket use {State, write_all, flush}

  -- A socket that never fails.
  pub record IsOpen : Type 0 where
    pub writes : (bytes : List ℕ) (s : State) → (write_all bytes s).0 ≡ ok tt
    pub flushes : (s : State) → (flush s).0 ≡ ok tt

  sending_open :
      (q : Result IoError (Unit {0}) × State) → q.0 ≡ ok tt → (sending ts socket q).0 ≡ ok tt
  unfolding sending
  sending_open (ok u, s) e = refl
  sending_open (err x, s) e = cc

  then_open :
      (n : Sending ts socket) (q : Result (NoiseError ts) (Unit {0}) × State)
      → q.0 ≡ ok tt
      → ((s : State) → (n s).0 ≡ ok tt)
      → (and_then ts socket q n).0 ≡ ok tt
  unfolding and_then
  then_open n (ok u, s) e k = k s
  then_open n (err x, s) e k = cc

  pub send_response_open :
      IsOpen → (resp : List ℕ) (s : State) → (send_response ts socket resp s).0 ≡ ok tt
  unfolding send_response
  send_response_open open_socket resp s =
      then_open _ (send ts socket (response_header ts socket) s)
        (sending_open _ (open_socket.writes _ s))
        λ s1.
          then_open (flush_socket ts socket) (send ts socket resp s1)
            (sending_open _ (open_socket.writes resp s1))
            λ s2. sending_open (flush s2) (open_socket.flushes s2)

  json_open :
      IsOpen
      → (r : Result ts.SerdeError (List ℕ)) (json : List ℕ) (s : State) → r ≡ ok json
      → (send_json ts socket r s).0 ≡ ok tt
  unfolding send_json
  json_open open_socket (ok bytes) json s e =
      then_open (flush_socket ts socket) (send ts socket (early_noise_frame ts socket bytes) s)
        (sending_open _ (open_socket.writes _ s))
        λ s1. sending_open (flush s1) (open_socket.flushes s1)
  json_open open_socket (err x) json s e = cc

  -- On a socket that does not fail, a frame that serializes is written.
  pub write_early_noise_open :
      (frame : EarlyNoise ts.ChallengePublicKey) (json : List ℕ) (s : State)
      → IsOpen
      → ts.to_vec frame ≡ ok json
      → (write_early_noise ts socket frame s).0 ≡ ok tt
  unfolding write_early_noise
  write_early_noise_open frame json s open_socket e =
      json_open open_socket (ts.to_vec frame) json s e
