-- ===== src/Noise/Ts.antt =====
-- What crates/noise/src/responder.rs takes from outside: the crates `base64`, `ts_noise`,
-- `ts_control_noise`, `ts_keys`, `x25519_dalek` and `serde_json`, and the socket. The operations are
-- records, and what they are documented to do is stated apart from them.
use oxiscale.Prelude.{ℕ, ◌^◌, ◌<◌, ◌≡◌, List, ◌++◌, Option, Result, ok, length, IsByte, All}
use oxiscale.Store.Types.{IoError}
use oxiscale.Noise.Tailcfg.{EarlyNoise}

pub record Ts : Type 1 where
  pub MachinePrivateKey : Type 0
  pub MachinePublicKey : Type 0
  pub ChallengePublicKey : Type 0
  -- `base64::engine::general_purpose::STANDARD.decode`
  pub DecodeError : Type 0
  pub base64_decode : List ℕ → Result DecodeError (List ℕ)
  -- `SentHandshake::INIT_SIZE` and `ReceivedHandshake::RESP_SIZE`
  pub init_size : ℕ
  pub resp_size : ℕ
  -- `MessageType::Initiation as u8` and `MessageType::Response as u8`
  pub initiation : ℕ
  pub response : ℕ
  -- `ReceivedHandshake::new`, of a payload, a prologue and the server's key
  pub ReceivedHandshake : Type 0
  pub receive : List ℕ → List ℕ → MachinePrivateKey → Option ReceivedHandshake
  pub peer_static_pub : ReceivedHandshake → MachinePublicKey
  -- `finish`, with what it draws at random: the response and the session
  pub Random : Type 0
  pub Session : Type 0
  pub finish : ReceivedHandshake → Random → List ℕ × Session
  -- the public half of `StaticSecret::random()`
  pub challenge : Random → ChallengePublicKey
  -- `serde_json::to_vec`
  pub SerdeError : Type 0
  pub to_vec : EarlyNoise ChallengePublicKey → Result SerdeError (List ℕ)

-- Decoding yields bytes, the sizes fit the two bytes of a header, and a response fills its array.
pub record IsTs (ts : Ts) : Type 0 where
  pub decoded_bytes : (text raw : List ℕ) → ts.base64_decode text ≡ ok raw → All IsByte raw
  pub init_fits : ts.init_size < 2 ^ 16
  pub resp_fits : ts.resp_size < 2 ^ 16
  pub resp_length :
      (r : ts.ReceivedHandshake) (x : ts.Random) → length (ts.finish r x).0 ≡ ts.resp_size

-- `AsyncWrite`: `write_all` and `flush`.
pub record Socket : Type 1 where
  pub State : Type 0
  pub write_all : List ℕ → State → Result IoError (Unit {0}) × State
  pub flush : State → Result IoError (Unit {0}) × State

-- A socket that reports what was sent on it: what `write_all` was given where it succeeds, and
-- nothing for a `flush`.
pub record IsSocket (socket : Socket) : Type 0 where
  pub sent : socket.State → List ℕ
  pub write_all_sends :
      (bytes : List ℕ) (s s' : socket.State)
      → socket.write_all bytes s ≡ (ok tt, s')
      → sent s' ≡ sent s ++ bytes
  pub flush_sends : (s s' : socket.State) → socket.flush s ≡ (ok tt, s') → sent s' ≡ sent s
