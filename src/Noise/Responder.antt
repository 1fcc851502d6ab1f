-- ===== src/Noise/Responder.antt =====
-- crates/noise/src/responder.rs: accepting a handshake on a hijacked socket, and the EarlyNoise
-- frame. A panic is `none`; the state of the socket comes back beside every result.
pub mod Sent
pub mod Accept
pub mod Open
pub mod Session
pub mod EarlyFrame
pub mod Wire
pub mod Tests
use oxiscale.Prelude.{
  ℕ, ◌+◌, ◌%◌, ◌^◌, Option, none, some, List, [], ◌∷◌, ◌++◌, Result, ok, err, length, be16, be32,
}
use oxiscale.Store.Types.{IoError}
use oxiscale.Noise.Tailcfg.{EarlyNoise, early_noise_magic}
use oxiscale.Noise.Ts.{Ts, Socket}
use oxiscale.Noise.Text.{trim, prologue}
use oxiscale.Noise.Error.{NoiseError, base64, handshake_failed, serde, io}
use oxiscale.Noise.Initiation.{parse_initiation}
use oxiscale.Noise.FramedIo
use oxiscale.Noise.FramedIo.{FramedIo}

module _ (ts : Ts) (socket : Socket) where
  open ts use {
    MachinePrivateKey, MachinePublicKey, ChallengePublicKey, Random, Session, resp_size, response,
    ReceivedHandshake,
  }
  open socket use {State, write_all, flush}

  -- `Framed::new(socket, BiCodec::from(session))`: the socket with the session that codes it.
  abbrev pub Framed : Type 0
  Framed = State × Session

  pub record Accepted : Type 0 where
    pub stream : FramedIo Framed (List ℕ)
    pub capability_version : ℕ
    pub peer_machine_key : MachinePublicKey
    pub node_key_challenge : ChallengePublicKey

  abbrev pub Sending : Type 0
  Sending = State → Result (NoiseError ts) (Unit {0}) × State

  unfoldable pub sending :
      Result IoError (Unit {0}) × State → Result (NoiseError ts) (Unit {0}) × State
  sending (ok _, s) = (ok tt, s)
  sending (err e, s) = (err (io e), s)

  unfoldable pub and_then :
      Result (NoiseError ts) (Unit {0}) × State
      → Sending
      → Result (NoiseError ts) (Unit {0}) × State
  and_then (ok _, s) next = next s
  and_then (err e, s) next = (err e, s)

  infixl 5 ◌>>◌
  unfoldable pub ◌>>◌ : Sending → Sending → Sending
  unfolding and_then
  ◌>>◌ m next s = and_then (m s) next

  -- `socket.write_all(bytes).await?`
  unfoldable pub send : List ℕ → Sending
  unfolding sending
  send bytes s = sending (write_all bytes s)

  unfoldable pub flush_socket : Sending
  unfolding sending
  flush_socket s = sending (flush s)

  -- The header of a controlbase response.
  abbrev pub response_header : List ℕ
  response_header = response ∷ be16 (resp_size % 2 ^ 16)

  unfoldable pub send_response : List ℕ → Sending
  unfolding ◌>>◌ send flush_socket
  send_response resp = do send response_header; send resp; flush_socket

  pub accepted :
      ℕ
      → ReceivedHandshake
      → Session
      → Random
      → Result (NoiseError ts) (Unit {0}) × State
      → Option (Result (NoiseError ts) Accepted) × State
  accepted version received session secret (err e, s) = (some (err e), s)
  accepted version received session secret (ok _, s) = (
    some (
        ok (record {
          stream = FramedIo.new (s, session);
          capability_version = version;
          peer_machine_key = ts.peer_static_pub received;
          node_key_challenge = ts.challenge secret;
        })),
    s,
  )

  pub respond :
      ℕ
      → Random
      → Random
      → Option ReceivedHandshake
      → State
      → Option (Result (NoiseError ts) Accepted) × State
  unfolding accepted
  respond version ephemeral secret none s = (some (err handshake_failed), s)
  respond version ephemeral secret (some received) s =
      let (resp, session) = ts.finish received ephemeral in
      accepted version received session secret (send_response resp s)

  pub accept_parsed :
      Random
      → Random
      → MachinePrivateKey
      → Option (Result (NoiseError ts) (ℕ × List ℕ))
      → State
      → Option (Result (NoiseError ts) Accepted) × State
  unfolding respond
  accept_parsed ephemeral secret server_private none s = (none, s)
  accept_parsed ephemeral secret server_private (some (err e)) s = (some (err e), s)
  accept_parsed ephemeral secret server_private (some (ok (version, payload))) s =
      respond version ephemeral secret (ts.receive payload (prologue version) server_private) s

  pub accept_decoded :
      Random
      → Random
      → MachinePrivateKey
      → Result ts.DecodeError (List ℕ)
      → State
      → Option (Result (NoiseError ts) Accepted) × State
  unfolding accept_parsed
  accept_decoded ephemeral secret server_private (err e) s = (some (err (base64 e)), s)
  accept_decoded ephemeral secret server_private (ok raw) s =
      accept_parsed ephemeral secret server_private (parse_initiation ts raw) s

  -- `accept`, with what the handshake and the challenge key draw at random as arguments.
  unfoldable pub accept :
      Random
      → Random
      → MachinePrivateKey
      → List ℕ
      → State
      → Option (Result (NoiseError ts) Accepted) × State
  unfolding accept_decoded
  accept ephemeral secret server_private initiation_b64 s =
      accept_decoded ephemeral secret server_private (ts.base64_decode (trim initiation_b64)) s

  -- The bytes of an EarlyNoise frame: the magic, the length `as u32` and the JSON.
  unfoldable pub early_noise_frame : List ℕ → List ℕ
  early_noise_frame json = early_noise_magic ++ (be32 (length json % 2 ^ 32) ++ json)

  unfoldable pub send_json : Result ts.SerdeError (List ℕ) → Sending
  unfolding ◌>>◌ send flush_socket
  send_json (err e) s = (err (serde e), s)
  send_json (ok json) s = (do send (early_noise_frame json); flush_socket) s

  unfoldable pub write_early_noise : EarlyNoise ChallengePublicKey → Sending
  unfolding send_json
  write_early_noise frame = send_json (ts.to_vec frame)
