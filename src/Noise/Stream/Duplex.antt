-- ===== src/Noise/Stream/Duplex.antt =====
-- crates/noise/src/responder.rs: the encrypted stream in both directions, as the test
-- `responder_completes_handshake_and_round_trips_encrypted_data` drives it. A failed `unwrap` or
-- `expect` is `none`.
pub mod RoundTrip
use oxiscale.Prelude.{ℕ, Option, none, some, List, Result, ok, err, length, drop}
use oxiscale.Store.Types.{IoError}
use oxiscale.Noise.Ts.{Ts, Socket, IsSocket}
use oxiscale.Noise.Text.{prologue}
use oxiscale.Noise.Error.{NoiseError}
use oxiscale.Noise.Initiation.{◌>>=◌}
use oxiscale.Noise.FramedIo.{FramedIo}
use oxiscale.Noise.FramedIo.Tokio.{Tokio}
use oxiscale.Noise.Responder.{Framed, Accepted}
use oxiscale.Noise.Responder.EarlyFrame.{read_body}
use oxiscale.Noise.Client.{Client, accept_initiation}
use oxiscale.Noise.Stream.{BytesMut, bytes_mut_buf, BiCodec, codec_transport, Inbox}

module _ (ts : Ts) (socket : Socket) (bytes_mut : BytesMut) (codec : BiCodec ts socket)
    (tokio : Tokio (bytes_mut_buf bytes_mut) (codec_transport bytes_mut codec))
    (inbox : Inbox socket) (client : Client ts) where
  open ts use {MachinePrivateKey, MachinePublicKey, Random}
  open socket use {State}
  open client use {public_key, Handshake, Session, initialize, complete, decrypt, encrypt}

  abbrev pub NoiseStream : Type 0
  NoiseStream = FramedIo (Framed ts socket) (List ℕ)

  abbrev pub unwrap_write : Result IoError (Unit {0}) × NoiseStream → Option NoiseStream
  unwrap_write (ok _, stream) = some stream
  unwrap_write (err e, stream) = none

  abbrev pub unwrap_read : Result IoError (List ℕ) × NoiseStream → Option (List ℕ)
  unwrap_read (ok bytes, stream) = some bytes
  unwrap_read (err e, stream) = none

  abbrev pub expect_accepted :
      Option (Result (NoiseError ts) (Accepted ts socket)) × State → Option (Accepted ts socket)
  expect_accepted (some (ok accepted), s) = some accepted
  expect_accepted (some (err e), s) = none
  expect_accepted (none, s) = none

  -- What each side has learnt: the server of the client, and what each has read.
  pub record Seen : Type 0 where
    pub capability_version : ℕ
    pub peer_machine_key : MachinePublicKey
    pub greeting : List ℕ
    pub reply : List ℕ

  -- The server writes the greeting and flushes it.
  unfoldable pub server_writes : List ℕ → NoiseStream → Option NoiseStream
  server_writes greeting stream =
      unwrap_write (tokio.write_all greeting stream) >>= λ io. unwrap_write (tokio.flush io)

  -- The client completes the handshake and reads so many bytes.
  unfoldable pub client_reads :
      Handshake → MachinePrivateKey → ℕ → List ℕ → Option (Session × List ℕ)
  client_reads handshake client_private n wire =
      complete handshake client_private wire >>= λ (own, rest).
      read_body n (decrypt own rest) >>= λ (greeting, more). some (own, greeting)

  abbrev pub arrive_on : List ℕ → NoiseStream → NoiseStream
  arrive_on wire stream = record {
    inner = (inbox.arrive wire stream.inner.0, stream.inner.1);
    chunk = stream.chunk;
  }

  -- The server reads so many bytes of what has arrived.
  unfoldable pub server_reads : ℕ → NoiseStream → Option (List ℕ)
  server_reads n stream = unwrap_read (tokio.read_exact n stream)

  unfoldable pub round_trip :
      IsSocket socket
      → Random
      → Random
      → Random
      → MachinePrivateKey
      → MachinePrivateKey
      → ℕ
      → List ℕ
      → List ℕ
      → State
      → Option Seen
  unfolding server_writes client_reads server_reads
  round_trip laws x ephemeral secret client_private server_private capver greeting reply s =
      let handshake =
        (initialize (prologue capver) client_private (public_key server_private) capver x).0 in
      expect_accepted (
        accept_initiation ts socket client x ephemeral secret client_private server_private capver
          s)
      >>= λ accepted. server_writes greeting accepted.stream >>= λ stream.
          client_reads handshake client_private (length greeting)
            (drop (length (laws.sent s)) (laws.sent stream.inner.0))
          >>= λ (own, got).
              server_reads (length reply) (arrive_on (encrypt own reply) stream) >>= λ back.
              some (record {
                capability_version = accepted.capability_version;
                peer_machine_key = accepted.peer_machine_key;
                greeting = got;
                reply = back;
              })
