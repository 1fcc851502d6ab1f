-- ===== src/Noise/Client.antt =====
-- A client of the handshake, as the tests of crates/noise/src/responder.rs and
-- crates/control-core/tests/server_smoke.rs drive it against the server. The initiator of the crate
-- `ts_control_noise` is a parameter; a failed `unwrap` or `expect` is `none`.
pub mod Greeted
pub mod Toy
pub mod Tests
use oxiscale.Prelude.{
  ℕ, ◌^◌, ◌<◌, ◌≡◌, Option, none, some, List, ◌++◌, Result, ok, err, length, drop,
}
use oxiscale.Store.Types.{IoError}
use oxiscale.Noise.Tailcfg.{EarlyNoise}
use oxiscale.Noise.Ts.{Ts, Socket, IsSocket}
use oxiscale.Noise.Text.{trim, prologue}
use oxiscale.Noise.Error.{NoiseError}
use oxiscale.Noise.Initiation.{◌>>=◌}
use oxiscale.Noise.Initiation.Format.{initiation_message}
use oxiscale.Noise.FramedIo
use oxiscale.Noise.FramedIo.{FramedIo}
use oxiscale.Noise.Responder.{Framed, Accepted, accept, write_early_noise}
use oxiscale.Noise.Responder.Session.{response_message}
use oxiscale.Noise.Responder.EarlyFrame.{read_frame}

pub record Client (ts : Ts) : Type 1 where
  -- the public half of a key pair
  pub public_key : ts.MachinePrivateKey → ts.MachinePublicKey
  -- `Handshake::initialize`, of a prologue, the client's key, the server's, a version and what it
  -- draws at random: the handshake and the text of the header
  pub Handshake : Type 0
  pub initialize :
      List ℕ → ts.MachinePrivateKey → ts.MachinePublicKey → ℕ → ts.Random → Handshake × List ℕ
  -- `complete`, of what the server has sent: the session, and what is left on the wire
  pub Session : Type 0
  pub complete : Handshake → ts.MachinePrivateKey → List ℕ → Option (Session × List ℕ)
  -- what a session reads from the wire
  pub decrypt : Session → List ℕ → List ℕ
  -- what a new session puts on the wire for the first bytes that are written
  pub encrypt : Session → List ℕ → List ℕ
  -- `serde_json::from_slice`
  pub from_slice : List ℕ → Result ts.SerdeError (EarlyNoise ts.ChallengePublicKey)

module _ (ts : Ts) (client : Client ts) where
  open ts use {MachinePrivateKey, Random}
  open client use {public_key, initialize, complete, from_slice}

  -- What an initiation from a client to a server is: the server opens it and learns the client's key,
  -- and the client completes on the server's response, with a session that pairs with the server's.
  pub record Opens (Pairs : client.Session → ts.Session → Type 0) (v : ℕ)
      (client_key server_key : MachinePrivateKey) (x : Random) : Type 0 where
    pub payload : List ℕ
    pub payload_length : length payload ≡ ts.init_size
    pub decodes :
        ts.base64_decode (trim (initialize (prologue v) client_key (public_key server_key) v x).1)
        ≡ ok (initiation_message ts v payload)
    pub received : ts.ReceivedHandshake
    pub opened : ts.receive payload (prologue v) server_key ≡ some received
    pub peer : ts.peer_static_pub received ≡ public_key client_key
    pub completed :
        (eph : Random) (rest : List ℕ)
        → (session : client.Session) × (complete
              (initialize (prologue v) client_key (public_key server_key) v x).0
              client_key
              (response_message ts (ts.finish received eph).0 ++ rest)
            ≡ some (session, rest))
          × Pairs session (ts.finish received eph).1

  -- The documented behaviour of the initiator and of `serde_json`.
  pub record IsClient : Type 1 where
    pub Pairs : client.Session → ts.Session → Type 0
    pub initiates :
        (v : ℕ) (client_key server_key : MachinePrivateKey) (x : Random)
        → v < 2 ^ 16
        → Opens Pairs v client_key server_key x
    pub parses :
        (frame : EarlyNoise ts.ChallengePublicKey) (json : List ℕ)
        → ts.to_vec frame ≡ ok json
        → from_slice json ≡ ok frame

-- The `AsyncWrite` of the encrypted stream.
pub record Writer (ts : Ts) (socket : Socket) : Type 0 where
  pub write_all :
      List ℕ
      → FramedIo (Framed ts socket) (List ℕ)
      → Result IoError (Unit {0}) × FramedIo (Framed ts socket) (List ℕ)
  pub flush :
      FramedIo (Framed ts socket) (List ℕ)
      → Result IoError (Unit {0}) × FramedIo (Framed ts socket) (List ℕ)

abbrev pub writer_socket : {ts : Ts} {socket : Socket} → Writer ts socket → Socket
writer_socket {ts} {socket} writer = record {
  State = FramedIo (Framed ts socket) (List ℕ);
  write_all = writer.write_all;
  flush = writer.flush;
}

-- What is first written and flushed on a new stream is sent in a form from which a session that pairs
-- with the stream's reads it, whatever follows on the wire.
pub record IsWriter {ts : Ts} {socket : Socket} (writer : Writer ts socket) (client : Client ts)
    (laws : IsSocket socket) (Pairs : client.Session → ts.Session → Type 0) : Type 0 where
  pub delivers :
      (session : ts.Session) (bytes : List ℕ) (s : socket.State)
      (s1 s2 : FramedIo (Framed ts socket) (List ℕ))
      → writer.write_all bytes (FramedIo.new (s, session)) ≡ (ok tt, s1)
      → writer.flush s1 ≡ (ok tt, s2)
      → (wire : List ℕ) × (laws.sent s2.inner.0 ≡ laws.sent s ++ wire)
        × ((own : client.Session) (more : List ℕ)
            → Pairs own session
            → (later : List ℕ) × (client.decrypt own (wire ++ more) ≡ bytes ++ later))

module _ (ts : Ts) (socket : Socket) (client : Client ts) where
  open ts use {MachinePrivateKey, Random}
  open socket use {State}
  open client use {public_key, initialize}

  -- A client initiates for a server's key, and the server accepts what it has sent.
  abbrev pub accept_initiation :
      Random
      → Random
      → Random
      → MachinePrivateKey
      → MachinePrivateKey
      → ℕ
      → State
      → Option (Result (NoiseError ts) (Accepted ts socket)) × State
  accept_initiation x ephemeral secret client_private server_private capver s =
      let (handshake, init_b64) =
        initialize (prologue capver) client_private (public_key server_private) capver x in
      accept ts socket ephemeral secret server_private init_b64 s

module _ (ts : Ts) (socket : Socket) (writer : Writer ts socket) (client : Client ts) where
  open ts use {MachinePrivateKey, ChallengePublicKey, Random}
  open socket use {State}
  open client use {public_key, Handshake, initialize, complete, decrypt, from_slice}

  abbrev pub Stream : Type 0
  Stream = FramedIo (Framed ts socket) (List ℕ)

  pub frame_sent :
      ChallengePublicKey
      → Result (NoiseError ts) (Unit {0}) × Stream
      → Option (ChallengePublicKey × Stream)
  frame_sent challenge (ok _, stream) = some (challenge, stream)
  frame_sent challenge (err e, stream) = none

  pub greet :
      Option (Result (NoiseError ts) (Accepted ts socket)) × State
      → Option (ChallengePublicKey × Stream)
  unfolding frame_sent
  greet (none, s) = none
  greet (some (err e), s) = none
  greet (some (ok accepted), s) =
      let frame : EarlyNoise ChallengePublicKey = record {
        node_key_challenge = accepted.node_key_challenge;
      } in
      frame_sent accepted.node_key_challenge
        (write_early_noise ts (writer_socket writer) frame accepted.stream)

  -- The server's side: it accepts, greets, and returns the challenge key and the stream.
  unfoldable pub server_task :
      Random → Random → MachinePrivateKey → List ℕ → State → Option (ChallengePublicKey × Stream)
  unfolding greet
  server_task ephemeral secret server_private init_b64 s =
      greet (accept ts socket ephemeral secret server_private init_b64 s)

  abbrev pub unwrap : {E A : Type 0} → Result E A → Option A
  unwrap (ok a) = some a
  unwrap (err e) = none

  -- The client's side: it completes the handshake on what it was sent, and reads the frame.
  unfoldable pub client_task :
      Handshake → MachinePrivateKey → List ℕ → Option (EarlyNoise ChallengePublicKey)
  client_task handshake client_private wire =
      complete handshake client_private wire >>= λ (session, rest).
      read_frame (decrypt session rest) >>= λ (json, more). unwrap (from_slice json)

  -- Both: the challenge key of the server, and the frame that the client has read.
  unfoldable pub exchange :
      IsSocket socket
      → Random
      → Random
      → Random
      → MachinePrivateKey
      → MachinePrivateKey
      → ℕ
      → State
      → Option (ChallengePublicKey × EarlyNoise ChallengePublicKey)
  unfolding server_task client_task
  exchange laws x ephemeral secret client_private server_private capver s =
      let (handshake, init_b64) =
        initialize (prologue capver) client_private (public_key server_private) capver x in
      server_task ephemeral secret server_private init_b64 s >>= λ (challenge, stream).
      client_task handshake client_private (drop (length (laws.sent s)) (laws.sent stream.inner.0))
      >>= λ early. some (challenge, early)
