-- ===== src/Http.antt =====
-- crates/control-core/src/server/mod.rs: the HTTP edge. The router's two handlers are functions of a
-- request; the task that the upgrade spawns is a function of the socket that it is handed.
pub mod Served
pub mod Router
pub mod Smoke
mod Tests
use oxiscale.Prelude.{
  ℕ, String, Bool, true, false, not, if◌then◌else◌, Option, none, some, List, [], ◌∷◌, Result, ok,
  err,
}
use oxiscale.Store.Types.{IoError}
use oxiscale.Noise.Tailcfg.{EarlyNoise, OverTlsPublicKeyResponse, over_tls_response, upgrade_ts2021}
use oxiscale.Noise.Ts.{Ts, Socket}
use oxiscale.Noise.Error.{NoiseError}
use oxiscale.Noise.FramedIo.{FramedIo}
use oxiscale.Noise.Responder.{Framed, Accepted, accept, write_early_noise}

pub record MachineKeyPair (ts : Ts) : Type 0 where
  pub private : ts.MachinePrivateKey
  pub public : ts.MachinePublicKey

pub data ServerError (ts : Ts) : Type 0 where
  io : IoError → ServerError ts
  noise : NoiseError ts → ServerError ts
  http2 : String → ServerError ts

pub record ServerState (ts : Ts) (Store : Type 0) : Type 0 where
  pub server_key : MachineKeyPair ts
  pub store : Store

abbrev pub server_state :
    {ts : Ts} {Store : Type 0} → MachineKeyPair ts → Store → ServerState ts Store
server_state key store = record { server_key = key; store = store }

-- The two headers that the upgrade reads, as bytes.
pub record Request : Type 0 where
  pub upgrade : Option (List ℕ)
  pub handshake : Option (List ℕ)

pub record Response : Type 0 where
  pub status : ℕ
  pub headers : List (String × String)
  pub body : String

abbrev pub is_filled : List ℕ → Bool
is_filled [] = false
is_filled (_ ∷ _) = true

unfoldable pub has_upgrade : Request → Bool
has_upgrade req = elim req.upgrade [ none ↦ false | some v ↦ is_filled v ]

abbrev pub plain : ℕ → String → Response
plain status body = record { status = status; headers = []; body = body }

abbrev pub switching_protocols : Response
switching_protocols = record {
  status = 101;
  headers = ("connection", "upgrade") ∷ ("upgrade", upgrade_ts2021) ∷ [];
  body = "";
}

-- `HeaderValue::to_str` of the crate `http` is an argument. The second component is the header that
-- the spawned task is given, where a task is spawned.
unfoldable pub ts2021_upgrade : (List ℕ → Option (List ℕ)) → Request → Response × Option (List ℕ)
ts2021_upgrade to_str req =
    if not (has_upgrade req)
    then (plain 500 "missing upgrade header", none)
    else elim req.handshake [
      | none ↦ (plain 400 "missing handshake header", none)
      | some v ↦ elim (to_str v) [
        | none ↦ (plain 400 "missing handshake header", none)
        | some init_b64 ↦ (switching_protocols, some init_b64)
      ]
    ]

unfoldable pub get_key :
    {Store : Type 0} (ts : Ts)
    → ts.MachinePublicKey
    → ServerState ts Store
    → OverTlsPublicKeyResponse ts.MachinePublicKey
get_key ts zero_key state = over_tls_response zero_key state.server_key.public

module _ (ts : Ts) (socket : Socket) where
  open ts use {Random}
  open socket use {State}

  abbrev pub NoiseStream : Type 0
  NoiseStream = FramedIo (Framed ts socket) (List ℕ)

  -- The encrypted stream as `AsyncWrite`, and hyper's HTTP/2 server on it.
  pub record Tunnel : Type 0 where
    pub write_all : List ℕ → NoiseStream → Result IoError (Unit {0}) × NoiseStream
    pub flush : NoiseStream → Result IoError (Unit {0}) × NoiseStream
    pub serve_connection : NoiseStream → Result String (Unit {0}) × NoiseStream

  abbrev pub stream_socket : Tunnel → Socket
  stream_socket tunnel = record {
    State = NoiseStream;
    write_all = tunnel.write_all;
    flush = tunnel.flush;
  }

  -- The connection as it is dropped: the socket, or the stream around it.
  pub data Dropped : Type 0 where
    socket_dropped : State → Dropped
    stream_dropped : NoiseStream → Dropped

  module _ (tunnel : Tunnel) where
    pub connection_served :
        Result String (Unit {0}) × NoiseStream
        → Option (Result (ServerError ts) (Unit {0})) × Dropped
    connection_served (ok _, stream) = (some (ok tt), stream_dropped stream)
    connection_served (err e, stream) = (some (err (http2 e)), stream_dropped stream)

    pub early_written :
        Result (NoiseError ts) (Unit {0}) × NoiseStream
        → Option (Result (ServerError ts) (Unit {0})) × Dropped
    unfolding connection_served
    early_written (ok _, stream) = connection_served (tunnel.serve_connection stream)
    early_written (err e, stream) = (some (err (noise e)), stream_dropped stream)

    pub handshake_done :
        Option (Result (NoiseError ts) (Accepted ts socket)) × State
        → Option (Result (ServerError ts) (Unit {0})) × Dropped
    unfolding early_written
    handshake_done (none, s) = (none, socket_dropped s)
    handshake_done (some (err e), s) = (some (err (noise e)), socket_dropped s)
    handshake_done (some (ok accepted), s) =
        let early : EarlyNoise ts.ChallengePublicKey = record {
          node_key_challenge = accepted.node_key_challenge;
        } in
        early_written (write_early_noise ts (stream_socket tunnel) early accepted.stream)

    unfoldable pub run_noise_connection :
        Random
        → Random
        → State
        → MachineKeyPair ts
        → List ℕ
        → Option (Result (ServerError ts) (Unit {0})) × Dropped
    unfolding handshake_done
    run_noise_connection ephemeral secret s server_key init_b64 =
        handshake_done (accept ts socket ephemeral secret server_key.private init_b64 s)

-- What the upgrade hands to the task that it spawns: nothing where the upgrade fails, else the socket.
-- The task only logs how its connection ends.
module _ (ts : Ts) (socket : Socket) (tunnel : Tunnel ts socket) where
  unfoldable pub upgraded :
      ts.Random
      → ts.Random
      → Result String socket.State
      → MachineKeyPair ts
      → List ℕ
      → Option (Option (Result (ServerError ts) (Unit {0})) × Dropped ts socket)
  upgraded ephemeral secret (err e) server_key init_b64 = none
  upgraded ephemeral secret (ok s) server_key init_b64 =
      some (run_noise_connection ts socket tunnel ephemeral secret s server_key init_b64)

abbrev pub json_type : List (String × String)
json_type = ("content-type", "application/json") ∷ []

-- The answer to every request inside the tunnel.
unfoldable pub handle_machine : Response
handle_machine = record { status = 200; headers = json_type; body = "{}" }
