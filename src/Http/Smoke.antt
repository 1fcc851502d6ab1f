-- ===== src/Http/Smoke.antt =====
-- crates/control-core/tests/server_smoke.rs: a client that asks the server for its key, upgrades its
-- connection and reads the EarlyNoise frame, against the router and the connection that it spawns.
mod Tests
use oxiscale.Prelude.{
  ℕ, ◌^◌, ◌≤◌, ◌<◌, ◌==◌, if◌then◌else◌, ◌≡◌, refl, sym, ap, ◌∙◌, String, Option, none, some, List,
  [], ◌∷◌, ◌++◌, Result, ok, err, length, drop, drop-length_append, append_assoc, inl, inr,
}
use oxiscale.Noise.Tailcfg.{EarlyNoise, upgrade_ts2021, over_tls_response}
use oxiscale.Noise.Ts.{Ts, IsTs, Socket, IsSocket}
use oxiscale.Noise.Text.{codes, prologue}
use oxiscale.Noise.Initiation.{◌>>=◌}
use oxiscale.Noise.FramedIo
use oxiscale.Noise.Responder.{early_noise_frame, write_early_noise, send_response}
use oxiscale.Noise.Responder.Open.{IsOpen}
use oxiscale.Noise.Responder.Session.{accept_opened, send_response-sent, response_message}
use oxiscale.Noise.Client.{Client, IsClient, Opens, Writer, IsWriter, writer_socket, client_task}
use oxiscale.Noise.Client.Greeted.{client_reads, written, initiation_message-IsInitiation}
use oxiscale.Http.{
  Request, Response, ServerState, MachineKeyPair, switching_protocols, get_key, ts2021_upgrade,
  NoiseStream, Tunnel, stream_socket, Dropped, stream_dropped, socket_dropped, connection_served,
  early_written, handshake_done, run_noise_connection,
}
use oxiscale.Http.Served.{Asks, ts2021_upgrade_iff}
use oxiscale.Http.Router.{
  Method, get, post, Axum, IsAxum, Answer, keys, response, bare, respond, respond-Expected,
}

abbrev pub key_request : Request
key_request = record { upgrade = none; handshake = none }

abbrev pub upgrade_request : List ℕ → Request
upgrade_request init_b64 = record {
  upgrade = some (codes upgrade_ts2021);
  handshake = some init_b64;
}

module _ (ts : Ts) (socket : Socket) (tunnel : Tunnel ts socket) (client : Client ts) where
  open ts use {MachinePrivateKey, MachinePublicKey, ChallengePublicKey, Random}
  open socket use {State}
  open client use {public_key, initialize}

  abbrev pub tunnel_writer : Writer ts socket
  tunnel_writer = record { write_all = tunnel.write_all; flush = tunnel.flush }

  -- The server's key in the answer to a GET of /key.
  abbrev pub key_of : Answer ts → Option MachinePublicKey
  key_of (keys r) = some r.public_key
  key_of _ = none

  -- The header that the spawned task is given, where the answer is 101.
  abbrev pub task_of : Answer ts → Option (List ℕ)
  task_of (response r task) = if r.status == 101 then task else none
  task_of _ = none

  -- The socket under a connection that has ended.
  abbrev pub socket_of : Dropped ts socket → State
  socket_of (socket_dropped s) = s
  socket_of (stream_dropped stream) = stream.inner.0

  unfoldable pub smoke :
      {Store : Type 0}
      → IsSocket socket
      → Axum
      → (List ℕ → Option (List ℕ))
      → MachinePublicKey
      → Random
      → Random
      → Random
      → ServerState ts Store
      → MachinePrivateKey
      → ℕ
      → State
      → Option (EarlyNoise ChallengePublicKey)
  smoke laws axum to_str zero_key x ephemeral secret state client_private capver s =
      key_of (respond ts axum to_str zero_key state get "/key" key_request) >>= λ server_public.
      let (handshake, init_b64) =
        initialize (prologue capver) client_private server_public capver x in
      task_of (respond ts axum to_str zero_key state post "/ts2021" (upgrade_request init_b64))
      >>= λ text.
          let (r, dropped) =
            run_noise_connection ts socket tunnel ephemeral secret s state.server_key text in
          client_task ts socket tunnel_writer client handshake client_private
            (drop (length (laws.sent s)) (laws.sent (socket_of dropped)))

  -- Serving HTTP/2 on the stream sends only after what was sent before.
  pub record IsServing (laws : IsSocket socket) : Type 0 where
    pub appends :
        (stream : NoiseStream ts socket)
        → (more : List ℕ) × (laws.sent (tunnel.serve_connection stream).1.inner.0
            ≡ laws.sent stream.inner.0 ++ more)

  served_socket :
      (q : Result String (Unit {0}) × NoiseStream ts socket)
      → socket_of (connection_served ts socket tunnel q).1 ≡ q.1.inner.0
  unfolding connection_served
  served_socket (ok u, stream) = refl
  served_socket (err e, stream) = refl

  module _ (honest : IsClient ts client) (laws : IsSocket socket) (crypto : IsTs ts)
      (writes : IsWriter tunnel_writer client laws honest.Pairs) (serving : IsServing laws)
      (open_socket : IsOpen ts socket) (open_stream : IsOpen ts (writer_socket tunnel_writer)) where
    -- What a connection with a client that keeps to the protocol has sent, and what it reads of it.
    connection_reads :
        (x eph secret : Random) (client_key : MachinePrivateKey) (key : MachineKeyPair ts) (v : ℕ)
        (json : List ℕ) (s : State)
        → 113 ≤ v
        → v < 2 ^ 16
        → ts.to_vec (record { node_key_challenge = ts.challenge secret }) ≡ ok json
        → length json < 2 ^ 32
        → client_task ts socket tunnel_writer client
            (initialize (prologue v) client_key (public_key key.private) v x).0
            client_key
            (drop (length (laws.sent s)) (
              laws.sent (
                socket_of
                  (run_noise_connection ts socket tunnel eph secret s key
                    (initialize (prologue v) client_key (public_key key.private) v x).1).1)))
          ≡ some (record { node_key_challenge = ts.challenge secret })
    unfolding run_noise_connection handshake_done early_written
    connection_reads x eph secret client_key key v json s least fits coded small =
        let o = honest.initiates v client_key key.private x fits in
        let frame : EarlyNoise ChallengePublicKey = record {
          node_key_challenge = ts.challenge secret;
        } in
        let (resp, session) = ts.finish o.received eph in
        let s' = (send_response ts socket resp s).1 in
        let accepts =
          accept_opened ts socket eph secret key.private _ _ o.payload v s o.received crypto
            open_socket o.decodes
            (initiation_message-IsInitiation ts socket client honest v client_key key.private x o
              least fits)
            o.opened in
        let (s1, s2, wrote, flushed, greeted) =
          written ts socket client honest tunnel_writer frame json (FramedIo.new (s', session))
            open_stream coded in
        let (wire, sent, decrypts) =
          writes.delivers session (early_noise_frame ts socket json) s' s1 s2 wrote flushed in
        let (more, appended) = serving.appends s2 in
        let received : drop (length (laws.sent s))
              (laws.sent (tunnel.serve_connection s2).1.inner.0)
            ≡ response_message ts resp ++ (wire ++ more) =
          ap (drop (length (laws.sent s))) (
            appended
            ∙ ap (λ z. z ++ more)
                (sent
                  ∙ ap (λ z. z ++ wire)
                      (send_response-sent ts socket laws o.received eph s crypto open_socket))
            ∙ append_assoc (laws.sent s ++ response_message ts resp) wire more
            ∙ append_assoc (laws.sent s) (response_message ts resp) (wire ++ more))
          ∙ drop-length_append (laws.sent s) (response_message ts resp ++ (wire ++ more)) in
        rw
          (
            accepts,
            greeted,
            served_socket (tunnel.serve_connection s2),
            received,
            client_reads ts socket client honest tunnel_writer v client_key key.private x eph o
                frame json wire more coded small decrypts,
          )
          refl

    -- Where nothing fails below the server, a client of a supported version that asks for the server's
    -- key, initiates for it and upgrades reads the server's challenge key from its EarlyNoise frame,
    -- whatever HTTP/2 then sends.
    pub smoke-reads :
        {Store : Type 0} (axum : Axum) (to_str : List ℕ → Option (List ℕ))
        (zero_key : MachinePublicKey) (x eph secret : Random) (state : ServerState ts Store)
        (client_key : MachinePrivateKey) (v : ℕ) (json : List ℕ) (s : State)
        → IsAxum axum
        → state.server_key.public ≡ public_key state.server_key.private
        → to_str (initialize (prologue v) client_key state.server_key.public v x).1
          ≡ some (initialize (prologue v) client_key state.server_key.public v x).1
        → 113 ≤ v
        → v < 2 ^ 16
        → ts.to_vec (record { node_key_challenge = ts.challenge secret }) ≡ ok json
        → length json < 2 ^ 32
        → smoke laws axum to_str zero_key x eph secret state client_key v s
          ≡ some (record { node_key_challenge = ts.challenge secret })
    unfolding smoke get_key over_tls_response run_noise_connection
    smoke-reads axum to_str zero_key x eph secret state client_key v json s routes pair visible
          least fits coded small =
        let text = (initialize (prologue v) client_key state.server_key.public v x).1 in
        let key_answer =
          respond-Expected ts axum to_str zero_key state key_request get "/key" _ routes
            (inl (refl, refl, refl)) in
        let upgrade_answer =
          respond-Expected ts axum to_str zero_key state (upgrade_request text) post "/ts2021" _
            routes (inr (inl (refl, refl, refl))) in
        let switched =
          (ts2021_upgrade_iff to_str (upgrade_request text) text).1
            ((_, _, refl), (_, refl, visible)) in
        rw (key_answer, upgrade_answer, switched, pair)
          (connection_reads x eph secret client_key state.server_key v json s least fits coded
            small)
