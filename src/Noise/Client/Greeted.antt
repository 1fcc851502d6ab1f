-- ===== src/Noise/Client/Greeted.antt =====
-- A client of crates/noise/src/responder.rs that keeps to the protocol, against the server.
use oxiscale.Prelude.{
  ℕ, ◌≤◌, ◌<◌, ◌^◌, ◌≡◌, refl, sym, ap, ◌∙◌, some, List, [], ◌++◌, ok, err, length, drop,
  append-nil, append_assoc, drop-length_append, from_be16-be16, arith, ltb, Bool-cases, ◌⊎◌, inl,
  inr,
}
use oxiscale.Noise.Tailcfg.{EarlyNoise}
use oxiscale.Noise.Ts.{Ts, IsTs, Socket, IsSocket}
use oxiscale.Noise.Text.{prologue}
use oxiscale.Noise.Error.{unsupported_version}
use oxiscale.Noise.Initiation.Format.{IsInitiation, initiation_message}
use oxiscale.Noise.Responder.{
  Framed, Accepted, write_early_noise, send_json, send_response, early_noise_frame, ◌>>◌, and_then,
  send, flush_socket, sending,
}
use oxiscale.Noise.FramedIo
use oxiscale.Noise.FramedIo.{FramedIo}
use oxiscale.Noise.Responder.Open.{IsOpen}
use oxiscale.Noise.Responder.Session.{
  accept_opened, accept_old, send_response-sent, response_message,
}
use oxiscale.Noise.Responder.EarlyFrame.{read_frame-early_noise_frame}
use oxiscale.Noise.Client.{
  accept_initiation, Client, IsClient, Opens, Writer, IsWriter, writer_socket, frame_sent, greet,
  server_task, client_task, exchange,
}

module _ (ts : Ts) (socket : Socket) (client : Client ts) (honest : IsClient ts client) where
  open ts use {MachinePrivateKey, Random}
  open socket use {State}
  open client use {public_key, initialize}
  open honest use {Pairs, initiates}

  pub initiation_message-IsInitiation :
      (v : ℕ) (client_key server_key : MachinePrivateKey) (x : Random)
      (o : Opens ts client Pairs v client_key server_key x)
      → 113 ≤ v
      → v < 2 ^ 16
      → IsInitiation ts (initiation_message ts v o.payload) v o.payload
  initiation_message-IsInitiation v client_key server_key x o least fits =
      (least, fits, o.payload_length, [], sym (append-nil _))

  -- On a socket that does not fail, a client that initiates with a supported version is accepted with
  -- that version and its own key.
  pub initiate-accept :
      (x eph secret : Random) (client_key server_key : MachinePrivateKey) (v : ℕ) (s : State)
      → IsTs ts
      → IsOpen ts socket
      → 113 ≤ v
      → v < 2 ^ 16
      → (a : Accepted ts socket) × ((accept_initiation ts socket client x eph secret client_key
            server_key v s).0
          ≡ some (ok a))
        × (a.capability_version ≡ v)
        × (a.peer_machine_key ≡ public_key client_key)
        × (a.node_key_challenge ≡ ts.challenge secret)
  initiate-accept x eph secret client_key server_key v s crypto open_socket least fits =
      let o = initiates v client_key server_key x fits in
      (
        _,
        ap (λ q. q.0)
            (accept_opened ts socket eph secret server_key _ _ o.payload v s o.received crypto
              open_socket o.decodes
              (initiation_message-IsInitiation v client_key server_key x o least fits) o.opened),
        refl,
        o.peer,
        refl,
      )

  -- A client that initiates with a version below the minimum is refused with its version and the
  -- minimum, and nothing is sent.
  pub initiate-refused :
      (x eph secret : Random) (client_key server_key : MachinePrivateKey) (v : ℕ) (s : State)
      → v < 113
      → accept_initiation ts socket client x eph secret client_key server_key v s
        ≡ (some (err (unsupported_version v 113)), s)
  initiate-refused x eph secret client_key server_key v s old =
      let fits : v < 2 ^ 16 = omega (arith, old) in
      let o = initiates v client_key server_key x fits in
      rw (from_be16-be16 v fits) at (
        accept_old ts socket eph secret server_key _ _ _ _ _ _ o.payload s o.decodes
          (omega (arith, o.payload_length)) (omega (arith, from_be16-be16 v fits, old)))

  -- On a socket that does not fail, a client that initiates with any version of two bytes is refused
  -- with its version and the minimum, and nothing is sent, where the version is below the minimum;
  -- otherwise it is accepted with that version, its own key and the challenge that was drawn.
  pub initiate-decided :
      (x eph secret : Random) (client_key server_key : MachinePrivateKey) (v : ℕ) (s : State)
      → IsTs ts
      → IsOpen ts socket
      → v < 2 ^ 16
      → ((v < 113)
          × (accept_initiation ts socket client x eph secret client_key server_key v s
              ≡ (some (err (unsupported_version v 113)), s)))
        ⊎ ((113 ≤ v)
            × ((a : Accepted ts socket) × ((accept_initiation ts socket client x eph secret
                    client_key server_key v s).0
                  ≡ some (ok a))
                × (a.capability_version ≡ v)
                × (a.peer_machine_key ≡ public_key client_key)
                × (a.node_key_challenge ≡ ts.challenge secret)))
  initiate-decided x eph secret client_key server_key v s crypto open_socket fits =
      elim (Bool-cases (ltb v 113)) [
        | inl old ↦
            let below : v < 113 = ground (arith, old) in
            inl (below, initiate-refused x eph secret client_key server_key v s below)
        | inr new ↦
            let least : 113 ≤ v = ground (arith, new) in
            inr (
              least,
              initiate-accept x eph secret client_key server_key v s crypto open_socket least fits,
            )
      ]

  module _ (writer : Writer ts socket) where
    -- A client reads the frame that follows the response, whatever comes after it.
    pub client_reads :
        (v : ℕ) (client_key server_key : MachinePrivateKey) (x eph : Random)
        (o : Opens ts client Pairs v client_key server_key x)
        (frame : EarlyNoise ts.ChallengePublicKey) (json wire more : List ℕ)
        → ts.to_vec frame ≡ ok json
        → length json < 2 ^ 32
        → ((own : client.Session) (more : List ℕ)
            → Pairs own (ts.finish o.received eph).1
            → (later : List ℕ) × (client.decrypt own (wire ++ more)
                ≡ early_noise_frame ts socket json ++ later))
        → client_task ts socket writer client
            (initialize (prologue v) client_key (public_key server_key) v x).0
            client_key
            (response_message ts (ts.finish o.received eph).0 ++ (wire ++ more))
          ≡ some frame
    unfolding client_task
    client_reads v client_key server_key x eph o frame json wire more coded small decrypts =
        let (own, completed, pairs) = o.completed eph (wire ++ more) in
        let (later, decrypted) = decrypts own more pairs in
        rw
          (
            completed,
            decrypted,
            read_frame-early_noise_frame ts socket json later small,
            honest.parses frame json coded,
          )
          refl

    -- On a stream that does not fail, a frame that serializes is written and flushed.
    pub written :
        (frame : EarlyNoise ts.ChallengePublicKey) (json : List ℕ)
        (stream : FramedIo (Framed ts socket) (List ℕ))
        → IsOpen ts (writer_socket writer)
        → ts.to_vec frame ≡ ok json
        → (s1 : FramedIo (Framed ts socket) (List ℕ)) × (s2 : FramedIo (Framed ts socket) (List ℕ))
          × (writer.write_all (early_noise_frame ts socket json) stream ≡ (ok tt, s1))
          × (writer.flush s1 ≡ (ok tt, s2))
          × (write_early_noise ts (writer_socket writer) frame stream ≡ (ok tt, s2))
    unfolding write_early_noise send_json ◌>>◌ and_then send flush_socket sending early_noise_frame
    written frame json stream opens coded =
        let bytes = early_noise_frame ts socket json in
        let s1 = (writer.write_all bytes stream).1 in
        let s2 = (writer.flush s1).1 in
        let wrote : writer.write_all bytes stream ≡ (ok tt, s1) =
          ap (λ z. (z, s1)) (opens.writes bytes stream) in
        let flushed : writer.flush s1 ≡ (ok tt, s2) = ap (λ z. (z, s2)) (opens.flushes s1) in
        (s1, s2, wrote, flushed, rw (coded, wrote, flushed) refl)

    -- Where nothing fails, a client that initiates with a supported version gets to the end of the
    -- handshake, and reads from what the server has sent the challenge key that the server returns.
    pub exchange-agrees :
        (laws : IsSocket socket) (x eph secret : Random) (client_key server_key : MachinePrivateKey)
        (v : ℕ) (json : List ℕ) (s : State)
        → IsTs ts
        → IsWriter writer client laws Pairs
        → IsOpen ts socket
        → IsOpen ts (writer_socket writer)
        → 113 ≤ v
        → v < 2 ^ 16
        → ts.to_vec (record { node_key_challenge = ts.challenge secret }) ≡ ok json
        → length json < 2 ^ 32
        → exchange ts socket writer client laws x eph secret client_key server_key v s
          ≡ some (ts.challenge secret, record { node_key_challenge = ts.challenge secret })
    unfolding exchange server_task greet frame_sent
    exchange-agrees laws x eph secret client_key server_key v json s crypto writes open_socket
          open_stream least fits coded small =
        let o = initiates v client_key server_key x fits in
        let frame : EarlyNoise ts.ChallengePublicKey = record {
          node_key_challenge = ts.challenge secret;
        } in
        let (resp, session) = ts.finish o.received eph in
        let s' = (send_response ts socket resp s).1 in
        let accepts =
          accept_opened ts socket eph secret server_key _ _ o.payload v s o.received crypto
            open_socket o.decodes
            (initiation_message-IsInitiation v client_key server_key x o least fits) o.opened in
        let (s1, s2, wrote, flushed, greeted) =
          written frame json (FramedIo.new (s', session)) open_stream coded in
        let (wire, sent, decrypts) =
          writes.delivers session (early_noise_frame ts socket json) s' s1 s2 wrote flushed in
        let received : drop (length (laws.sent s)) (laws.sent s2.inner.0)
            ≡ response_message ts resp ++ (wire ++ []) =
          ap (drop (length (laws.sent s))) (
            sent
            ∙ ap (λ z. z ++ wire)
                (send_response-sent ts socket laws o.received eph s crypto open_socket)
            ∙ append_assoc (laws.sent s) (response_message ts resp) wire)
          ∙ drop-length_append (laws.sent s) (response_message ts resp ++ wire)
          ∙ ap (λ z. response_message ts resp ++ z) (sym (append-nil wire)) in
        rw
          (
            accepts,
            greeted,
            received,
            client_reads v client_key server_key x eph o frame json wire [] coded small decrypts,
          )
          refl
