-- ===== src/Noise/Responder/Session.antt =====
-- When `accept` of crates/noise/src/responder.rs accepts, and what is then on the wire.
use oxiscale.Prelude.{
  ℕ, ◌≤◌, ◌<◌, ◌≡◌, refl, sym, ap, subst, ◌∙◌, Option, none, some, List, ◌∷◌, ◌++◌, Result, ok, err,
  length, be16, from_be16, arith,
}
use oxiscale.Noise.Ts.{Ts, IsTs, Socket, IsSocket}
use oxiscale.Noise.Text.{trim, prologue, trim_padded, IsBlank}
use oxiscale.Noise.Error.{NoiseError, unsupported_version}
use oxiscale.Noise.Initiation.{parse_initiation}
use oxiscale.Noise.Initiation.Format.{IsInitiation, parse_initiation_iff, parse_long}
use oxiscale.Noise.FramedIo
use oxiscale.Noise.Responder.{
  Accepted, accept, accept_decoded, accept_parsed, respond, accepted, send_response,
  response_header,
}
use oxiscale.Noise.Responder.Sent.{Sends-send_response}
use oxiscale.Noise.Responder.Open.{IsOpen, send_response_open}
use oxiscale.Noise.Responder.Accept.{Outcome, accept-Outcome}

-- A response of the controlbase protocol: type, length and payload.
abbrev pub response_message : Ts → List ℕ → List ℕ
response_message ts resp = (ts.response ∷ be16 (length resp)) ++ resp

module _ (ts : Ts) (socket : Socket) where
  open ts use {MachinePrivateKey, Random}
  open socket use {State, write_all, flush}

  -- The session that the server sets up from a client's initiation.
  abbrev pub IsAccepted :
      IsSocket socket
      → Random
      → Random
      → MachinePrivateKey
      → List ℕ
      → State
      → Accepted ts socket
      → State
      → Type 0
  IsAccepted laws eph secret key text s a s' =
      (raw : List ℕ) × (payload : List ℕ) × (received : ts.ReceivedHandshake) × (ts.base64_decode
          (trim text)
        ≡ ok raw)
      × IsInitiation ts raw a.capability_version payload
      × (ts.receive payload (prologue a.capability_version) key ≡ some received)
      × (a.peer_machine_key ≡ ts.peer_static_pub received)
      × (a.node_key_challenge ≡ ts.challenge secret)
      × (a.stream ≡ FramedIo.new (s', (ts.finish received eph).1))
      × (laws.sent s' ≡ laws.sent s ++ response_message ts (ts.finish received eph).0)

  header_lem :
      IsTs ts
      → (r : ts.ReceivedHandshake) (x : Random)
      → response_header ts socket ++ (ts.finish r x).0 ≡ response_message ts (ts.finish r x).0
  header_lem laws r x =
      ap (λ n. (ts.response ∷ be16 n) ++ (ts.finish r x).0)
        (omega (arith, laws.resp_length r x, laws.resp_fits))

  session_of :
      (laws : IsSocket socket) (eph secret : Random) (key : MachinePrivateKey) (text : List ℕ)
      (s : State) (a : Accepted ts socket)
      (q : Option (Result (NoiseError ts) (Accepted ts socket)) × State)
      → IsTs ts
      → Outcome ts socket eph secret key text s q
      → q.0 ≡ some (ok a)
      → IsAccepted laws eph secret key text s a q.1
  session_of laws eph secret key text s a (none, s') crypto h e = cc
  session_of laws eph secret key text s a (some (err x), s') crypto h e = cc
  session_of laws eph secret key text s a (some (ok b), s') crypto h e =
      let (raw, payload, decoded, v, parsed, (received, opened, wrote, shape)) = h in
      let same : b ≡ a = cc in
      let initiation : IsInitiation ts raw v payload =
        (parse_initiation_iff ts raw payload v crypto
            (crypto.decoded_bytes (trim text) raw decoded)).0
          parsed in
      let response : laws.sent s' ≡ laws.sent s ++ response_message ts (ts.finish received eph).0 =
        (Sends-send_response ts socket laws (ts.finish received eph).0).at s s' wrote
        ∙ ap (λ z. laws.sent s ++ z) (header_lem crypto received eph) in
      subst (λ x. IsAccepted laws eph secret key text s x s') (sym shape ∙ same)
        (raw, payload, received, decoded, initiation, opened, refl, refl, refl, response)

  -- Where `accept` accepts, the header decodes to an initiation of a supported version; the handshake
  -- was opened with the prologue of that version; the peer's key and the session are those of the
  -- handshake, the challenge key is the one drawn; and the socket was sent exactly the response, as one message with its true length.
  pub accept_session :
      (laws : IsSocket socket) (eph secret : Random) (key : MachinePrivateKey) (text : List ℕ)
      (s : State) (a : Accepted ts socket)
      → IsTs ts
      → (accept ts socket eph secret key text s).0 ≡ some (ok a)
      → IsAccepted laws eph secret key text s a (accept ts socket eph secret key text s).1
  accept_session laws eph secret key text s a crypto =
      session_of laws eph secret key text s a (accept ts socket eph secret key text s) crypto
        (accept-Outcome ts socket eph secret key text s)

  -- White space around the header makes no difference.
  pub accept_padded :
      (eph secret : Random) (key : MachinePrivateKey) (pre text post : List ℕ) (s : State)
      → IsBlank pre
      → IsBlank post
      → accept ts socket eph secret key (pre ++ (text ++ post)) s
        ≡ accept ts socket eph secret key text s
  unfolding accept
  accept_padded eph secret key pre text post s before after =
      rw (trim_padded pre text post before after)

  -- What `accept` sets up for a handshake that it has opened.
  abbrev pub set_up : ℕ → ts.ReceivedHandshake → ts.Session → Random → State → Accepted ts socket
  set_up v received session secret s = record {
    stream = FramedIo.new (s, session);
    capability_version = v;
    peer_machine_key = ts.peer_static_pub received;
    node_key_challenge = ts.challenge secret;
  }

  accepted_open :
      (v : ℕ) (r : ts.ReceivedHandshake) (x : ts.Session) (secret : Random)
      (q : Result (NoiseError ts) (Unit {0}) × State)
      → q.0 ≡ ok tt
      → accepted ts socket v r x secret q ≡ (some (ok (set_up v r x secret q.1)), q.1)
  unfolding accepted
  accepted_open v r x secret (ok u, s) e = refl
  accepted_open v r x secret (err y, s) e = cc

  pub accept_opened :
      (eph secret : Random) (key : MachinePrivateKey) (text raw payload : List ℕ) (v : ℕ)
      (s : State) (received : ts.ReceivedHandshake)
      → IsTs ts
      → IsOpen ts socket
      → ts.base64_decode (trim text) ≡ ok raw
      → IsInitiation ts raw v payload
      → ts.receive payload (prologue v) key ≡ some received
      → accept ts socket eph secret key text s ≡ (
        some (
            ok (
              set_up v received
                (ts.finish received eph).1
                secret
                (send_response ts socket (ts.finish received eph).0 s).1)),
        (send_response ts socket (ts.finish received eph).0 s).1,
      )
  unfolding accept accept_decoded accept_parsed respond
  accept_opened eph secret key text raw payload v s received crypto open_socket decoded found
        opened =
      let parsed : parse_initiation ts raw ≡ some (ok (v, payload)) =
        (parse_initiation_iff ts raw payload v crypto
            (crypto.decoded_bytes (trim text) raw decoded)).1
          found in
      rw (accept, decoded, accept_decoded, parsed, accept_parsed, opened, respond)
        (accepted_open v received (ts.finish received eph).1 secret _
          (send_response_open ts socket open_socket (ts.finish received eph).0 s))

  -- On a socket that does not fail, every client is accepted whose header decodes to an initiation of
  -- a supported version that the handshake opens.
  pub accept_completes :
      (eph secret : Random) (key : MachinePrivateKey) (text raw payload : List ℕ) (v : ℕ)
      (s : State) (received : ts.ReceivedHandshake)
      → IsTs ts
      → IsOpen ts socket
      → ts.base64_decode (trim text) ≡ ok raw
      → IsInitiation ts raw v payload
      → ts.receive payload (prologue v) key ≡ some received
      → (a : Accepted ts socket) × ((accept ts socket eph secret key text s).0 ≡ some (ok a))
        × (a.capability_version ≡ v)
  accept_completes eph secret key text raw payload v s received crypto open_socket decoded found
        opened =
      (
        _,
        ap (λ q. q.0)
            (accept_opened eph secret key text raw payload v s received crypto open_socket decoded
              found opened),
        refl,
      )

  -- On a socket that does not fail, a response is sent as one message with its true length.
  pub send_response-sent :
      (laws : IsSocket socket) (r : ts.ReceivedHandshake) (eph : Random) (s : State)
      → IsTs ts
      → IsOpen ts socket
      → laws.sent (send_response ts socket (ts.finish r eph).0 s).1
        ≡ laws.sent s ++ response_message ts (ts.finish r eph).0
  send_response-sent laws r eph s crypto open_socket =
      let resp = (ts.finish r eph).0 in
      (Sends-send_response ts socket laws resp).at s (send_response ts socket resp s).1 (
        ap (λ z. (z, (send_response ts socket resp s).1))
          (send_response_open ts socket open_socket resp s))
      ∙ ap (λ z. laws.sent s ++ z) (header_lem crypto r eph)

  -- A client below the minimum version is told so before any cryptography, whatever the rest of its
  -- message, and the socket is left alone.
  pub accept_old :
      (eph secret : Random) (key : MachinePrivateKey) (text : List ℕ) (a b k l m : ℕ)
      (rest : List ℕ) (s : State)
      → ts.base64_decode (trim text) ≡ ok (a ∷ b ∷ k ∷ l ∷ m ∷ rest)
      → ts.init_size ≤ length rest
      → from_be16 a b < 113
      → accept ts socket eph secret key text s
        ≡ (some (err (unsupported_version (from_be16 a b) 113)), s)
  unfolding accept accept_decoded accept_parsed
  accept_old eph secret key text a b k l m rest s decoded long old =
      let parsed : parse_initiation ts (a ∷ b ∷ k ∷ l ∷ m ∷ rest)
          ≡ some (err (unsupported_version (from_be16 a b) 113)) =
        parse_long ts a b k l m rest long ∙ ground arith in
      rw (accept, decoded, accept_decoded, parsed, accept_parsed)
