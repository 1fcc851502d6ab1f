-- ===== src/Http/Served.antt =====
-- The connections that crates/control-core/src/server/mod.rs starts and serves.
use oxiscale.Prelude.{
  ℕ, ◌^◌, ◌<◌, ◌≡◌, refl, sym, ap, ◌∙◌, String, Option, none, some, List, [], ◌∷◌, ◌++◌, Result, ok,
  err, length, ◌↔◌, inl, inr, Option-cases,
}
use oxiscale.Noise.Tailcfg.{EarlyNoise}
use oxiscale.Noise.Ts.{Ts, IsTs, Socket, IsSocket}
use oxiscale.Noise.Text.{trim, prologue}
use oxiscale.Noise.Initiation.Format.{IsInitiation}
use oxiscale.Noise.Error.{NoiseError}
use oxiscale.Noise.Responder.{Accepted, accept, write_early_noise}
use oxiscale.Noise.Responder.Open.{IsOpen, write_early_noise_open}
use oxiscale.Noise.Responder.Session.{IsAccepted, accept_session, accept_completes}
use oxiscale.Noise.Responder.EarlyFrame.{read_frame, write_early_noise_read}
use oxiscale.Http.{
  Request, MachineKeyPair, has_upgrade, ts2021_upgrade, switching_protocols, NoiseStream, Tunnel,
  stream_socket, Dropped, stream_dropped, connection_served, early_written, handshake_done,
  run_noise_connection,
}

-- A request to switch protocols, with the text of its handshake.
abbrev pub Asks : (List ℕ → Option (List ℕ)) → Request → List ℕ → Type 0
Asks to_str req init_b64 =
    ((b : ℕ) × (rest : List ℕ) × (req.upgrade ≡ some (b ∷ rest)))
    × ((v : List ℕ) × (req.handshake ≡ some v) × (to_str v ≡ some init_b64))

switched_filled :
    (to_str : List ℕ → Option (List ℕ)) (req : Request) (init_b64 : List ℕ) (u h : Option (List ℕ))
    → req.upgrade ≡ u
    → req.handshake ≡ h
    → (ts2021_upgrade to_str req).1 ≡ some init_b64
    → Asks to_str req init_b64
unfolding ts2021_upgrade has_upgrade
switched_filled to_str req init_b64 none h e f g = cc (rw e at g)
switched_filled to_str req init_b64 (some []) h e f g = cc (rw e at g)
switched_filled to_str req init_b64 (some (b ∷ rest)) none e f g = cc (rw (e, f) at g)
switched_filled to_str req init_b64 (some (b ∷ rest)) (some v) e f g =
    elim (Option-cases (to_str v)) [
      | inl none_read ↦ cc (rw (e, f, none_read) at g)
      | inr (text, read) ↦ ((b, rest, e), (v, f, read ∙ (rw (e, f, read) at g)))
    ]

-- A connection is upgraded, with status 101 and a task for the handshake, exactly where the request
-- has an upgrade header that is not empty and a handshake header that is text; the task is given that
-- text.
pub ts2021_upgrade_iff :
    (to_str : List ℕ → Option (List ℕ)) (req : Request) (init_b64 : List ℕ)
    → (ts2021_upgrade to_str req ≡ (switching_protocols, some init_b64)) ↔ Asks to_str req init_b64
unfolding ts2021_upgrade has_upgrade
ts2021_upgrade_iff to_str req init_b64 = (
  λ e. switched_filled to_str req init_b64 req.upgrade req.handshake refl refl (ap (λ r. r.1) e),
  λ asked. let ((b, rest, e), (v, f, g)) = asked in rw (e, f, g),
)

module _ (ts : Ts) (socket : Socket) (tunnel : Tunnel ts socket) where
  open ts use {Random}
  open socket use {State}

  -- What a connection that was served to its end has gone through.
  abbrev pub Served :
      IsSocket socket
      → IsSocket (stream_socket ts socket tunnel)
      → Random
      → Random
      → State
      → MachineKeyPair ts
      → List ℕ
      → Dropped ts socket
      → Type 0
  Served laws stream_laws eph secret s key text dropped =
      (a : Accepted ts socket) × (s' : State) × IsAccepted ts socket laws eph secret key.private
        text s a s'
      × (json : List ℕ) × (ts.to_vec (record { node_key_challenge = ts.challenge secret })
          ≡ ok json)
      × (stream : NoiseStream ts socket) × (bytes : List ℕ) × (stream_laws.sent stream
          ≡ stream_laws.sent a.stream ++ bytes)
      × (length json < 2 ^ 32 → (rest : List ℕ) → read_frame (bytes ++ rest) ≡ some (json, rest))
      × (final : NoiseStream ts socket) × (tunnel.serve_connection stream ≡ (ok tt, final))
      × (dropped ≡ stream_dropped final)

  served_end :
      (q : Result String (Unit {0}) × NoiseStream ts socket) (dropped : Dropped ts socket)
      → connection_served ts socket tunnel q ≡ (some (ok tt), dropped)
      → (q ≡ (ok tt, q.1)) × (dropped ≡ stream_dropped q.1)
  unfolding connection_served
  served_end (ok u, stream) dropped e = (refl, sym (ap (λ r. r.1) e))
  served_end (err x, stream) dropped e = cc (ap (λ r. r.0) e)

  early_end :
      (q : Result (NoiseError ts) (Unit {0}) × NoiseStream ts socket) (dropped : Dropped ts socket)
      → early_written ts socket tunnel q ≡ (some (ok tt), dropped)
      → (q ≡ (ok tt, q.1))
        × (final : NoiseStream ts socket) × (tunnel.serve_connection q.1 ≡ (ok tt, final))
        × (dropped ≡ stream_dropped final)
  unfolding early_written
  early_end (ok u, stream) dropped e =
      let (served, same) = served_end (tunnel.serve_connection stream) dropped e in
      (refl, (tunnel.serve_connection stream).1, served, same)
  early_end (err x, stream) dropped e = cc (ap (λ r. r.0) e)

  connection_of :
      (laws : IsSocket socket) (stream_laws : IsSocket (stream_socket ts socket tunnel))
      (eph secret : Random) (s : State) (key : MachineKeyPair ts) (text : List ℕ)
      (dropped : Dropped ts socket)
      (q : Option (Result (NoiseError ts) (Accepted ts socket)) × State)
      → IsTs ts
      → accept ts socket eph secret key.private text s ≡ q
      → handshake_done ts socket tunnel q ≡ (some (ok tt), dropped)
      → Served laws stream_laws eph secret s key text dropped
  unfolding handshake_done
  connection_of laws stream_laws eph secret s key text dropped (none, s') crypto e f =
      cc (ap (λ r. r.0) f)
  connection_of laws stream_laws eph secret s key text dropped (some (err x), s') crypto e f =
      cc (ap (λ r. r.0) f)
  connection_of laws stream_laws eph secret s key text dropped (some (ok a), s') crypto e f =
      let session : IsAccepted ts socket laws eph secret key.private text s a s' =
        rw (ap (λ r. r.1) e) at (
          accept_session ts socket laws eph secret key.private text s a crypto (ap (λ r. r.0) e)) in
      let frame : EarlyNoise ts.ChallengePublicKey = record {
        node_key_challenge = a.node_key_challenge;
      } in
      let wrote = write_early_noise ts (stream_socket ts socket tunnel) frame a.stream in
      let (written, final, served, same) = early_end wrote dropped f in
      let (json, coded, bytes, sent, read) =
        write_early_noise_read ts (stream_socket ts socket tunnel) stream_laws frame a.stream
          wrote.1 written in
      let (raw, payload, received, d, i, r, peer, challenge, stream, wire) = session in
      (
        a,
        s',
        session,
        json,
        ap (λ k. ts.to_vec (record { node_key_challenge = k })) (sym challenge) ∙ coded,
        wrote.1,
        bytes,
        sent,
        read,
        final,
        served,
        same,
      )

  -- A connection that ends well was served all the way: the handshake accepted the header with what
  -- that requires and sends; then one EarlyNoise frame was sent on the new stream, from which a client
  -- reads, if it is shorter than 4 GiB, the JSON of the challenge key; and then HTTP/2 was served on
  -- that stream to its end.
  pub run_noise_connection-Served :
      (laws : IsSocket socket) (stream_laws : IsSocket (stream_socket ts socket tunnel))
      (eph secret : Random) (s : State) (key : MachineKeyPair ts) (text : List ℕ)
      (dropped : Dropped ts socket)
      → IsTs ts
      → run_noise_connection ts socket tunnel eph secret s key text ≡ (some (ok tt), dropped)
      → Served laws stream_laws eph secret s key text dropped
  unfolding run_noise_connection
  run_noise_connection-Served laws stream_laws eph secret s key text dropped crypto e =
      connection_of laws stream_laws eph secret s key text dropped _ crypto refl e

  end_served :
      (q : Result String (Unit {0}) × NoiseStream ts socket)
      → q.0 ≡ ok tt
      → (connection_served ts socket tunnel q).0 ≡ some (ok tt)
  unfolding connection_served
  end_served (ok u, stream) e = refl
  end_served (err x, stream) e = cc

  end_early :
      (q : Result (NoiseError ts) (Unit {0}) × NoiseStream ts socket)
      → q.0 ≡ ok tt
      → (tunnel.serve_connection q.1).0 ≡ ok tt
      → (early_written ts socket tunnel q).0 ≡ some (ok tt)
  unfolding early_written
  end_early (ok u, stream) e served = end_served (tunnel.serve_connection stream) served
  end_early (err x, stream) e served = cc

  -- Where neither the socket nor the stream on it fails, frames serialize, and HTTP/2 on the stream
  -- ends well.
  pub record IsHealthy : Type 0 where
    pub socket_opens : IsOpen ts socket
    pub stream_opens : IsOpen ts (stream_socket ts socket tunnel)
    pub serializes :
        (frame : EarlyNoise ts.ChallengePublicKey) → (json : List ℕ) × (ts.to_vec frame ≡ ok json)
    pub serves : (stream : NoiseStream ts socket) → (tunnel.serve_connection stream).0 ≡ ok tt

  end_accepted :
      (a : Accepted ts socket) (q : Option (Result (NoiseError ts) (Accepted ts socket)) × State)
      → IsHealthy
      → q.0 ≡ some (ok a)
      → (handshake_done ts socket tunnel q).0 ≡ some (ok tt)
  unfolding handshake_done
  end_accepted a (none, s) healthy e = cc
  end_accepted a (some (err x), s) healthy e = cc
  end_accepted a (some (ok b), s) healthy e =
      let frame : EarlyNoise ts.ChallengePublicKey = record {
        node_key_challenge = b.node_key_challenge;
      } in
      let (json, coded) = healthy.serializes frame in
      end_early (write_early_noise ts (stream_socket ts socket tunnel) frame b.stream)
        (write_early_noise_open ts (stream_socket ts socket tunnel) frame json b.stream
          healthy.stream_opens coded)
        (healthy.serves _)

  -- Where nothing fails below it, every connection ends well whose header decodes to an initiation of
  -- a supported version that the handshake opens.
  pub run_noise_connection_completes :
      (eph secret : Random) (s : State) (key : MachineKeyPair ts) (text raw payload : List ℕ)
      (v : ℕ) (received : ts.ReceivedHandshake)
      → IsTs ts
      → IsHealthy
      → ts.base64_decode (trim text) ≡ ok raw
      → IsInitiation ts raw v payload
      → ts.receive payload (prologue v) key.private ≡ some received
      → (run_noise_connection ts socket tunnel eph secret s key text).0 ≡ some (ok tt)
  unfolding run_noise_connection
  run_noise_connection_completes eph secret s key text raw payload v received crypto healthy decoded
        found opened =
      let (a, accepts, version) =
        accept_completes ts socket eph secret key.private text raw payload v s received crypto
          healthy.socket_opens decoded found opened in
      end_accepted a (accept ts socket eph secret key.private text s) healthy accepts
