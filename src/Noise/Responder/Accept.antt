-- ===== src/Noise/Responder/Accept.antt =====
-- The possible outcomes of `accept` of crates/noise/src/responder.rs.
use oxiscale.Prelude.{
  ℕ, ◌≡◌, refl, ap, Option, none, some, List, Result, ok, err, inl, inr, ◌⊎◌, Result-cases,
}
use oxiscale.Store.Types.{IoError}
use oxiscale.Noise.Ts.{Ts, Socket}
use oxiscale.Noise.Text.{trim, prologue}
use oxiscale.Noise.Error.{NoiseError, io}
use oxiscale.Noise.Initiation.{parse_initiation}
use oxiscale.Noise.Initiation.Format.{parse_initiation-ne-none}
use oxiscale.Noise.FramedIo
use oxiscale.Noise.Responder.{
  Accepted, accept, accept_decoded, accept_parsed, respond, accepted, send_response,
}
use oxiscale.Noise.Responder.Sent.{send_response-io}

module _ (ts : Ts) (socket : Socket) where
  open ts use {MachinePrivateKey, Random}
  open socket use {State}

  -- The session that the server makes from a payload, and the socket that it leaves.
  abbrev IsSession :
      Random → Random → MachinePrivateKey → ℕ → List ℕ → State → Accepted ts socket → State → Type 0
  IsSession eph secret key v payload s a s' =
      (received : ts.ReceivedHandshake) × (ts.receive payload (prologue v) key ≡ some received)
      × (send_response ts socket (ts.finish received eph).0 s ≡ (ok tt, s'))
      × (a ≡ record {
        stream = FramedIo.new (s', (ts.finish received eph).1);
        capability_version = v;
        peer_machine_key = ts.peer_static_pub received;
        node_key_challenge = ts.challenge secret;
      })

  abbrev RespondOutcome :
      Random
      → Random
      → MachinePrivateKey
      → ℕ
      → List ℕ
      → State
      → Option (Result (NoiseError ts) (Accepted ts socket)) × State
      → Type 0
  RespondOutcome eph secret key v payload s (none, s') = ⊥
  RespondOutcome eph secret key v payload s (some (err e), s') =
      (s' ≡ s) ⊎ ((x : IoError) × (e ≡ io x))
  RespondOutcome eph secret key v payload s (some (ok a), s') =
      IsSession eph secret key v payload s a s'

  accepted_outcome :
      (eph secret : Random) (key : MachinePrivateKey) (v : ℕ) (payload : List ℕ) (s : State)
      (r : ts.ReceivedHandshake) (q : Result (NoiseError ts) (Unit {0}) × State)
      → ts.receive payload (prologue v) key ≡ some r
      → send_response ts socket (ts.finish r eph).0 s ≡ q
      → RespondOutcome eph secret key v payload s
          (accepted ts socket v r (ts.finish r eph).1 secret q)
  unfolding accepted
  accepted_outcome eph secret key v payload s r (ok u, s') e f = (r, e, f, refl)
  accepted_outcome eph secret key v payload s r (err y, s') e f =
      inr (send_response-io ts socket (ts.finish r eph).0 s y (ap (λ p. p.0) f))

  respond_outcome :
      (eph secret : Random) (key : MachinePrivateKey) (v : ℕ) (payload : List ℕ) (s : State)
      (o : Option ts.ReceivedHandshake)
      → ts.receive payload (prologue v) key ≡ o
      → RespondOutcome eph secret key v payload s (respond ts socket v eph secret o s)
  unfolding respond
  respond_outcome eph secret key v payload s none e = inl refl
  respond_outcome eph secret key v payload s (some r) e =
      accepted_outcome eph secret key v payload s r _ e refl

  -- The outcome of `accept` on a header.
  abbrev pub Outcome :
      Random
      → Random
      → MachinePrivateKey
      → List ℕ
      → State
      → Option (Result (NoiseError ts) (Accepted ts socket)) × State
      → Type 0
  Outcome eph secret key text s (none, s') = ⊥
  Outcome eph secret key text s (some (err e), s') = (s' ≡ s) ⊎ ((x : IoError) × (e ≡ io x))
  Outcome eph secret key text s (some (ok a), s') =
      (raw : List ℕ) × (payload : List ℕ) × (ts.base64_decode (trim text) ≡ ok raw)
      × (v : ℕ) × (parse_initiation ts raw ≡ some (ok (v, payload)))
      × IsSession eph secret key v payload s a s'

  Outcome-of :
      (eph secret : Random) (key : MachinePrivateKey) (text raw payload : List ℕ) (v : ℕ)
      (s : State) (q : Option (Result (NoiseError ts) (Accepted ts socket)) × State)
      → ts.base64_decode (trim text) ≡ ok raw
      → parse_initiation ts raw ≡ some (ok (v, payload))
      → RespondOutcome eph secret key v payload s q
      → Outcome eph secret key text s q
  Outcome-of eph secret key text raw payload v s (none, s') d p h = h
  Outcome-of eph secret key text raw payload v s (some (err e), s') d p h = h
  Outcome-of eph secret key text raw payload v s (some (ok a), s') d p h =
      (raw, payload, d, v, p, h)

  Outcome-parsed :
      (eph secret : Random) (key : MachinePrivateKey) (text raw : List ℕ) (s : State)
      (p : Option (Result (NoiseError ts) (ℕ × List ℕ)))
      → ts.base64_decode (trim text) ≡ ok raw
      → parse_initiation ts raw ≡ p
      → Outcome eph secret key text s (accept_parsed ts socket eph secret key p s)
  unfolding accept_parsed
  Outcome-parsed eph secret key text raw s none d e = parse_initiation-ne-none ts raw e
  Outcome-parsed eph secret key text raw s (some (err x)) d e = inl refl
  Outcome-parsed eph secret key text raw s (some (ok (v, payload))) d e =
      Outcome-of eph secret key text raw payload v s _ d e
        (respond_outcome eph secret key v payload s _ refl)

  -- `accept` never panics. Where it fails, the socket is as it was or the error is the socket's. Where
  -- it accepts, the header decodes to bytes that parse as an initiation, the handshake opened their
  -- payload with the prologue of their version, the response was written, and the version, the
  -- peer's key and the session returned are those of that handshake.
  pub accept-Outcome :
      (eph secret : Random) (key : MachinePrivateKey) (text : List ℕ) (s : State)
      → Outcome eph secret key text s (accept ts socket eph secret key text s)
  unfolding accept accept_decoded
  accept-Outcome eph secret key text s = elim (Result-cases (ts.base64_decode (trim text))) [
    | inl (raw, e) ↦
        rw (e, accept, accept_decoded)
          (Outcome-parsed eph secret key text raw s (parse_initiation ts raw) e refl)
    | inr (x, e) ↦ rw (e, accept, accept_decoded) (inl refl)
  ]
