-- ===== src/Noise/Stream/Tests.antt =====
-- A connection of crates/noise/src/responder.rs with the codec of `Noise.Stream.Sealed`, and the
-- theorems at concrete inputs.
use oxiscale.Prelude.{
  ℕ, ◌<◌, ◌≡◌, refl, sym, ap, ◌∙◌, none, some, List, [], ◌∷◌, ◌++◌, ok, err, length, drop, arith,
  drop-length_append, append-nil, true, false,
}
use oxiscale.Store.Types.{IoError}
use oxiscale.Noise.FramedIo.{ready, pending}
use oxiscale.Noise.FramedIo.Read.{IsStream}
use oxiscale.Noise.FramedIo.Tokio.{IsTokio, IsFlushed, Tokio}
use oxiscale.Noise.FramedIo.Sends.{Sends}
use oxiscale.Noise.FramedIo.Steady.{IsSteady}
use oxiscale.Noise.FramedIo.Steady.Polling.{
  polling, polling-IsTokio, loop_ends, IsTaking, write_all_open, flush_open,
}
use oxiscale.Noise.Responder.Open.{IsOpen}
use oxiscale.Noise.Client.{writer_socket}
use oxiscale.Noise.Client.Toy.{toy_ts, toy_client, toy_IsTs, toy_IsClient}
use oxiscale.Noise.Stream.{bytes_mut_buf, IsBiCodec, IsDecoder}
use oxiscale.Noise.Stream.Writing.{noise_writer}
use oxiscale.Noise.Stream.Duplex.{round_trip}
use oxiscale.Noise.Stream.Duplex.RoundTrip.{IsLive, round_trip-agrees}
use oxiscale.Noise.Stream.Sealed.{
  Wires, wires_socket, wires_IsSocket, wires_inbox, wires_IsInbox, whole, whole-IsBuf, Sealed, seal,
  unseal, next, sealing, sealed, unseal-append, unseal-seal, sealing-IsSink, Sends-Kept,
}

sealing-IsFlushed : IsFlushed (bytes_mut_buf whole) sealed sealing-IsSink
unfolding sealing-IsSink
sealing-IsFlushed = record { flush_takes = λ t t' r e. sym (ap (λ q. unseal q.1.1 q.1.0.out) e) }

same_front : (xs ys zs : List ℕ) → xs ++ ys ≡ xs ++ zs → ys ≡ zs
same_front xs ys zs e =
    sym (drop-length_append xs ys) ∙ ap (drop (length xs)) e ∙ drop-length_append xs zs

sealing-codes :
    (session : ℕ) (s : Wires) (t t' : Sealed) (bytes : List ℕ)
    → Sends (bytes_mut_buf whole) sealed (s, session) t
    → sealing.poll_flush t ≡ (ready (ok tt), t')
    → unseal t'.1 t'.0.out ≡ unseal session s.out ++ bytes
    → (wire : List ℕ) × (t'.0.out ≡ s.out ++ wire)
      × ((own : ℕ) (more : List ℕ)
          → own ≡ session
          → (later : List ℕ) × (toy_client.decrypt own (wire ++ more) ≡ bytes ++ later))
sealing-codes session s t t' bytes sends ended took =
    let k = Sends-Kept sends in
    let same : t ≡ t' = ap (λ q. q.1) ended in
    let grown : t'.0.out ≡ s.out ++ k.wire = ap (λ z. z.0.out) (sym same) ∙ k.more in
    let key : t'.1 ≡ session = ap (λ z. z.1) (sym same) ∙ k.same_key in
    let read : unseal session k.wire ≡ bytes =
      same_front (unseal session s.out) (unseal session k.wire) bytes
        (sym (unseal-append session s.out k.wire) ∙ rw (key, grown) at took) in
    (
      k.wire,
      grown,
      λ own more pair. (
        unseal session more,
        rw pair (unseal-append session k.wire more ∙ ap (λ z. z ++ unseal session more) read),
      ),
    )

sealing-IsBiCodec : IsBiCodec whole sealing toy_client wires_IsSocket (λ own session. own ≡ session)
unfolding sealing-IsSink wires_IsSocket
sealing-IsBiCodec = record {
  sink = sealing-IsSink;
  quiet = sealing-IsFlushed;
  codes = sealing-codes;
}

next_chunk :
    (wire out b : List ℕ) (key : ℕ) (t' : Sealed)
    → next wire out key ≡ (ready (some (ok b)), t')
    → (unseal key wire ≡ b ++ unseal t'.1 t'.0.arrived) × (length t'.0.arrived < length wire)
next_chunk [] out b key t' e = cc (ap (λ q. q.0) e)
next_chunk (c ∷ wire) out b key t' e =
    let polled : ready (some (ok (unseal key (c ∷ wire)))) ≡ ready (some (ok b)) =
      ap (λ q. q.0) e in
    let same : unseal key (c ∷ wire) ≡ b = cc polled in
    let left : [] ≡ t'.0.arrived = ap (λ q. q.1.0.arrived) e in
    rw (same, ← left) (sym (append-nil b), omega arith)

next_end :
    (wire out : List ℕ) (key : ℕ) (t' : Sealed)
    → next wire out key ≡ (ready none, t')
    → (unseal key wire ≡ []) × (unseal t'.1 t'.0.arrived ≡ [])
next_end [] out key t' e = (refl, sym (ap (λ q. unseal q.1.1 q.1.0.arrived) e))
next_end (c ∷ wire) out key t' e = cc (ap (λ q. q.0) e)

next_error :
    (wire out : List ℕ) (key : ℕ) (t' : Sealed) (x : IoError)
    → ¬ (next wire out key ≡ (ready (some (err x)), t'))
next_error [] out key t' x e = cc (ap (λ q. q.0) e)
next_error (c ∷ wire) out key t' x e = cc (ap (λ q. q.0) e)

next_wait : (wire out : List ℕ) (key : ℕ) (t' : Sealed) → ¬ (next wire out key ≡ (pending, t'))
next_wait [] out key t' e = cc (ap (λ q. q.0) e)
next_wait (c ∷ wire) out key t' e = cc (ap (λ q. q.0) e)

sealing-IsStream : IsStream (bytes_mut_buf whole) sealed whole-IsBuf
unfolding whole-IsBuf
sealing-IsStream = record {
  upcoming = λ t. unseal t.1 t.0.arrived;
  backlog = λ t. length t.0.arrived;
  next_chunk = λ t t' b e. next_chunk t.0.arrived t.0.out b t.1 t' e;
  next_end = λ t t' e. next_end t.0.arrived t.0.out t.1 t' e;
  next_error = λ t t' x e. absurd (next_error t.0.arrived t.0.out t.1 t' x e);
  next_pending = λ t t' e. absurd (next_wait t.0.arrived t.0.out t.1 t' e);
}

sealing-IsSteady : IsSteady (bytes_mut_buf whole) sealed
sealing-IsSteady = record {
  no_error = λ t t' x e. next_error t.0.arrived t.0.out t.1 t' x e;
  no_wait = λ t t' e. next_wait t.0.arrived t.0.out t.1 t' e;
}

sealing-IsTaking : IsTaking (bytes_mut_buf whole) sealed
sealing-IsTaking = record { readies = λ t. refl; starts = λ bytes t. refl; flushes = λ t. refl }

sealing-decodes :
    (session own : ℕ) (s : Wires) (t : Sealed) (bytes : List ℕ)
    → own ≡ session
    → s.arrived ≡ []
    → Sends (bytes_mut_buf whole) sealed (s, session) t
    → unseal t.1 (t.0.arrived ++ seal own bytes) ≡ bytes
sealing-decodes session own s t bytes pair idle sends =
    let k = Sends-Kept sends in
    rw (k.same_key, k.same_arrived, idle, pair) (unseal-seal session bytes)

sealing-IsDecoder :
    IsDecoder whole whole-IsBuf sealing toy_client wires_inbox wires_IsInbox
      (λ own session. own ≡ session)
unfolding whole-IsBuf sealing-IsStream wires_IsInbox
sealing-IsDecoder = record { stream = sealing-IsStream; decodes = sealing-decodes }

abbrev sealed_tokio : Tokio (bytes_mut_buf whole) sealed
sealed_tokio = polling (bytes_mut_buf whole) sealed (λ t. length t.0.arrived)

sealed-IsLive :
    IsLive toy_ts wires_socket whole sealing sealed_tokio wires_inbox toy_client whole-IsBuf
      wires_IsInbox
      (λ own session. own ≡ session)
      sealing-IsDecoder
unfolding sealing-IsDecoder whole-IsBuf sealing-IsStream
sealed-IsLive = record {
  ends = λ n io left.
      loop_ends (bytes_mut_buf whole) sealed whole-IsBuf sealing-IsStream sealing-IsSteady n n io
        (omega arith) left;
}

wires_IsOpen : IsOpen toy_ts wires_socket
wires_IsOpen = record { writes = λ bytes s. refl; flushes = λ s. refl }

sealed-IsOpen :
    IsOpen toy_ts (writer_socket (noise_writer toy_ts wires_socket whole sealing sealed_tokio))
sealed-IsOpen = record {
  writes = write_all_open (bytes_mut_buf whole) sealed (λ t. length t.0.arrived) sealing-IsTaking;
  flushes = flush_open (bytes_mut_buf whole) sealed (λ t. length t.0.arrived) sealing-IsTaking;
}

sealed-IsTokio : IsTokio (bytes_mut_buf whole) sealed sealed_tokio (λ t. length t.0.arrived)
sealed-IsTokio =
    polling-IsTokio (bytes_mut_buf whole) sealed (λ t. length t.0.arrived) sealing-IsSink

abbrev nothing_yet : Wires
nothing_yet = record { out = 9 ∷ []; arrived = [] }

round_trip-agrees_example :
    round_trip toy_ts wires_socket whole sealing sealed_tokio wires_inbox toy_client wires_IsSocket
      4 5 6 true false 113
      (104 ∷ 105 ∷ [])
      (111 ∷ 107 ∷ 33 ∷ [])
      nothing_yet
    ≡ some (record {
      capability_version = 113;
      peer_machine_key = true;
      greeting = 104 ∷ 105 ∷ [];
      reply = 111 ∷ 107 ∷ 33 ∷ [];
    })
unfolding sealing-IsDecoder sealing-IsStream wires_IsInbox toy_IsClient
round_trip-agrees_example =
    round_trip-agrees toy_ts wires_socket whole sealing sealed_tokio wires_inbox toy_client
      whole-IsBuf wires_IsInbox wires_IsSocket toy_IsClient sealing-IsBiCodec sealing-IsDecoder
      sealed-IsTokio 4 5 6 true false 113 (104 ∷ 105 ∷ []) (111 ∷ 107 ∷ 33 ∷ []) nothing_yet
      toy_IsTs wires_IsOpen sealed-IsOpen sealed-IsLive refl (omega arith) (omega arith)
