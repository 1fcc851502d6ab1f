-- ===== src/Noise/Client/Tests.antt =====
-- The client of `Noise.Client` with a cipher that adds the session's key to every byte, and the
-- theorems at concrete inputs.
use oxiscale.Prelude.{
  ℕ, ◌+◌, ◌-◌, ◌≤◌, ◌<◌, ◌≡◌, refl, sym, ap, ◌∙◌, true, false, some, List, [], ◌∷◌, ◌++◌, ok, err,
  arith, ◌⊎◌,
}
use mathlib.Core.List.{map}
use oxiscale.Noise.FramedIo
use oxiscale.Noise.FramedIo.{FramedIo}
use oxiscale.Noise.Error.{unsupported_version}
use oxiscale.Noise.Responder.{Framed, Accepted}
use oxiscale.Noise.Responder.Tests.{open_socket, open_IsSocket}
use oxiscale.Noise.Responder.Open.{IsOpen}
use oxiscale.Noise.Client.{Writer, IsWriter, writer_socket, accept_initiation, exchange}
use oxiscale.Noise.Client.Greeted.{initiate-decided, exchange-agrees}
use oxiscale.Noise.Client.Toy.{spell, toy_ts, toy_IsTs, toy_initiation, toy_client, toy_IsClient}

abbrev pub Stream : Type 0
Stream = FramedIo (Framed toy_ts open_socket) (List ℕ)

abbrev pub seal : List ℕ → Stream → Stream
seal bytes stream = record {
  inner = (stream.inner.0 ++ map (λ b. b + stream.inner.1) bytes, stream.inner.1);
  chunk = stream.chunk;
}

abbrev pub toy_writer : Writer toy_ts open_socket
toy_writer = record {
  write_all = λ bytes stream. (ok tt, seal bytes stream);
  flush = λ stream. (ok tt, stream);
}

unsealed :
    (key : ℕ) (bytes more : List ℕ)
    → (later : List ℕ) × (map (λ b. b - key) (map (λ b. b + key) bytes ++ more) ≡ bytes ++ later)
unsealed key [] more = (map (λ b. b - key) more, refl)
unsealed key (b ∷ bytes) more =
    let same : b + key - key ≡ b = omega arith in
    let (later, rest) = unsealed key bytes more in (later, rw (same, rest))

unseal :
    (session : ℕ) (bytes s : List ℕ) (s1 s2 : Stream)
    → toy_writer.write_all bytes (FramedIo.new (s, session)) ≡ (ok tt, s1)
    → toy_writer.flush s1 ≡ (ok tt, s2)
    → (wire : List ℕ) × (s2.inner.0 ≡ s ++ wire)
      × ((own : ℕ) (more : List ℕ)
          → own ≡ session
          → (later : List ℕ) × (toy_client.decrypt own (wire ++ more) ≡ bytes ++ later))
unfolding FramedIo.new
unseal session bytes s s1 s2 e f = (
  map (λ b. b + session) bytes,
  sym (ap (λ q. q.1.inner.0) f) ∙ sym (ap (λ q. q.1.inner.0) e),
  λ own more same. rw same (unsealed session bytes more),
)

pub toy_IsWriter : IsWriter toy_writer toy_client open_IsSocket (λ own session. own ≡ session)
unfolding open_IsSocket
toy_IsWriter = record { delivers = unseal }

pub socket_IsOpen : IsOpen toy_ts open_socket
socket_IsOpen = record { writes = λ bytes s. refl; flushes = λ s. refl }

pub writer_IsOpen : IsOpen toy_ts (writer_socket toy_writer)
writer_IsOpen = record { writes = λ bytes s. refl; flushes = λ s. refl }

abbrev pub header : ℕ → List ℕ
header v = map spell (toy_initiation v true false)

exchange-agrees_example :
    exchange toy_ts open_socket toy_writer toy_client open_IsSocket 4 5 6 true false 113 []
    ≡ some (8, record { node_key_challenge = 8 })
unfolding toy_IsClient
exchange-agrees_example =
    exchange-agrees toy_ts open_socket toy_client toy_IsClient toy_writer open_IsSocket 4 5 6 true
      false 113 (8 ∷ []) [] toy_IsTs toy_IsWriter socket_IsOpen writer_IsOpen (omega arith)
      (omega arith) refl (omega arith)

initiate-decided_example :
    ((112 < 113)
      × (accept_initiation toy_ts open_socket toy_client 4 5 6 true false 112 []
          ≡ (some (err (unsupported_version 112 113)), [])))
    ⊎ ((113 ≤ 112)
        × ((a : Accepted toy_ts open_socket) × ((accept_initiation toy_ts open_socket toy_client 4 5
                6 true false 112 []).0
              ≡ some (ok a))
            × (a.capability_version ≡ 112)
            × (a.peer_machine_key ≡ true)
            × (a.node_key_challenge ≡ 8)))
unfolding toy_IsClient
initiate-decided_example =
    initiate-decided toy_ts open_socket toy_client toy_IsClient 4 5 6 true false 112 [] toy_IsTs
      socket_IsOpen (omega arith)
