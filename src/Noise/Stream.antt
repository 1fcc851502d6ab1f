-- ===== src/Noise/Stream.antt =====
-- crates/noise/src/responder.rs: `NoiseStream`, the byte stream over a socket that a session codes.
-- `BytesMut` of the crate `bytes`, and `Framed` of the crate `tokio_util` with the codec of
-- `ts_control_noise`, are parameters.
pub mod Writing
pub mod Duplex
mod Sealed
mod Tests
use oxiscale.Prelude.{ℕ, ◌≡◌, Option, List, [], ◌++◌, Result, ok, err}
use oxiscale.Store.Types.{IoError}
use oxiscale.Noise.Ts.{Ts, Socket, IsSocket}
use oxiscale.Noise.FramedIo.{FramedIo, Poll, ready, Buf, IsBuf, Transport}
use oxiscale.Noise.FramedIo.Read.{IsStream}
use oxiscale.Noise.FramedIo.Sends.{Sends}
use oxiscale.Noise.FramedIo.Tokio.{IsFlushed}
use oxiscale.Noise.FramedIo.Write.{IsSink}
use oxiscale.Noise.Responder.{Framed}
use oxiscale.Noise.Client.{Client}

-- `BytesMut`, whose content is a list of bytes.
pub record BytesMut : Type 0 where
  pub remaining : List ℕ → ℕ
  pub chunk : List ℕ → List ℕ
  pub advance : ℕ → List ℕ → Option (List ℕ)

abbrev pub bytes_mut_buf : BytesMut → Buf
bytes_mut_buf bytes_mut = record {
  B = List ℕ;
  remaining = bytes_mut.remaining;
  chunk = bytes_mut.chunk;
  advance = bytes_mut.advance;
}

-- `Framed<T, BiCodec>` as a stream of chunks and a sink.
pub record BiCodec (ts : Ts) (socket : Socket) : Type 0 where
  pub poll_next : Framed ts socket → Poll (Option (Result IoError (List ℕ))) × Framed ts socket
  pub poll_ready : Framed ts socket → Poll (Result IoError (Unit {0})) × Framed ts socket
  pub start_send : List ℕ → Framed ts socket → Result IoError (Unit {0}) × Framed ts socket
  pub poll_flush : Framed ts socket → Poll (Result IoError (Unit {0})) × Framed ts socket
  pub poll_close : Framed ts socket → Poll (Result IoError (Unit {0})) × Framed ts socket

abbrev pub codec_transport :
    {ts : Ts} {socket : Socket} (bytes_mut : BytesMut)
    → BiCodec ts socket
    → Transport (bytes_mut_buf bytes_mut)
codec_transport {ts} {socket} bytes_mut codec = record {
  T = Framed ts socket;
  poll_next = codec.poll_next;
  poll_ready = codec.poll_ready;
  start_send = codec.start_send;
  poll_flush = codec.poll_flush;
  poll_close = codec.poll_close;
}

-- The sink of a new session: what it has taken when it is flushed was sent in a form from which a
-- session that pairs with it reads it, whatever follows on the wire.
pub record IsBiCodec {ts : Ts} {socket : Socket} (bytes_mut : BytesMut) (codec : BiCodec ts socket)
    (client : Client ts) (laws : IsSocket socket) (Pairs : client.Session → ts.Session → Type 0)
    : Type 0 where
  pub sink : IsSink (bytes_mut_buf bytes_mut) (codec_transport bytes_mut codec)
  pub quiet : IsFlushed (bytes_mut_buf bytes_mut) (codec_transport bytes_mut codec) sink
  pub codes :
      (session : ts.Session) (s : socket.State) (t t' : Framed ts socket) (bytes : List ℕ)
      → Sends (bytes_mut_buf bytes_mut) (codec_transport bytes_mut codec) (s, session) t
      → codec.poll_flush t ≡ (ready (ok tt), t')
      → sink.taken t' ≡ sink.taken (s, session) ++ bytes
      → (wire : List ℕ) × (laws.sent t'.0 ≡ laws.sent s ++ wire)
        × ((own : client.Session) (more : List ℕ)
            → Pairs own session
            → (later : List ℕ) × (client.decrypt own (wire ++ more) ≡ bytes ++ later))

-- The other direction of a socket: what the peer puts on the wire arrives, and waits to be read.
pub record Inbox (socket : Socket) : Type 0 where
  pub arrive : List ℕ → socket.State → socket.State

pub record IsInbox {socket : Socket} (inbox : Inbox socket) : Type 0 where
  pub waiting : socket.State → List ℕ
  pub write_all_waits :
      (bytes : List ℕ) (s s' : socket.State)
      → socket.write_all bytes s ≡ (ok tt, s')
      → waiting s' ≡ waiting s
  pub flush_waits : (s s' : socket.State) → socket.flush s ≡ (ok tt, s') → waiting s' ≡ waiting s

-- The stream of a new session: where nothing else is waiting, what a session that pairs with it puts
-- on the wire is yielded, whatever the server has sent.
pub record IsDecoder {ts : Ts} {socket : Socket} (bytes_mut : BytesMut)
    (bytes_laws : IsBuf (bytes_mut_buf bytes_mut)) (codec : BiCodec ts socket) (client : Client ts)
    (inbox : Inbox socket) (waits : IsInbox inbox) (Pairs : client.Session → ts.Session → Type 0)
    : Type 0 where
  pub stream : IsStream (bytes_mut_buf bytes_mut) (codec_transport bytes_mut codec) bytes_laws
  pub decodes :
      (session : ts.Session) (own : client.Session) (s : socket.State) (t : Framed ts socket)
      (bytes : List ℕ)
      → Pairs own session
      → waits.waiting s ≡ []
      → Sends (bytes_mut_buf bytes_mut) (codec_transport bytes_mut codec) (s, session) t
      → stream.upcoming (inbox.arrive (client.encrypt own bytes) t.0, t.1) ≡ bytes
