-- ===== src/Noise/Stream/Writing.antt =====
-- Writing on the `NoiseStream` of crates/noise/src/responder.rs with tokio's `write_all` and `flush`.
use oxiscale.Prelude.{ℕ, ◌≡◌, refl, ◌∙◌, List, ◌++◌, none, ok}
use oxiscale.Noise.Ts.{Ts, Socket, IsSocket}
use oxiscale.Noise.FramedIo
use oxiscale.Noise.FramedIo.{FramedIo, ready}
use oxiscale.Noise.FramedIo.Tokio.{Wrote, Flushed, Tokio, IsTokio, Wrote-taken, Flushed-taken}
use oxiscale.Noise.FramedIo.Sends.{
  Sends, polled, nothing_sent, Sends-trans, Wrote-Sends, Flushed-Sends,
}
use oxiscale.Noise.Responder.{Framed}
use oxiscale.Noise.Client.{Client, Writer, IsWriter}
use oxiscale.Noise.Stream.{BytesMut, bytes_mut_buf, BiCodec, codec_transport, IsBiCodec}

module _ (ts : Ts) (socket : Socket) (bytes_mut : BytesMut) (codec : BiCodec ts socket) where
  -- The server's end of an accepted connection.
  abbrev pub noise_writer :
      Tokio (bytes_mut_buf bytes_mut) (codec_transport bytes_mut codec) → Writer ts socket
  noise_writer tokio = record { write_all = tokio.write_all; flush = tokio.flush }

  module _ (client : Client ts) (laws : IsSocket socket)
      (Pairs : client.Session → ts.Session → Type 0)
      (coded : IsBiCodec bytes_mut codec client laws Pairs) where
    -- What is first written on a new stream and flushed: a paired session reads it from what was
    -- sent, no chunk is held, and the server has done nothing but send.
    pub record Delivered (session : ts.Session) (s : socket.State) (bytes : List ℕ)
        (io : FramedIo (Framed ts socket) (List ℕ)) : Type 0 where
      pub wire : List ℕ
      pub sent : laws.sent io.inner.0 ≡ laws.sent s ++ wire
      pub reads :
          (own : client.Session) (more : List ℕ)
          → Pairs own session
          → (later : List ℕ) × (client.decrypt own (wire ++ more) ≡ bytes ++ later)
      pub unread : FramedIo.chunk io ≡ none
      pub only_sends :
          Sends (bytes_mut_buf bytes_mut) (codec_transport bytes_mut codec) (s, session) io.inner

    -- What is written and flushed on a new stream is delivered.
    pub Wrote-Delivered :
        (session : ts.Session) (bytes : List ℕ) (s : socket.State)
        {io1 io2 : FramedIo (Framed ts socket) (List ℕ)}
        → Wrote
            (bytes_mut_buf bytes_mut)
            (codec_transport bytes_mut codec)
            bytes
            (FramedIo.new (s, session))
            io1
        → Flushed (bytes_mut_buf bytes_mut) (codec_transport bytes_mut codec) io1 io2
        → Delivered session s bytes io2
    unfolding FramedIo.new
    Wrote-Delivered session bytes s {io1} {io2} wrote ended =
        let buf = bytes_mut_buf bytes_mut in
        let transport = codec_transport bytes_mut codec in
        let (took, kept) = Wrote-taken buf transport coded.sink wrote in
        let (t, polls, done, still) = Flushed-Sends buf transport ended in
        let all = Flushed-taken buf transport coded.sink coded.quiet ended ∙ took in
        let sends = Sends-trans buf transport (Wrote-Sends buf transport wrote) polls in
        let (wire, sent, reads) = coded.codes session s t io2.inner bytes sends done all in
        record {
          wire = wire;
          sent = sent;
          reads = reads;
          unread = still ∙ kept;
          only_sends =
              Sends-trans buf transport sends (polled (ready (ok tt)) done (nothing_sent refl));
        }

    -- The encrypted stream keeps to what the handshake asks of a writer.
    pub noise_writer-IsWriter :
        (tokio : Tokio (bytes_mut_buf bytes_mut) (codec_transport bytes_mut codec))
        (backlog : Framed ts socket → ℕ)
        → IsTokio (bytes_mut_buf bytes_mut) (codec_transport bytes_mut codec) tokio backlog
        → IsWriter (noise_writer tokio) client laws Pairs
    noise_writer-IsWriter tokio backlog runs = record {
      delivers = λ session bytes s s1 s2 e f.
          let d = Wrote-Delivered session bytes s (runs.writes _ _ _ e) (runs.flushes _ _ f) in
          (d.wire, d.sent, d.reads);
    }
