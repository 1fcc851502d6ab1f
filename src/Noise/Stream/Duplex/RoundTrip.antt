-- ===== src/Noise/Stream/Duplex/RoundTrip.antt =====
-- The two directions of a connection of crates/noise/src/responder.rs, from a handshake to a reply.
use oxiscale.Prelude.{
  ℕ, ◌≤◌, ◌<◌, ◌^◌, ◌≡◌, refl, sym, ap, ◌∙◌, some, List, [], ◌++◌, ok, length, take, drop,
  append-nil, append_assoc, drop-length_append, take-length_append, arith,
}
use oxiscale.Noise.Ts.{Ts, IsTs, Socket, IsSocket}
use oxiscale.Noise.Text.{prologue}
use oxiscale.Noise.FramedIo
use oxiscale.Noise.FramedIo.{FramedIo, IsBuf}
use oxiscale.Noise.FramedIo.Read.{content}
use oxiscale.Noise.FramedIo.Tokio.{Tokio, IsTokio, ReadExactly-content}
use oxiscale.Noise.Responder.{
  send_response, ◌>>◌, and_then, send, flush_socket, sending, response_header,
}
use oxiscale.Noise.Responder.Open.{IsOpen}
use oxiscale.Noise.Responder.Session.{accept_opened, send_response-sent, response_message}
use oxiscale.Noise.Responder.EarlyFrame.{read_body-append}
use oxiscale.Noise.Client.{Client, IsClient, Opens, writer_socket}
use oxiscale.Noise.Client.Greeted.{initiation_message-IsInitiation}
use oxiscale.Noise.Stream.{
  BytesMut, bytes_mut_buf, BiCodec, codec_transport, Inbox, IsInbox, IsBiCodec, IsDecoder,
}
use oxiscale.Noise.Stream.Writing.{noise_writer, Delivered, Wrote-Delivered}
use oxiscale.Noise.Stream.Duplex.{
  NoiseStream, arrive_on, server_writes, client_reads, server_reads, round_trip,
}

front_same : (xs ys zs : List ℕ) → xs ≡ zs ++ ys → length zs ≡ length xs → zs ≡ xs
front_same xs ys zs whole same =
    sym (take-length_append zs ys)
    ∙ ap (λ n. take n (zs ++ ys)) same
    ∙ ap (take (length xs)) (sym whole ∙ sym (append-nil xs))
    ∙ take-length_append xs []

module _ (ts : Ts) (socket : Socket) (inbox : Inbox socket) (waits : IsInbox inbox) where
  -- The response leaves alone what waits to be read.
  send_response-waits :
      (resp : List ℕ) (s : socket.State)
      → IsOpen ts socket
      → waits.waiting (send_response ts socket resp s).1 ≡ waits.waiting s
  unfolding send_response ◌>>◌ and_then send flush_socket sending
  send_response-waits resp s opens =
      let head = response_header ts socket in
      let s1 = (socket.write_all head s).1 in
      let s2 = (socket.write_all resp s1).1 in
      let s3 = (socket.flush s2).1 in
      let first : socket.write_all head s ≡ (ok tt, s1) = ap (λ z. (z, s1)) (opens.writes head s) in
      let second : socket.write_all resp s1 ≡ (ok tt, s2) =
        ap (λ z. (z, s2)) (opens.writes resp s1) in
      let third : socket.flush s2 ≡ (ok tt, s3) = ap (λ z. (z, s3)) (opens.flushes s2) in
      rw (first, second, third)
        (waits.flush_waits s2 s3 third
          ∙ waits.write_all_waits resp s1 s2 second
          ∙ waits.write_all_waits head s s1 first)

module _ (ts : Ts) (socket : Socket) (bytes_mut : BytesMut) (codec : BiCodec ts socket)
    (tokio : Tokio (bytes_mut_buf bytes_mut) (codec_transport bytes_mut codec))
    (inbox : Inbox socket) (client : Client ts) where
  -- A read of no more than is left comes to an end.
  pub record IsLive (bytes_laws : IsBuf (bytes_mut_buf bytes_mut)) (waits : IsInbox inbox)
      (Pairs : client.Session → ts.Session → Type 0)
      (decoder : IsDecoder bytes_mut bytes_laws codec client inbox waits Pairs) : Type 0 where
    pub ends :
        (n : ℕ) (io : NoiseStream ts socket bytes_mut codec tokio inbox client)
        → n
          ≤ length (
              content
                (bytes_mut_buf bytes_mut)
                (codec_transport bytes_mut codec)
                bytes_laws
                decoder.stream
                io)
        → (bytes : List ℕ) × (io' : NoiseStream ts socket bytes_mut codec tokio inbox client)
          × (tokio.read_exact n io ≡ (ok bytes, io'))

  module _ (bytes_laws : IsBuf (bytes_mut_buf bytes_mut)) (waits : IsInbox inbox)
      (laws : IsSocket socket) (honest : IsClient ts client)
      (coded : IsBiCodec bytes_mut codec client laws honest.Pairs)
      (decoder : IsDecoder bytes_mut bytes_laws codec client inbox waits honest.Pairs)
      (runs : IsTokio
        (bytes_mut_buf bytes_mut)
        (codec_transport bytes_mut codec)
        tokio
        decoder.stream.backlog) where
    -- On a stream that does not fail, a greeting is written, flushed and delivered.
    server_writes-Delivered :
        (session : ts.Session) (s : socket.State) (greeting : List ℕ)
        → IsOpen ts (writer_socket (noise_writer ts socket bytes_mut codec tokio))
        → (io : NoiseStream ts socket bytes_mut codec tokio inbox client) × (server_writes ts socket
              bytes_mut codec tokio inbox client greeting
              (FramedIo.new (s, session))
            ≡ some io)
          × Delivered ts socket bytes_mut codec client laws honest.Pairs coded session s greeting io
    unfolding server_writes
    server_writes-Delivered session s greeting opens =
        let io = FramedIo.new (s, session) in
        let io1 = (tokio.write_all greeting io).1 in
        let io2 = (tokio.flush io1).1 in
        let wrote : tokio.write_all greeting io ≡ (ok tt, io1) =
          ap (λ z. (z, io1)) (opens.writes greeting io) in
        let ended : tokio.flush io1 ≡ (ok tt, io2) = ap (λ z. (z, io2)) (opens.flushes io1) in
        (
          io2,
          rw (wrote, ended) refl,
          Wrote-Delivered ts socket bytes_mut codec client laws honest.Pairs coded session greeting
              s (runs.writes greeting io io1 wrote) (runs.flushes io1 io2 ended),
        )

    -- The server reads back what a paired client has put on the wire for it.
    server_reads-reply :
        (session : ts.Session) (own : client.Session) (s : socket.State) (greeting reply : List ℕ)
        (io : NoiseStream ts socket bytes_mut codec tokio inbox client)
        → IsLive bytes_laws waits honest.Pairs decoder
        → honest.Pairs own session
        → waits.waiting s ≡ []
        → Delivered ts socket bytes_mut codec client laws honest.Pairs coded session s greeting io
        → server_reads ts socket bytes_mut codec tokio inbox client
            (length reply)
            (arrive_on ts socket bytes_mut codec tokio inbox client (client.encrypt own reply) io)
          ≡ some reply
    unfolding server_reads
    server_reads-reply session own s greeting reply io live pairs idle d =
        let io' =
          arrive_on ts socket bytes_mut codec tokio inbox client (client.encrypt own reply) io in
        let left : content (bytes_mut_buf bytes_mut) (codec_transport bytes_mut codec) bytes_laws
              decoder.stream io'
            ≡ reply =
          rw d.unread (decoder.decodes session own s io.inner reply pairs idle d.only_sends) in
        let (bytes, io2, read) = live.ends (length reply) io' (omega (arith, ap length left)) in
        let (split, long) =
          ReadExactly-content (bytes_mut_buf bytes_mut) (codec_transport bytes_mut codec) bytes_laws
            decoder.stream (runs.reads (length reply) bytes io' io2 read) in
        rw read (ap some (front_same reply _ bytes (sym left ∙ split) long))

    -- The client completes on the response and reads the greeting behind it.
    client_reads-greeting :
        (v : ℕ) (client_key server_key : ts.MachinePrivateKey) (x eph : ts.Random)
        (o : Opens ts client honest.Pairs v client_key server_key x) (s : socket.State)
        (greeting : List ℕ) (io : NoiseStream ts socket bytes_mut codec tokio inbox client)
        → Delivered ts socket bytes_mut codec client laws honest.Pairs coded
            (ts.finish o.received eph).1
            s
            greeting
            io
        → (already : List ℕ)
        → laws.sent s ≡ already ++ response_message ts (ts.finish o.received eph).0
        → (own : client.Session) × honest.Pairs own (ts.finish o.received eph).1
          × (client_reads ts socket bytes_mut codec tokio inbox client
                (client.initialize (prologue v) client_key (client.public_key server_key) v x).0
                client_key
                (length greeting)
                (drop (length already) (laws.sent io.inner.0))
              ≡ some (own, greeting))
    unfolding client_reads
    client_reads-greeting v client_key server_key x eph o s greeting io d already responded =
        let resp = response_message ts (ts.finish o.received eph).0 in
        let (own, completed, pairs) = o.completed eph (d.wire ++ []) in
        let (later, decrypted) = d.reads own [] pairs in
        let received : drop (length already) (laws.sent io.inner.0) ≡ resp ++ (d.wire ++ []) =
          ap (drop (length already))
            (d.sent ∙ ap (λ z. z ++ d.wire) responded ∙ append_assoc already resp d.wire)
          ∙ drop-length_append already (resp ++ d.wire)
          ∙ ap (λ z. resp ++ z) (sym (append-nil d.wire)) in
        (
          own,
          pairs,
          rw
              (
                received,
                completed,
                decrypted,
                read_body-append (length greeting) greeting later refl,
              )
              refl,
        )

    -- Where nothing fails and the client has sent nothing yet, a client that initiates with a supported
    -- version is accepted with that version and its own key, reads the greeting that the server writes,
    -- and the server reads the client's reply, byte for byte.
    pub round_trip-agrees :
        (x eph secret : ts.Random) (client_key server_key : ts.MachinePrivateKey) (v : ℕ)
        (greeting reply : List ℕ) (s : socket.State)
        → IsTs ts
        → IsOpen ts socket
        → IsOpen ts (writer_socket (noise_writer ts socket bytes_mut codec tokio))
        → IsLive bytes_laws waits honest.Pairs decoder
        → waits.waiting s ≡ []
        → 113 ≤ v
        → v < 2 ^ 16
        → round_trip ts socket bytes_mut codec tokio inbox client laws x eph secret client_key
            server_key v greeting reply s
          ≡ some (record {
            capability_version = v;
            peer_machine_key = client.public_key client_key;
            greeting = greeting;
            reply = reply;
          })
    unfolding round_trip
    round_trip-agrees x eph secret client_key server_key v greeting reply s crypto open_socket
          open_stream live idle least fits =
        let o = honest.initiates v client_key server_key x fits in
        let (resp, session) = ts.finish o.received eph in
        let s' = (send_response ts socket resp s).1 in
        let accepts =
          accept_opened ts socket eph secret server_key _ _ o.payload v s o.received crypto
            open_socket o.decodes
            (initiation_message-IsInitiation ts socket client honest v client_key server_key x o
              least fits)
            o.opened in
        let (io, wrote, d) = server_writes-Delivered session s' greeting open_stream in
        let (own, pairs, greeted) =
          client_reads-greeting v client_key server_key x eph o s' greeting io d (laws.sent s)
            (send_response-sent ts socket laws o.received eph s crypto open_socket) in
        let answered =
          server_reads-reply session own s' greeting reply io live pairs
            (send_response-waits ts socket inbox waits resp s open_socket ∙ idle) d in
        rw (accepts, wrote, greeted, answered, o.peer) refl
