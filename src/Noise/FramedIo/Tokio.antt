-- ===== src/Noise/FramedIo/Tokio.antt =====
-- `write_all`, `flush` and `read_exact` of tokio's extension traits over the polls of
-- crates/noise/src/framed_io.rs. They are parameters; what is relied on is that a call which succeeds is
-- a run of polls.
use oxiscale.Prelude.{
  ℕ, ◌-◌, ◌<◌, ◌≡◌, refl, sym, ap, ◌∙◌, subst, some, List, [], ◌∷◌, ◌++◌, append_assoc, append-nil,
  Result, ok, length, length-append, drop, arith,
}
use oxiscale.Store.Types.{IoError}
use oxiscale.Noise.Ts.{Socket, IsSocket}
use oxiscale.Noise.FramedIo.{
  FramedIo, Poll, ready, pending, Buf, IsBuf, Transport, Io, poll_read, poll_write,
  poll_flush_inner,
}
use oxiscale.Noise.FramedIo.Read.{IsStream, content, Reads, poll_read-Reads}
use oxiscale.Noise.FramedIo.Write.{IsSink, Writes, poll_write-Writes}

pub drop-length : (xs : List ℕ) → drop (length xs) xs ≡ []
drop-length [] = refl
drop-length (x ∷ xs) = drop-length xs

module _ (buf : Buf) (transport : Transport buf) where
  open transport use {T, poll_flush}

  -- Writes until nothing is left of the bytes.
  pub data Wrote : List ℕ → Io buf transport → Io buf transport → Type 0 where
    all_written :
        {bytes : List ℕ} {io io' : Io buf transport} → bytes ≡ [] → io' ≡ io → Wrote bytes io io'
    some_written :
        {bytes : List ℕ} {io io1 io2 : Io buf transport} (n : ℕ)
        → poll_write buf transport bytes io ≡ (ready (ok n), io1)
        → Wrote (drop n bytes) io1 io2
        → Wrote bytes io io2
    not_ready :
        {bytes : List ℕ} {io io1 io2 : Io buf transport}
        → poll_write buf transport bytes io ≡ (pending, io1)
        → Wrote bytes io1 io2
        → Wrote bytes io io2

  -- Flushes until one is done.
  pub data Flushed : Io buf transport → Io buf transport → Type 0 where
    flushed :
        {io io' : Io buf transport}
        → poll_flush_inner buf transport io ≡ (ready (ok tt), io')
        → Flushed io io'
    flushing :
        {io io1 io2 : Io buf transport}
        → poll_flush_inner buf transport io ≡ (pending, io1)
        → Flushed io1 io2
        → Flushed io io2

  -- Reads until there are so many bytes. A read that puts none is the end of the stream, an error.
  pub data ReadExactly (backlog : T → ℕ)
      : ℕ → List ℕ → Io buf transport → Io buf transport → Type 0 where
    all_read :
        {n : ℕ} {bytes : List ℕ} {io io' : Io buf transport}
        → n ≡ 0
        → bytes ≡ []
        → io' ≡ io
        → ReadExactly backlog n bytes io io'
    some_read :
        {n : ℕ} {bytes : List ℕ} {io io1 io2 : Io buf transport} (fuel : ℕ) (put rest : List ℕ)
        → backlog io.inner < fuel
        → poll_read buf transport fuel n io ≡ some (ready (ok put), io1)
        → 0 < length put
        → bytes ≡ put ++ rest
        → ReadExactly backlog (n - length put) rest io1 io2
        → ReadExactly backlog n bytes io io2
    nothing_yet :
        {n : ℕ} {bytes : List ℕ} {io io1 io2 : Io buf transport} (fuel : ℕ)
        → backlog io.inner < fuel
        → poll_read buf transport fuel n io ≡ some (pending, io1)
        → ReadExactly backlog n bytes io1 io2
        → ReadExactly backlog n bytes io io2

  pub record Tokio : Type 0 where
    pub write_all : List ℕ → Io buf transport → Result IoError (Unit {0}) × Io buf transport
    pub flush : Io buf transport → Result IoError (Unit {0}) × Io buf transport
    pub read_exact : ℕ → Io buf transport → Result IoError (List ℕ) × Io buf transport

  abbrev pub stream_socket : Tokio → Socket
  stream_socket tokio = record {
    State = Io buf transport;
    write_all = tokio.write_all;
    flush = tokio.flush;
  }

  pub record IsTokio (tokio : Tokio) (backlog : T → ℕ) : Type 0 where
    pub writes :
        (bytes : List ℕ) (io io' : Io buf transport)
        → tokio.write_all bytes io ≡ (ok tt, io')
        → Wrote bytes io io'
    pub flushes : (io io' : Io buf transport) → tokio.flush io ≡ (ok tt, io') → Flushed io io'
    pub reads :
        (n : ℕ) (bytes : List ℕ) (io io' : Io buf transport)
        → tokio.read_exact n io ≡ (ok bytes, io')
        → ReadExactly backlog n bytes io io'

  -- Flushing the sink takes nothing more.
  pub record IsFlushed (sink : IsSink buf transport) : Type 0 where
    pub flush_takes :
        (t t' : T) (r : Poll (Result IoError (Unit {0})))
        → poll_flush t ≡ (r, t')
        → sink.taken t' ≡ sink.taken t

  module _ (sink : IsSink buf transport) where
    open sink use {taken}

    -- Where tokio's `write_all` gets to its end, through whatever waits and writes, a sink that takes an
    -- item only when it has just said that it is ready has taken exactly the bytes, once and in order,
    -- and the chunk that is being read stays.
    pub Wrote-taken :
        {bytes : List ℕ} {io io' : Io buf transport}
        → Wrote bytes io io'
        → (taken io'.inner ≡ taken io.inner ++ bytes) × (FramedIo.chunk io' ≡ FramedIo.chunk io)
    Wrote-taken {bytes} {io} {io'} (all_written nothing same) =
        (rw (same, nothing) (sym (append-nil (taken io.inner))), rw same)
    Wrote-taken {bytes} {io} {io'} (some_written {io1 = io1} n polled later) =
        let (all, took, kept) =
          subst (Writes buf transport sink bytes io) polled
            (poll_write-Writes buf transport sink bytes io) in
        let (rest, still) = Wrote-taken later in
        let done : drop n bytes ≡ [] = ap (λ z. drop z bytes) all ∙ drop-length bytes in
        (
          rest ∙ ap (λ z. taken io1.inner ++ z) done ∙ append-nil (taken io1.inner) ∙ took,
          still ∙ kept,
        )
    Wrote-taken {bytes} {io} {io'} (not_ready polled later) =
        let (took, kept) =
          subst (Writes buf transport sink bytes io) polled
            (poll_write-Writes buf transport sink bytes io) in
        let (rest, still) = Wrote-taken later in (rest ∙ ap (λ z. z ++ bytes) took, still ∙ kept)

    module _ (quiet : IsFlushed sink) where
      pub Flushed-taken :
          {io io' : Io buf transport} → Flushed io io' → taken io'.inner ≡ taken io.inner
      unfolding poll_flush_inner
      Flushed-taken {io} {io'} (flushed done) =
          let to : (poll_flush io.inner).1 ≡ io'.inner = ap (λ q. q.1.inner) done in
          ap taken (sym to) ∙ quiet.flush_takes io.inner _ _ refl
      Flushed-taken {io} {io'} (flushing {io1 = io1} waits later) =
          let to : (poll_flush io.inner).1 ≡ io1.inner = ap (λ q. q.1.inner) waits in
          Flushed-taken later ∙ ap taken (sym to) ∙ quiet.flush_takes io.inner _ _ refl

      -- Over a sink that keeps to its contract, the byte stream is a socket that reports what was
      -- sent on it.
      pub stream_IsSocket :
          (tokio : Tokio) (backlog : T → ℕ) → IsTokio tokio backlog → IsSocket (stream_socket tokio)
      stream_IsSocket tokio backlog laws = record {
        sent = λ io. taken io.inner;
        write_all_sends = λ bytes s s' e. (Wrote-taken (laws.writes bytes s s' e)).0;
        flush_sends = λ s s' e. Flushed-taken (laws.flushes s s' e);
      }

  module _ (buf_laws : IsBuf buf) (stream : IsStream buf transport buf_laws) where
    -- What is read are the next bytes, as many as were asked for.
    pub ReadExactly-content :
        {n : ℕ} {bytes : List ℕ} {io io' : Io buf transport}
        → ReadExactly stream.backlog n bytes io io'
        → (content buf transport buf_laws stream io
            ≡ bytes ++ content buf transport buf_laws stream io')
          × (length bytes ≡ n)
    ReadExactly-content {n} {bytes} {io} {io'} (all_read none_asked nothing same) =
        (rw (nothing, same), rw (nothing, none_asked))
    ReadExactly-content {n} {bytes} {io} {io'}
          (some_read {io1 = io1} fuel put rest enough polled some_put whole later) =
        let (split, fits, _) =
          subst (Reads buf transport buf_laws stream n io) polled
            (poll_read-Reads buf transport buf_laws stream fuel n io enough) in
        let (more, long) = ReadExactly-content later in
        (
          split
              ∙ ap (λ z. put ++ z) more
              ∙ sym (append_assoc put rest (content buf transport buf_laws stream io'))
              ∙ ap (λ z. z ++ content buf transport buf_laws stream io') (sym whole),
          omega (arith, ap length whole, length-append put rest, long, fits),
        )
    ReadExactly-content {n} {bytes} {io} {io'} (nothing_yet {io1 = io1} fuel enough polled later) =
        let same =
          subst (Reads buf transport buf_laws stream n io) polled
            (poll_read-Reads buf transport buf_laws stream fuel n io enough) in
        let (more, long) = ReadExactly-content later in (sym same ∙ more, long)
