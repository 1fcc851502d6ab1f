-- ===== src/Noise/FramedIo/Write.antt =====
-- Writing to crates/noise/src/framed_io.rs over a sink that reports what it has taken.
use oxiscale.Prelude.{ℕ, ◌≡◌, refl, ap, ◌∙◌, List, ◌++◌, Result, ok, err, length}
use oxiscale.Store.Types.{IoError}
use oxiscale.Noise.FramedIo.{
  FramedIo, Poll, ready, pending, Buf, Transport, Io, sent_on, write_ready, poll_write,
}

module _ (buf : Buf) (transport : Transport buf) where
  open transport use {T, poll_ready, start_send}

  -- Asking whether the sink is ready takes nothing, and an item that it accepts when it has just said
  -- that it is ready is taken whole.
  pub record IsSink : Type 0 where
    pub taken : T → List ℕ
    pub ready_takes :
        (t t' : T) (r : Poll (Result IoError (Unit {0})))
        → poll_ready t ≡ (r, t')
        → taken t' ≡ taken t
    pub send_takes :
        (bytes : List ℕ) (asked t t' : T)
        → poll_ready asked ≡ (ready (ok tt), t)
        → start_send bytes t ≡ (ok tt, t')
        → taken t' ≡ taken t ++ bytes

  module _ (sink : IsSink) where
    open sink use {taken}

    -- A write takes all the bytes or waits without taking any, and leaves the chunk that is being
    -- read alone.
    abbrev pub Writes :
        List ℕ → Io buf transport → Poll (Result IoError ℕ) × Io buf transport → Type 0
    Writes bytes io (ready (ok n), io') =
        (n ≡ length bytes)
        × (taken io'.inner ≡ taken io.inner ++ bytes)
        × (FramedIo.chunk io' ≡ FramedIo.chunk io)
    Writes bytes io (ready (err e), io') = FramedIo.chunk io' ≡ FramedIo.chunk io
    Writes bytes io (pending, io') =
        (taken io'.inner ≡ taken io.inner) × (FramedIo.chunk io' ≡ FramedIo.chunk io)

    sent-Writes :
        (bytes : List ℕ) (io : Io buf transport) (t : T) (q : Result IoError (Unit {0}) × T)
        → poll_ready io.inner ≡ (ready (ok tt), t)
        → start_send bytes t ≡ q
        → Writes bytes io (sent_on buf transport bytes io q)
    unfolding sent_on
    sent-Writes bytes io t (ok u, t') asked e = (
      refl,
      sink.send_takes bytes io.inner t t' asked e
          ∙ ap (λ z. z ++ bytes) (sink.ready_takes io.inner t (ready (ok tt)) asked),
      refl,
    )
    sent-Writes bytes io t (err x, t') asked e = refl

    ready-Writes :
        (bytes : List ℕ) (io : Io buf transport) (q : Poll (Result IoError (Unit {0})) × T)
        → poll_ready io.inner ≡ q
        → Writes bytes io (write_ready buf transport bytes io q)
    unfolding write_ready
    ready-Writes bytes io (pending, t) e = (sink.ready_takes io.inner t pending e, refl)
    ready-Writes bytes io (ready (err x), t) e = refl
    ready-Writes bytes io (ready (ok u), t) e = sent-Writes bytes io t _ e refl

    -- A write that is ready has the sink take all the bytes, and says so with their number; one that
    -- waits has it take none; and no write touches the chunk that is being read.
    pub poll_write-Writes :
        (bytes : List ℕ) (io : Io buf transport)
        → Writes bytes io (poll_write buf transport bytes io)
    unfolding poll_write
    poll_write-Writes bytes io = ready-Writes bytes io (poll_ready io.inner) refl
