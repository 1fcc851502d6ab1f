-- ===== src/Noise/FramedIo/Sends.antt =====
-- What a write and a flush on crates/noise/src/framed_io.rs do to the sink.
use oxiscale.Prelude.{ℕ, ◌≡◌, refl, sym, ap, ◌∙◌, subst, List, Result, ok, err}
use oxiscale.Store.Types.{IoError}
use oxiscale.Noise.FramedIo.{
  FramedIo, Poll, ready, pending, Buf, Transport, Io, poll_write, poll_flush_inner, write_ready,
  sent_on,
}
use oxiscale.Noise.FramedIo.Tokio.{
  Wrote, all_written, some_written, not_ready, Flushed, flushed, flushing,
}

module _ (buf : Buf) (transport : Transport buf) where
  open transport use {T, poll_ready, start_send, poll_flush}

  pub data Sends : T → T → Type 0 where
    nothing_sent : {t t' : T} → t' ≡ t → Sends t t'
    readied :
        {t t1 t' : T} (r : Poll (Result IoError (Unit {0})))
        → poll_ready t ≡ (r, t1)
        → Sends t1 t'
        → Sends t t'
    started :
        {t t1 t' : T} (bytes : List ℕ) → start_send bytes t ≡ (ok tt, t1) → Sends t1 t' → Sends t t'
    polled :
        {t t1 t' : T} (r : Poll (Result IoError (Unit {0})))
        → poll_flush t ≡ (r, t1)
        → Sends t1 t'
        → Sends t t'

  pub Sends-trans : {t t1 t2 : T} → Sends t t1 → Sends t1 t2 → Sends t t2
  Sends-trans {t} {t1} {t2} (nothing_sent same) later = subst (λ z. Sends z t2) same later
  Sends-trans (readied r e rest) later = readied r e (Sends-trans rest later)
  Sends-trans (started bytes e rest) later = started bytes e (Sends-trans rest later)
  Sends-trans (polled r e rest) later = polled r e (Sends-trans rest later)

  -- A write that is not refused is a write on the sink.
  abbrev Polls : Io buf transport → Poll (Result IoError ℕ) × Io buf transport → Type 0
  Polls io (ready (ok n), io') = Sends io.inner io'.inner
  Polls io (ready (err e), io') = Unit
  Polls io (pending, io') = Sends io.inner io'.inner

  sent-Polls :
      (bytes : List ℕ) (io : Io buf transport) (t : T) (q : Result IoError (Unit {0}) × T)
      → poll_ready io.inner ≡ (ready (ok tt), t)
      → start_send bytes t ≡ q
      → Polls io (sent_on buf transport bytes io q)
  unfolding sent_on
  sent-Polls bytes io t (ok u, t') e f =
      readied (ready (ok tt)) e (started bytes f (nothing_sent refl))
  sent-Polls bytes io t (err x, t') e f = tt

  ready-Polls :
      (bytes : List ℕ) (io : Io buf transport) (q : Poll (Result IoError (Unit {0})) × T)
      → poll_ready io.inner ≡ q
      → Polls io (write_ready buf transport bytes io q)
  unfolding write_ready
  ready-Polls bytes io (pending, t) e = readied pending e (nothing_sent refl)
  ready-Polls bytes io (ready (err x), t) e = tt
  ready-Polls bytes io (ready (ok u), t) e = sent-Polls bytes io t _ e refl

  poll_write-Polls :
      (bytes : List ℕ) (io : Io buf transport) → Polls io (poll_write buf transport bytes io)
  unfolding poll_write
  poll_write-Polls bytes io = ready-Polls bytes io (poll_ready io.inner) refl

  pub Wrote-Sends :
      {bytes : List ℕ} {io io' : Io buf transport}
      → Wrote buf transport bytes io io'
      → Sends io.inner io'.inner
  Wrote-Sends (all_written nothing same) = nothing_sent (ap (λ z. z.inner) same)
  Wrote-Sends {bytes} {io} (some_written n e later) =
      Sends-trans (subst (Polls io) e (poll_write-Polls bytes io)) (Wrote-Sends later)
  Wrote-Sends {bytes} {io} (not_ready e later) =
      Sends-trans (subst (Polls io) e (poll_write-Polls bytes io)) (Wrote-Sends later)

  -- A flush that ends: polls of the sink, the last of which is done, and the chunk that is being
  -- read stays.
  pub Flushed-Sends :
      {io io' : Io buf transport}
      → Flushed buf transport io io'
      → (t : T) × Sends io.inner t
        × (poll_flush t ≡ (ready (ok tt), io'.inner))
        × (FramedIo.chunk io' ≡ FramedIo.chunk io)
  unfolding poll_flush_inner
  Flushed-Sends {io} {io'} (flushed done) =
      (io.inner, nothing_sent refl, ap (λ q. (q.0, q.1.inner)) done, sym (ap (λ q. q.1.chunk) done))
  Flushed-Sends {io} {io'} (flushing waits later) =
      let (t, sends, done, kept) = Flushed-Sends later in
      (
        t,
        polled pending (ap (λ q. (q.0, q.1.inner)) waits) sends,
        done,
        kept ∙ sym (ap (λ q. q.1.chunk) waits),
      )
