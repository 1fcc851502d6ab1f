-- ===== src/Noise/FramedIo/Steady/Polling.antt =====
-- Loops of polls on crates/noise/src/framed_io.rs, which do what is asked of tokio's `write_all`,
-- `flush` and `read_exact`.
use oxiscale.Prelude.{
  ℕ, zero, suc, ◌-◌, ◌≤◌, ◌<◌, ◌≡◌, refl, sym, ap, ◌∙◌, Option, none, some, List, [], ◌∷◌, ◌++◌,
  Result, ok, err, length, length-append, drop, arith, inl, inr,
}
use oxiscale.Store.Types.{IoError, other_kind}
use oxiscale.Noise.FramedIo.{
  Poll, ready, pending, Buf, IsBuf, Transport, Io, poll_read, poll_write, poll_flush_inner,
  write_ready, sent_on,
}
use oxiscale.Noise.FramedIo.Read.{IsStream, content}
use oxiscale.Noise.FramedIo.Write.{IsSink, Writes, poll_write-Writes}
use oxiscale.Noise.FramedIo.Tokio.{
  Tokio, IsTokio, Wrote, all_written, some_written, Flushed, flushed, ReadExactly, all_read,
  some_read, drop-length,
}
use oxiscale.Noise.FramedIo.Steady.{IsSteady, poll_read_steady}

module _ (buf : Buf) (transport : Transport buf) (backlog : transport.T → ℕ) where
  abbrev Answer : Type 0
  Answer = Result IoError (List ℕ) × Io buf transport

  abbrev prepend : List ℕ → Answer → Answer
  prepend put (ok rest, io) = (ok (put ++ rest), io)
  prepend put (err e, io) = (err e, io)

  abbrev read_on :
      ℕ
      → Io buf transport
      → (ℕ → Io buf transport → Answer)
      → Option (Poll (Result IoError (List ℕ)) × Io buf transport)
      → Answer
  read_on n io again none = (err (other_kind 0), io)
  read_on n io again (some (ready (ok []), io1)) = (err (other_kind 0), io1)
  read_on n io again (some (ready (ok (b ∷ put)), io1)) =
      prepend (b ∷ put) (again (n - length (b ∷ put)) io1)
  read_on n io again (some (ready (err e), io1)) = (err e, io1)
  read_on n io again (some (pending, io1)) = (err (other_kind 0), io1)

  abbrev read_loop : ℕ → ℕ → Io buf transport → Answer
  read_loop fuel zero io = (ok [], io)
  read_loop zero (suc n) io = (err (other_kind 0), io)
  read_loop (suc fuel) (suc n) io =
      read_on (suc n) io (read_loop fuel)
        (poll_read buf transport (suc (backlog io.inner)) (suc n) io)

  abbrev write_once :
      Poll (Result IoError ℕ) × Io buf transport → Result IoError (Unit {0}) × Io buf transport
  write_once (ready (ok n), io) = (ok tt, io)
  write_once (ready (err e), io) = (err e, io)
  write_once (pending, io) = (err (other_kind 0), io)

  abbrev flush_once :
      Poll (Result IoError (Unit {0})) × Io buf transport
      → Result IoError (Unit {0}) × Io buf transport
  flush_once (ready r, io) = (r, io)
  flush_once (pending, io) = (err (other_kind 0), io)

  abbrev pub polling : Tokio buf transport
  polling = record {
    write_all = λ bytes io. write_once (poll_write buf transport bytes io);
    flush = λ io. flush_once (poll_flush_inner buf transport io);
    read_exact = λ n io. read_loop n n io;
  }

  once-Flushed :
      (io io' : Io buf transport) (q : Poll (Result IoError (Unit {0})) × Io buf transport)
      → poll_flush_inner buf transport io ≡ q
      → flush_once q ≡ (ok tt, io')
      → Flushed buf transport io io'
  once-Flushed io io' (ready r, io1) e f = flushed (e ∙ ap (λ z. (ready z.0, z.1)) f)
  once-Flushed io io' (pending, io1) e f = cc (ap (λ z. z.0) f)

  prepend_ok :
      (put bytes : List ℕ) (a : Answer) (io' : Io buf transport)
      → prepend put a ≡ (ok bytes, io')
      → (rest : List ℕ) × (a ≡ (ok rest, io')) × (bytes ≡ put ++ rest)
  prepend_ok put bytes (ok rest, io) io' e =
      let read : ok (put ++ rest) ≡ ok bytes = ap (λ z. z.0) e in
      (rest, ap (λ z. (ok rest, z.1)) e, cc read)
  prepend_ok put bytes (err x, io) io' e = cc (ap (λ z. z.0) e)

  on-ReadExactly :
      (n : ℕ) (bytes : List ℕ) (io io' : Io buf transport) (again : ℕ → Io buf transport → Answer)
      (q : Option (Poll (Result IoError (List ℕ)) × Io buf transport))
      → poll_read buf transport (suc (backlog io.inner)) n io ≡ q
      → read_on n io again q ≡ (ok bytes, io')
      → ((m : ℕ) (rest : List ℕ) (io1 : Io buf transport)
          → again m io1 ≡ (ok rest, io')
          → ReadExactly buf transport backlog m rest io1 io')
      → ReadExactly buf transport backlog n bytes io io'
  on-ReadExactly n bytes io io' again none e f later = cc (ap (λ z. z.0) f)
  on-ReadExactly n bytes io io' again (some (ready (ok []), io1)) e f later = cc (ap (λ z. z.0) f)
  on-ReadExactly n bytes io io' again (some (ready (ok (b ∷ put)), io1)) e f later =
      let (rest, more, whole) =
        prepend_ok (b ∷ put) bytes (again (n - length (b ∷ put)) io1) io' f in
      some_read (suc (backlog io.inner)) (b ∷ put) rest (omega arith) e (omega arith) whole
        (later (n - length (b ∷ put)) rest io1 more)
  on-ReadExactly n bytes io io' again (some (ready (err x), io1)) e f later = cc (ap (λ z. z.0) f)
  on-ReadExactly n bytes io io' again (some (pending, io1)) e f later = cc (ap (λ z. z.0) f)

  loop-ReadExactly :
      (fuel n : ℕ) (bytes : List ℕ) (io io' : Io buf transport)
      → read_loop fuel n io ≡ (ok bytes, io')
      → ReadExactly buf transport backlog n bytes io io'
  loop-ReadExactly fuel zero bytes io io' e =
      let read : ok [] ≡ ok bytes = ap (λ z. z.0) e in
      all_read refl (cc read) (sym (ap (λ z. z.1) e))
  loop-ReadExactly zero (suc n) bytes io io' e = cc (ap (λ z. z.0) e)
  loop-ReadExactly (suc fuel) (suc n) bytes io io' e =
      on-ReadExactly (suc n) bytes io io' (read_loop fuel) _ refl e
        λ m rest io1. loop-ReadExactly fuel m rest io1 io'

  module _ (sink : IsSink buf transport) where
    once-Wrote :
        (bytes : List ℕ) (io io' : Io buf transport)
        (q : Poll (Result IoError ℕ) × Io buf transport)
        → poll_write buf transport bytes io ≡ q
        → Writes buf transport sink bytes io q
        → write_once q ≡ (ok tt, io')
        → Wrote buf transport bytes io io'
    once-Wrote bytes io io' (ready (ok n), io1) e (all, took, kept) f =
        some_written n e
          (all_written (ap (λ z. drop z bytes) all ∙ drop-length bytes) (sym (ap (λ z. z.1) f)))
    once-Wrote bytes io io' (ready (err x), io1) e w f = cc (ap (λ z. z.0) f)
    once-Wrote bytes io io' (pending, io1) e w f = cc (ap (λ z. z.0) f)

    pub polling-IsTokio : IsTokio buf transport polling backlog
    polling-IsTokio = record {
      writes = λ bytes io io' e.
          once-Wrote bytes io io' _ refl (poll_write-Writes buf transport sink bytes io) e;
      flushes = λ io io' e. once-Flushed io io' _ refl e;
      reads = λ n bytes io io' e. loop-ReadExactly n n bytes io io' e;
    }

  on_ends :
      (n : ℕ) (io io1 : Io buf transport) (again : ℕ → Io buf transport → Answer) (put : List ℕ)
      → 0 < length put
      → (rest : List ℕ) × (io' : Io buf transport) × (again (n - length put) io1 ≡ (ok rest, io'))
      → (bytes : List ℕ) × (io' : Io buf transport) × (read_on n io again
            (some (ready (ok put), io1))
          ≡ (ok bytes, io'))
  on_ends n io io1 again [] some_put ended = absurd (omega (arith, some_put))
  on_ends n io io1 again (b ∷ put) some_put (rest, io', e) =
      ((b ∷ put) ++ rest, io', ap (prepend (b ∷ put)) e)

nonempty : (put : List ℕ) → (put ≡ [] → ⊥) → 0 < length put
nonempty [] full = absurd (full refl)
nonempty (b ∷ put) full = omega arith

module _ (buf : Buf) (transport : Transport buf) (buf_laws : IsBuf buf)
    (stream : IsStream buf transport buf_laws) (steady : IsSteady buf transport) where
  -- A read of no more than is left ends, where the stream neither fails nor waits.
  pub loop_ends :
      (fuel n : ℕ) (io : Io buf transport)
      → n ≤ fuel
      → n ≤ length (content buf transport buf_laws stream io)
      → (bytes : List ℕ) × (io' : Io buf transport) × (read_loop buf transport stream.backlog fuel n
            io
          ≡ (ok bytes, io'))
  loop_ends fuel zero io enough left = ([], io, refl)
  loop_ends zero (suc n) io enough left = absurd (omega (arith, enough))
  loop_ends (suc fuel) (suc n) io enough left =
      let (put, io1, polled, (split, fits, dry)) =
        poll_read_steady buf transport steady buf_laws stream (suc (stream.backlog io.inner))
          (suc n) io (omega arith) in
      let some_put : 0 < length put = nonempty put λ none_put. elim (dry none_put) [
        | inl no_room ↦ omega (arith, no_room)
        | inr nothing ↦ omega (arith, left, ap length nothing)
      ] in
      rw polled (
        on_ends buf transport stream.backlog (suc n) io io1
          (read_loop buf transport stream.backlog fuel) put some_put
          (loop_ends fuel (suc n - length put) io1 (omega (arith, enough, some_put)) (
            omega (
              arith,
              left,
              ap length split,
              length-append put (content buf transport buf_laws stream io1),
            ))))

-- A sink that is always ready and takes everything.
pub record IsTaking (buf : Buf) (transport : Transport buf) : Type 0 where
  pub readies : (t : transport.T) → (transport.poll_ready t).0 ≡ ready (ok tt)
  pub starts : (bytes : List ℕ) (t : transport.T) → (transport.start_send bytes t).0 ≡ ok tt
  pub flushes : (t : transport.T) → (transport.poll_flush t).0 ≡ ready (ok tt)

module _ (buf : Buf) (transport : Transport buf) (backlog : transport.T → ℕ)
    (taking : IsTaking buf transport) where
  sent_open :
      (bytes : List ℕ) (io : Io buf transport) (q : Result IoError (Unit {0}) × transport.T)
      → q.0 ≡ ok tt
      → (write_once buf transport backlog (sent_on buf transport bytes io q)).0 ≡ ok tt
  unfolding sent_on
  sent_open bytes io (ok u, t) e = refl
  sent_open bytes io (err x, t) e = cc e

  ready_open :
      (bytes : List ℕ) (io : Io buf transport) (q : Poll (Result IoError (Unit {0})) × transport.T)
      → q.0 ≡ ready (ok tt)
      → (write_once buf transport backlog (write_ready buf transport bytes io q)).0 ≡ ok tt
  unfolding write_ready
  ready_open bytes io (ready (ok u), t) e = sent_open bytes io _ (taking.starts bytes t)
  ready_open bytes io (ready (err x), t) e = cc e
  ready_open bytes io (pending, t) e = cc e

  pub write_all_open :
      (bytes : List ℕ) (io : Io buf transport)
      → ((polling buf transport backlog).write_all bytes io).0 ≡ ok tt
  unfolding poll_write
  write_all_open bytes io = ready_open bytes io _ (taking.readies io.inner)

  once_open :
      (q : Poll (Result IoError (Unit {0})) × Io buf transport)
      → q.0 ≡ ready (ok tt)
      → (flush_once buf transport backlog q).0 ≡ ok tt
  once_open (ready r, io) e = cc e
  once_open (pending, io) e = cc e

  pub flush_open : (io : Io buf transport) → ((polling buf transport backlog).flush io).0 ≡ ok tt
  unfolding poll_flush_inner
  flush_open io = once_open _ (taking.flushes io.inner)
