-- ===== src/Noise/FramedIo/Steady.antt =====
-- Reading from crates/noise/src/framed_io.rs over a stream that neither fails nor waits.
pub mod Polling
use oxiscale.Prelude.{
  ℕ, zero, suc, ◌-◌, ◌≤◌, ◌<◌, ◌≡◌, refl, sym, ap, ◌∙◌, subst, Option, none, some, List, [], ◌∷◌,
  ◌++◌, Result, ok, err, length, length-append, drop, arith, leb, inl, inr, Bool-cases,
}
use oxiscale.Store.Types.{IoError, other_kind}
use oxiscale.Noise.Initiation.{slice, ◌>>=◌}
use oxiscale.Noise.FramedIo.{
  FramedIo, Poll, ready, pending, Buf, IsBuf, Transport, Io, has_chunk, on_item, poll_fill_buf,
  consume, read_filled, poll_read, poll_write, poll_flush_inner,
}
use oxiscale.Noise.FramedIo.Read.{IsStream, content, Reads, poll_read-Reads}
use oxiscale.Noise.FramedIo.Write.{IsSink, Writes, poll_write-Writes}
use oxiscale.Noise.FramedIo.Tokio.{
  Tokio, IsTokio, Wrote, all_written, some_written, Flushed, flushed, ReadExactly, all_read,
  some_read, drop-length,
}

module _ (buf : Buf) (transport : Transport buf) where
  open buf use {B}
  open transport use {T, poll_next}

  pub record IsSteady : Type 0 where
    pub no_error : (t t' : T) (e : IoError) → ¬ (poll_next t ≡ (ready (some (err e)), t'))
    pub no_wait : (t t' : T) → ¬ (poll_next t ≡ (pending, t'))

  abbrev Answers : Option (Poll (Result IoError (List ℕ)) × Io buf transport) → Type 0
  Answers none = Unit
  Answers (some (ready (ok put), io)) = Unit
  Answers (some (ready (err e), io)) = ⊥
  Answers (some (pending, io)) = ⊥

  module _ (steady : IsSteady) where
    item-Answers :
        (io : Io buf transport) (q : Poll (Option (Result IoError B)) × T)
        (again : Io buf transport → Option (Poll (Result IoError (List ℕ)) × Io buf transport))
        → poll_next io.inner ≡ q
        → ((io' : Io buf transport) → Answers (again io'))
        → Answers (on_item buf transport io q again)
    unfolding on_item
    item-Answers io (ready (some (ok b)), t) again e later = later _
    item-Answers io (ready (some (err x)), t) again e later = steady.no_error _ _ _ e
    item-Answers io (ready none, t) again e later = tt
    item-Answers io (pending, t) again e later = steady.no_wait _ _ e

    chunk-Answers :
        (io : Io buf transport) (o : Option B)
        → Answers (o >>= λ b. some (ready (ok (buf.chunk b)), io))
    chunk-Answers io none = tt
    chunk-Answers io (some b) = tt

    poll_fill_buf-Answers :
        (fuel : ℕ) (io : Io buf transport) → Answers (poll_fill_buf buf transport fuel io)
    unfolding poll_fill_buf
    poll_fill_buf-Answers zero io = tt
    poll_fill_buf-Answers (suc fuel) io = elim (Bool-cases (has_chunk buf transport io)) [
      | inl has ↦ rw has (chunk-Answers io io.chunk)
      | inr spent ↦ rw spent (
          item-Answers io (poll_next io.inner) (poll_fill_buf buf transport fuel) refl
            (poll_fill_buf-Answers fuel))
    ]

    put-Answers :
        (put : Option (List ℕ)) (o : Option (Io buf transport))
        → Answers (put >>= λ bytes. o >>= λ io. some (ready (ok bytes), io))
    put-Answers none o = tt
    put-Answers (some bytes) none = tt
    put-Answers (some bytes) (some io) = tt

    filled-Answers :
        (room : ℕ) (q : Option (Poll (Result IoError (List ℕ)) × Io buf transport))
        → Answers q
        → Answers (q >>= read_filled buf transport room)
    unfolding read_filled
    filled-Answers room none a = tt
    filled-Answers room (some (ready (ok front), io)) a = put-Answers _ _
    filled-Answers room (some (ready (err e), io)) a = a
    filled-Answers room (some (pending, io)) a = a

    poll_read-Answers :
        (fuel room : ℕ) (io : Io buf transport) → Answers (poll_read buf transport fuel room io)
    unfolding poll_read
    poll_read-Answers fuel room io = elim (Bool-cases (leb room 0)) [
      | inl no_room ↦ rw no_room tt
      | inr has_room ↦ rw has_room (filled-Answers room _ (poll_fill_buf-Answers fuel io))
    ]

    module _ (buf_laws : IsBuf buf) (stream : IsStream buf transport buf_laws) where
      answer :
          (room : ℕ) (io : Io buf transport)
          (q : Option (Poll (Result IoError (List ℕ)) × Io buf transport))
          → Answers q
          → Reads buf transport buf_laws stream room io q
          → (put : List ℕ) × (io1 : Io buf transport) × (q ≡ some (ready (ok put), io1))
            × Reads buf transport buf_laws stream room io (some (ready (ok put), io1))
      answer room io none a r = absurd r
      answer room io (some (ready (ok put), io1)) a r = (put, io1, refl, r)
      answer room io (some (ready (err e), io1)) a r = absurd a
      answer room io (some (pending, io1)) a r = absurd a

      -- Where the stream neither fails nor waits, a poll of it puts bytes.
      pub poll_read_steady :
          (fuel room : ℕ) (io : Io buf transport)
          → stream.backlog io.inner < fuel
          → (put : List ℕ) × (io1 : Io buf transport) × (poll_read buf transport fuel room io
              ≡ some (ready (ok put), io1))
            × Reads buf transport buf_laws stream room io (some (ready (ok put), io1))
      poll_read_steady fuel room io enough =
          answer room io _ (poll_read-Answers fuel room io)
            (poll_read-Reads buf transport buf_laws stream fuel room io enough)
