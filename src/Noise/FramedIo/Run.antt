-- ===== src/Noise/FramedIo/Run.antt =====
-- A sequence of reads from crates/noise/src/framed_io.rs.
use oxiscale.Prelude.{
  ℕ, suc, ◌≡◌, refl, sym, ap, ◌∙◌, Option, some, List, [], ◌∷◌, ◌++◌, Result, ok, err, arith, inl,
  inr, Option-cases, append_assoc,
}
use oxiscale.Store.Types.{IoError}
use oxiscale.Noise.Initiation.{◌>>=◌}
use oxiscale.Noise.FramedIo.{Poll, ready, pending, Buf, IsBuf, Transport, Io, poll_read}
use oxiscale.Noise.FramedIo.Read.{IsStream, content, Reads, poll_read-Reads}

module _ (buf : Buf) (transport : Transport buf) (buf_laws : IsBuf buf)
    (stream : IsStream buf transport buf_laws) where
  open stream use {backlog}

  -- The bytes that a poll put.
  abbrev pub put_by : Poll (Result IoError (List ℕ)) → List ℕ
  put_by (ready (ok put)) = put
  put_by _ = []

  -- A reader that polls with a room each time, whatever the polls before have answered, and keeps all
  -- that is put.
  abbrev pub reads : List ℕ → Io buf transport → Option (List ℕ × Io buf transport)
  reads [] io = some ([], io)
  reads (room ∷ rooms) io = poll_read buf transport (suc (backlog io.inner)) room io >>= λ (r, io1).
      reads rooms io1 >>= λ (later, io2). some (put_by r ++ later, io2)

  Reads-content :
      (room : ℕ) (io io1 : Io buf transport) (r : Poll (Result IoError (List ℕ)))
      → Reads buf transport buf_laws stream room io (some (r, io1))
      → content buf transport buf_laws stream io
        ≡ put_by r ++ content buf transport buf_laws stream io1
  Reads-content room io io1 (ready (ok put)) h = h.0
  Reads-content room io io1 (ready (err e)) h = sym h
  Reads-content room io io1 pending h = sym h

  pub poll_reads :
      (room : ℕ) (io : Io buf transport)
      → (r : Poll (Result IoError (List ℕ))) × (io1 : Io buf transport) × (poll_read buf transport
            (suc (backlog io.inner))
            room
            io
          ≡ some (r, io1))
        × (content buf transport buf_laws stream io
            ≡ put_by r ++ content buf transport buf_laws stream io1)
  poll_reads room io =
      elim (Option-cases (poll_read buf transport (suc (backlog io.inner)) room io)) [
        | inl e ↦ absurd (
            rw e at (
              poll_read-Reads buf transport buf_laws stream (suc (backlog io.inner)) room io
                (omega arith)))
        | inr ((r, io1), e) ↦ (
          r,
          io1,
          e,
          Reads-content room io io1 r (
              rw e at (
                poll_read-Reads buf transport buf_laws stream (suc (backlog io.inner)) room io
                  (omega arith))),
        )
      ]

  -- Any number of polls, with any rooms, through errors and waits, return, and what they have put
  -- together and what is still to be read are the bytes that were to be read, in order.
  pub reads-content :
      (rooms : List ℕ) (io : Io buf transport)
      → (put : List ℕ) × (io' : Io buf transport) × (reads rooms io ≡ some (put, io'))
        × (content buf transport buf_laws stream io
            ≡ put ++ content buf transport buf_laws stream io')
  reads-content [] io = ([], io, refl, refl)
  reads-content (room ∷ rooms) io =
      let (r, io1, polled, first) = poll_reads room io in
      let (later, io2, rest, second) = reads-content rooms io1 in
      (
        put_by r ++ later,
        io2,
        rw (polled, rest),
        first
            ∙ ap (λ z. put_by r ++ z) second
            ∙ sym (append_assoc (put_by r) later (content buf transport buf_laws stream io2)),
      )
