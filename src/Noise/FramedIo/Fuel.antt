-- ===== src/Noise/FramedIo/Fuel.antt =====
-- The loop of crates/noise/src/framed_io.rs and the fuel on which it runs.
use oxiscale.Prelude.{
  ℕ, zero, suc, ◌<◌, ◌≡◌, refl, Option, none, some, List, Result, ok, err, arith, inl, inr,
  Bool-cases, Option-cases,
}
use oxiscale.Store.Types.{IoError}
use oxiscale.Noise.FramedIo.{
  Poll, ready, pending, Buf, IsBuf, Transport, Io, has_chunk, on_item, poll_fill_buf, poll_read,
}
use oxiscale.Noise.FramedIo.Read.{IsStream, poll_read-Reads}

module _ (buf : Buf) (transport : Transport buf) (buf_laws : IsBuf buf)
    (stream : IsStream buf transport buf_laws) where
  open buf use {B}
  open transport use {T, poll_next}
  open stream use {backlog}

  -- What a poll answers, and what it leaves.
  abbrev pub Polled : Type 0
  Polled = Poll (Result IoError (List ℕ)) × Io buf transport

  item_same :
      (io : Io buf transport) (q : Poll (Option (Result IoError B)) × T)
      (again again' : Io buf transport → Option Polled)
      → poll_next io.inner ≡ q
      → ((io' : Io buf transport) → backlog io'.inner < backlog io.inner → again io' ≡ again' io')
      → on_item buf transport io q again ≡ on_item buf transport io q again'
  unfolding on_item
  item_same io (ready (some (ok b)), t) again again' e same =
      same (record { inner = t; chunk = some b }) (stream.next_chunk io.inner t b e).1
  item_same io (ready (some (err x)), t) again again' e same = refl
  item_same io (ready none, t) again again' e same = refl
  item_same io (pending, t) again again' e same = refl

  fill_same :
      (fuel fuel' : ℕ) (io : Io buf transport)
      → backlog io.inner < fuel
      → backlog io.inner < fuel'
      → poll_fill_buf buf transport fuel io ≡ poll_fill_buf buf transport fuel' io
  unfolding poll_fill_buf
  fill_same zero fuel' io h h' = absurd (omega (arith, h))
  fill_same (suc fuel) zero io h h' = absurd (omega (arith, h'))
  fill_same (suc fuel) (suc fuel') io h h' = elim (Bool-cases (has_chunk buf transport io)) [
    | inl filled ↦ rw filled
    | inr spent ↦ rw spent (
        item_same io (poll_next io.inner) (poll_fill_buf buf transport fuel)
          (poll_fill_buf buf transport fuel') refl
          (λ io' less. fill_same fuel fuel' io' (omega (arith, less, h)) (omega (arith, less, h'))))
  ]

  -- A poll returns, whatever is put into it, and with any fuel above the number of chunks that are
  -- ready it returns the same.
  pub poll_read-terminates :
      (fuel fuel' room : ℕ) (io : Io buf transport)
      → backlog io.inner < fuel
      → backlog io.inner < fuel'
      → (polled : Polled) × (poll_read buf transport fuel room io ≡ some polled)
        × (poll_read buf transport fuel' room io ≡ some polled)
  unfolding poll_read
  poll_read-terminates fuel fuel' room io h h' =
      elim (Option-cases (poll_read buf transport fuel room io)) [
        | inl stuck ↦
            absurd (rw stuck at (poll_read-Reads buf transport buf_laws stream fuel room io h))
        | inr (polled, e) ↦ (polled, e, rw (← fill_same fuel fuel' io h h') e)
      ]
