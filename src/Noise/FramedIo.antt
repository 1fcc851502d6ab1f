-- ===== src/Noise/FramedIo.antt =====
-- crates/noise/src/framed_io.rs: a stream of chunks and a sink as a byte stream. A panic, and a loop
-- that runs out of fuel, are `none`.

pub mod Read
pub mod Run
pub mod Fuel
pub mod Tokio
pub mod Sends
pub mod Steady
pub mod Drained
pub mod Write
mod Script
mod Tests
use oxiscale.Prelude.{
  ℕ, zero, suc, min, ◌≡◌, ltb, leb, ◌<◌, ◌≤◌, ◌-◌, ◌++◌, Bool, false, if◌then◌else◌, Option, none,
  some, List, [], Result, ok, err, length, take, drop,
}
use oxiscale.Store.Types.{IoError}
use oxiscale.Noise.Initiation.{slice, ◌>>=◌}

pub data Poll {ℓ} (A : Type ℓ) : Type ℓ where
  ready : A → Poll A
  pending : Poll A

-- `bytes::Buf`. Advancing past the end panics.
pub record Buf : Type 1 where
  pub B : Type 0
  pub remaining : B → ℕ
  pub chunk : B → List ℕ
  pub advance : ℕ → B → Option B

-- The bytes that are left: as many as `remaining` says, the chunk in front, which is empty only where
-- nothing is left, and advancing by no more than is left drops them.
pub record IsBuf (buf : Buf) : Type 0 where
  pub bytes : buf.B → List ℕ
  pub remaining_length : (b : buf.B) → buf.remaining b ≡ length (bytes b)
  pub chunk_front : (b : buf.B) → (rest : List ℕ) × (bytes b ≡ buf.chunk b ++ rest)
  pub chunk_filled : (b : buf.B) → 0 < length (bytes b) → 0 < length (buf.chunk b)
  pub advance_drops :
      (n : ℕ) (b : buf.B)
      → n ≤ length (bytes b)
      → (b' : buf.B) × (buf.advance n b ≡ some b') × (bytes b' ≡ drop n (bytes b))

-- `Stream<Item = Result<B, E>>` and `Sink<&[u8], Error = E>` in one, with an error turned into an
-- I/O error.
pub record Transport (buf : Buf) : Type 1 where
  pub T : Type 0
  pub poll_next : T → Poll (Option (Result IoError buf.B)) × T
  pub poll_ready : T → Poll (Result IoError (Unit {0})) × T
  pub start_send : List ℕ → T → Result IoError (Unit {0}) × T
  pub poll_flush : T → Poll (Result IoError (Unit {0})) × T
  pub poll_close : T → Poll (Result IoError (Unit {0})) × T

pub record FramedIo {ℓ κ} (T : Type ℓ) (B : Type κ) : Type (ℓ ⊔ κ) where
  pub inner : T
  pub chunk : Option B

unfoldable pub new {ℓ κ} : {T : Type ℓ} {B : Type κ} → T → FramedIo T B
new inner = record { inner = inner; chunk = none }

module _ (buf : Buf) (transport : Transport buf) where
  open buf use {B, remaining, advance}
  open transport use {T, poll_next, poll_ready, start_send, poll_flush, poll_close}

  abbrev pub Io : Type 0
  Io = FramedIo T B

  unfoldable pub has_chunk : Io → Bool
  has_chunk io = elim io.chunk [ some b ↦ ltb 0 (remaining b) | none ↦ false ]

  -- What the loop of `poll_fill_buf` does with an item, where `again` is the next round.
  pub on_item :
      Io
      → Poll (Option (Result IoError B)) × T
      → (Io → Option (Poll (Result IoError (List ℕ)) × Io))
      → Option (Poll (Result IoError (List ℕ)) × Io)
  on_item io (ready (some (ok b)), t) again = again (record { inner = t; chunk = some b })
  on_item io (ready (some (err e)), t) again = some (ready (err e), record io { inner = t })
  on_item io (ready none, t) again = some (ready (ok []), record io { inner = t })
  on_item io (pending, t) again = some (pending, record io { inner = t })

  unfoldable pub poll_fill_buf : ℕ → Io → Option (Poll (Result IoError (List ℕ)) × Io)
  unfolding on_item
  poll_fill_buf zero io = none
  poll_fill_buf (suc fuel) io =
      if has_chunk io
      then (io.chunk >>= λ b. some (ready (ok (buf.chunk b)), io))
      else on_item io (poll_next io.inner) (poll_fill_buf fuel)

  unfoldable pub consume : ℕ → Io → Option Io
  consume amt io =
      if ltb 0 amt
      then (io.chunk >>= λ b. advance amt b >>= λ b'. some (record io { chunk = some b' }))
      else some io

  -- `poll_read` after the buffer is filled, into a `ReadBuf` with `room` bytes left. It yields the
  -- bytes put into it.
  pub read_filled :
      ℕ → Poll (Result IoError (List ℕ)) × Io → Option (Poll (Result IoError (List ℕ)) × Io)
  read_filled room (ready (ok inner_buf), io) = do
    let len = min (length inner_buf) room
    put ← slice inner_buf 0 len
    io' ← consume len io
    some (ready (ok put), io')
  read_filled room (ready (err e), io) = some (ready (err e), io)
  read_filled room (pending, io) = some (pending, io)

  unfoldable pub poll_read : ℕ → ℕ → Io → Option (Poll (Result IoError (List ℕ)) × Io)
  unfolding read_filled
  poll_read fuel room io =
      if leb room 0 then some (ready (ok []), io) else poll_fill_buf fuel io >>= read_filled room

  pub sent_on : List ℕ → Io → Result IoError (Unit {0}) × T → Poll (Result IoError ℕ) × Io
  sent_on bytes io (ok _, t) = (ready (ok (length bytes)), record io { inner = t })
  sent_on bytes io (err e, t) = (ready (err e), record io { inner = t })

  pub write_ready :
      List ℕ → Io → Poll (Result IoError (Unit {0})) × T → Poll (Result IoError ℕ) × Io
  unfolding sent_on
  write_ready bytes io (pending, t) = (pending, record io { inner = t })
  write_ready bytes io (ready (err e), t) = (ready (err e), record io { inner = t })
  write_ready bytes io (ready (ok _), t) = sent_on bytes io (start_send bytes t)

  unfoldable pub poll_write : List ℕ → Io → Poll (Result IoError ℕ) × Io
  unfolding write_ready
  poll_write bytes io = write_ready bytes io (poll_ready io.inner)

  unfoldable pub poll_flush_inner : Io → Poll (Result IoError (Unit {0})) × Io
  poll_flush_inner io = let (r, t) = poll_flush io.inner in (r, record io { inner = t })

  unfoldable pub poll_shutdown : Io → Poll (Result IoError (Unit {0})) × Io
  poll_shutdown io = let (r, t) = poll_close io.inner in (r, record io { inner = t })
