-- ===== src/Noise/FramedIo/Read.antt =====
-- Reading from crates/noise/src/framed_io.rs over a stream that has finitely many chunks ready.
use oxiscale.Prelude.{
  ℕ, zero, suc, min, ◌≤◌, ◌<◌, ◌≡◌, refl, sym, ap, ◌∙◌, ltb, leb, true, false, Option, none, some,
  List, [], ◌∷◌, ◌++◌, Result, ok, err, length, take, drop, arith, ◌⊎◌, inl, inr, Bool-cases,
  length-append, append_assoc, length-take, take-append-drop,
}
use oxiscale.Store.Types.{IoError}
use oxiscale.Noise.Initiation.{slice, ◌>>=◌}
use oxiscale.Noise.FramedIo.{
  Poll, ready, pending, Buf, IsBuf, Transport, Io, has_chunk, on_item, poll_fill_buf, consume,
  read_filled, poll_read,
}

take-append : (n : ℕ) (xs ys : List ℕ) → n ≤ length xs → take n (xs ++ ys) ≡ take n xs
take-append zero xs ys h = refl
take-append (suc n) [] ys h = absurd (omega arith)
take-append (suc n) (x ∷ xs) ys h = rw (take-append n xs ys (omega arith))

slice_front : (n : ℕ) (xs : List ℕ) → n ≤ length xs → slice xs 0 n ≡ some (take n xs)
slice_front n xs h = ground arith

module _ (buf : Buf) (transport : Transport buf) (buf_laws : IsBuf buf) where
  open buf use {B, remaining}
  open transport use {T, poll_next}
  open buf_laws use {bytes}

  -- A stream with the bytes that it is still to yield: those of a chunk come off the front, an error
  -- carries none, and none are left at the end. Finitely many chunks are ready at a time.
  pub record IsStream : Type 0 where
    pub upcoming : T → List ℕ
    pub backlog : T → ℕ
    pub next_chunk :
        (t t' : T) (b : B)
        → poll_next t ≡ (ready (some (ok b)), t')
        → (upcoming t ≡ bytes b ++ upcoming t') × (backlog t' < backlog t)
    pub next_end :
        (t t' : T) → poll_next t ≡ (ready none, t') → (upcoming t ≡ []) × (upcoming t' ≡ [])
    pub next_error :
        (t t' : T) (e : IoError)
        → poll_next t ≡ (ready (some (err e)), t')
        → upcoming t' ≡ upcoming t
    pub next_pending : (t t' : T) → poll_next t ≡ (pending, t') → upcoming t' ≡ upcoming t

  module _ (stream : IsStream) where
    open stream use {upcoming, backlog}

    abbrev of_chunk : Option B → List ℕ
    of_chunk none = []
    of_chunk (some b) = bytes b

    -- The bytes that are still to be read.
    abbrev pub content : Io buf transport → List ℕ
    content io = of_chunk io.chunk ++ upcoming io.inner

    -- A buffer that is filled: its front is that of a chunk, or everything has been read.
    abbrev Filled :
        Io buf transport → Option (Poll (Result IoError (List ℕ)) × Io buf transport) → Type 0
    Filled io none = ⊥
    Filled io (some (ready (ok front), io')) =
        (content io' ≡ content io)
        × (((front ≡ []) × (content io ≡ []))
            ⊎ ((b : B) × (rest : List ℕ) × (io'.chunk ≡ some b)
                × (bytes b ≡ front ++ rest)
                × (0 < length front)))
    Filled io (some (ready (err e), io')) = content io' ≡ content io
    Filled io (some (pending, io')) = content io' ≡ content io

    empty : (xs : List ℕ) → length xs ≡ 0 → xs ≡ []
    empty [] e = refl
    empty (x ∷ xs) e = absurd (omega (arith, e))

    chunk_spent :
        (o : Option B) (t : T)
        → has_chunk buf transport (record { inner = t; chunk = o }) ≡ false
        → of_chunk o ≡ []
    unfolding has_chunk
    chunk_spent none t e = refl
    chunk_spent (some b) t e = empty (bytes b) (ground (arith, buf_laws.remaining_length b, e))

    chunk_left :
        (o : Option B) (t : T)
        → has_chunk buf transport (record { inner = t; chunk = o }) ≡ true
        → (b : B) × (o ≡ some b) × (0 < length (buf.chunk b))
    unfolding has_chunk
    chunk_left none t e = cc
    chunk_left (some b) t e =
        (b, refl, buf_laws.chunk_filled b (ground (arith, buf_laws.remaining_length b, e)))

    -- The bytes to be read stay the same from one filled buffer to the next.
    Filled-from :
        (io io' : Io buf transport) (q : Option (Poll (Result IoError (List ℕ)) × Io buf transport))
        → content io' ≡ content io
        → Filled io' q
        → Filled io q
    Filled-from io io' none e f = f
    Filled-from io io' (some (ready (ok front), io2)) e (same, inl (x, y)) =
        (same ∙ e, inl (x, sym e ∙ y))
    Filled-from io io' (some (ready (ok front), io2)) e (same, inr r) = (same ∙ e, inr r)
    Filled-from io io' (some (ready (err x), io2)) e f = f ∙ e
    Filled-from io io' (some (pending, io2)) e f = f ∙ e

    item-Filled :
        (io : Io buf transport) (q : Poll (Option (Result IoError B)) × T)
        (again : Io buf transport → Option (Poll (Result IoError (List ℕ)) × Io buf transport))
        → of_chunk io.chunk ≡ []
        → poll_next io.inner ≡ q
        → ((io' : Io buf transport) → backlog io'.inner < backlog io.inner → Filled io' (again io'))
        → Filled io (on_item buf transport io q again)
    unfolding on_item
    item-Filled io (ready (some (ok b)), t) again spent e rec =
        let (more, less) = stream.next_chunk io.inner t b e in
        Filled-from io (record { inner = t; chunk = some b }) _ (rw spent (sym more))
          (rec (record { inner = t; chunk = some b }) less)
    item-Filled io (ready (some (err x)), t) again spent e rec =
        ap (λ z. of_chunk io.chunk ++ z) (stream.next_error io.inner t x e)
    item-Filled io (ready none, t) again spent e rec =
        let (before, after) = stream.next_end io.inner t e in
        (rw (spent, before, after), inl (refl, rw (spent, before)))
    item-Filled io (pending, t) again spent e rec =
        ap (λ z. of_chunk io.chunk ++ z) (stream.next_pending io.inner t e)

    poll_fill_buf-Filled :
        (fuel : ℕ) (io : Io buf transport)
        → backlog io.inner < fuel
        → Filled io (poll_fill_buf buf transport fuel io)
    unfolding poll_fill_buf
    poll_fill_buf-Filled zero io h = absurd (omega arith)
    poll_fill_buf-Filled (suc fuel) io h = elim (Bool-cases (has_chunk buf transport io)) [
      | inl has ↦
          let (b, e, front) = chunk_left io.chunk io.inner has in
          let (rest, whole) = buf_laws.chunk_front b in
          rw (has, e) (refl, inr (b, rest, refl, whole, front))
      | inr spent ↦ rw spent (
          item-Filled io (poll_next io.inner) (poll_fill_buf buf transport fuel)
            (chunk_spent io.chunk io.inner spent) refl
            (λ io' less. poll_fill_buf-Filled fuel io' (omega arith)))
    ]

    -- A read puts the next bytes into the buffer, no more than it has room for, and none only where
    -- it has no room or everything has been read. Where it fails or has to wait it loses nothing.
    abbrev pub Reads :
        ℕ → Io buf transport → Option (Poll (Result IoError (List ℕ)) × Io buf transport) → Type 0
    Reads room io none = ⊥
    Reads room io (some (ready (ok put), io')) =
        (content io ≡ put ++ content io')
        × (length put ≤ room)
        × (put ≡ [] → (room ≡ 0) ⊎ (content io ≡ []))
    Reads room io (some (ready (err e), io')) = content io' ≡ content io
    Reads room io (some (pending, io')) = content io' ≡ content io

    -- Taking bytes off the front of a filled buffer.
    consume_front :
        (n : ℕ) (io : Io buf transport) (b : B) (front rest : List ℕ)
        → io.chunk ≡ some b
        → bytes b ≡ front ++ rest
        → n ≤ length front
        → 0 < n
        → (io' : Io buf transport) × (consume buf transport n io ≡ some io')
          × (content io ≡ take n front ++ content io')
    unfolding consume
    consume_front n io b front rest holds whole fits positive =
        let (b', advanced, dropped) =
          buf_laws.advance_drops n b (omega (arith, ap length whole, length-append front rest)) in
        let test : ltb 0 n ≡ true = ground arith in
        let split : bytes b ≡ take n front ++ bytes b' =
          sym (take-append-drop n (bytes b))
          ∙ ap (λ z. z ++ drop n (bytes b)) (ap (take n) whole ∙ take-append n front rest fits)
          ∙ ap (λ z. take n front ++ z) (sym dropped) in
        (
          record { inner = io.inner; chunk = some b' },
          rw (test, holds, advanced),
          ap (λ o. of_chunk o ++ upcoming io.inner) holds
              ∙ ap (λ z. z ++ upcoming io.inner) split
              ∙ append_assoc (take n front) (bytes b') (upcoming io.inner),
        )

    consume_none : (io : Io buf transport) → consume buf transport 0 io ≡ some io
    unfolding consume
    consume_none io = refl

    front-Reads :
        (room : ℕ) (io io1 : Io buf transport) (front : List ℕ)
        → 0 < room
        → Filled io (some (ready (ok front), io1))
        → Reads room io (read_filled buf transport room (ready (ok front), io1))
    unfolding read_filled
    front-Reads room io io1 [] positive (same, r) =
        let none_left : content io ≡ [] = elim r [
          | inl (e, f) ↦ f
          | inr (b, rest, holds, whole, some_left) ↦ absurd (omega (arith, some_left))
        ] in
        let len : min 0 room ≡ 0 = omega arith in
        rw (len, consume_none io1) (sym same, omega arith, λ e. inr none_left)
    front-Reads room io io1 (x ∷ front) positive (same, inl (e, f)) = cc
    front-Reads room io io1 (x ∷ front) positive (same, inr (b, rest, holds, whole, some_left)) =
        let n = min (length (x ∷ front)) room in
        let fits : n ≤ length (x ∷ front) = omega arith in
        let (io2, consumed, split) =
          consume_front n io1 b (x ∷ front) rest holds whole fits (omega arith) in
        rw (slice_front n (x ∷ front) fits, consumed)
          (
            sym same ∙ split,
            omega (arith, length-take n (x ∷ front)),
            λ e. absurd (omega (arith, ap length e, length-take n (x ∷ front))),
          )

    Filled-Reads :
        (room : ℕ) (io : Io buf transport)
        (q : Option (Poll (Result IoError (List ℕ)) × Io buf transport))
        → 0 < room
        → Filled io q
        → Reads room io (q >>= read_filled buf transport room)
    unfolding read_filled
    Filled-Reads room io none positive f = f
    Filled-Reads room io (some (ready (ok front), io1)) positive f =
        front-Reads room io io1 front positive f
    Filled-Reads room io (some (ready (err e), io1)) positive f = f
    Filled-Reads room io (some (pending, io1)) positive f = f

    -- Where the fuel exceeds the number of chunks that are ready, a read neither panics nor runs out of
    -- fuel. It puts the next bytes into the buffer, no more than the buffer has room for, and none only
    -- where there is no room or everything has been read. Where it fails or has to wait it loses nothing.
    pub poll_read-Reads :
        (fuel room : ℕ) (io : Io buf transport)
        → backlog io.inner < fuel
        → Reads room io (poll_read buf transport fuel room io)
    unfolding poll_read
    poll_read-Reads fuel room io h = elim (Bool-cases (leb room 0)) [
      | inl no_room ↦ rw no_room (refl, omega arith, λ e. inl (ground (arith, no_room)))
      | inr has_room ↦ rw has_room (
          Filled-Reads room io (poll_fill_buf buf transport fuel io) (ground (arith, has_room))
            (poll_fill_buf-Filled fuel io h))
    ]
