-- ===== src/Noise/FramedIo/Drained.antt =====
-- Reading from crates/noise/src/framed_io.rs to the end.
use oxiscale.Prelude.{
  ℕ, zero, suc, ◌+◌, ◌≤◌, ◌<◌, ◌≡◌, refl, sym, ap, ◌∙◌, Option, none, some, List, [], ◌∷◌, ◌++◌,
  Result, ok, err, arith, leb, ltb, inl, inr, ◌⊎◌, Bool-cases, Option-cases, length, length-append,
  All, min,
}
use oxiscale.Store.Types.{IoError}
use oxiscale.Noise.Initiation.{◌>>=◌, slice}
use oxiscale.Noise.FramedIo.{
  Poll, ready, pending, Buf, IsBuf, Transport, Io, has_chunk, on_item, poll_fill_buf, consume,
  read_filled, poll_read,
}
use oxiscale.Noise.FramedIo.Read.{IsStream, content, Reads, poll_read-Reads}
use oxiscale.Noise.FramedIo.Run.{reads, poll_reads, reads-content}

module _ (buf : Buf) (transport : Transport buf) (buf_laws : IsBuf buf)
    (stream : IsStream buf transport buf_laws) where
  open buf use {B, advance}
  open transport use {T, poll_next}
  open stream use {backlog}

  -- A stream whose backlog counts the errors and the waits that are to come as well.
  pub record IsFinite : Type 0 where
    pub fewer_errors :
        (t t' : T) (e : IoError) → poll_next t ≡ (ready (some (err e)), t') → backlog t' < backlog t
    pub fewer_waits : (t t' : T) → poll_next t ≡ (pending, t') → backlog t' < backlog t
    pub no_more : (t t' : T) → poll_next t ≡ (ready none, t') → backlog t' ≤ backlog t

  -- A poll that does not answer with bytes takes something off the backlog, and none adds to it.
  abbrev Nears :
      Io buf transport → Option (Poll (Result IoError (List ℕ)) × Io buf transport) → Type 0
  Nears io none = Unit
  Nears io (some (ready (ok front), io')) = backlog io'.inner ≤ backlog io.inner
  Nears io (some (ready (err e), io')) = backlog io'.inner < backlog io.inner
  Nears io (some (pending, io')) = backlog io'.inner < backlog io.inner

  Nears-from :
      (io io1 : Io buf transport) (q : Option (Poll (Result IoError (List ℕ)) × Io buf transport))
      → backlog io1.inner < backlog io.inner
      → Nears io1 q
      → Nears io q
  Nears-from io io1 none less n = tt
  Nears-from io io1 (some (ready (ok front), io')) less n = omega (arith, less, n)
  Nears-from io io1 (some (ready (err e), io')) less n = omega (arith, less, n)
  Nears-from io io1 (some (pending, io')) less n = omega (arith, less, n)

  advanced_inner :
      (n : ℕ) (io io' : Io buf transport) (o : Option B)
      → (o >>= λ b. advance n b >>= λ b'. some (record io { chunk = some b' })) ≡ some io'
      → io'.inner ≡ io.inner
  advanced_inner n io io' none e = cc e
  advanced_inner n io io' (some b) e = elim (Option-cases (advance n b)) [
    | inl past ↦ cc (rw past at e)
    | inr (b', advanced) ↦
        let same : record io { chunk = some b' } ≡ io' = cc (rw advanced at e) in
        ap (λ x. x.inner) (sym same)
  ]

  consume_inner :
      (n : ℕ) (io io' : Io buf transport)
      → consume buf transport n io ≡ some io'
      → io'.inner ≡ io.inner
  unfolding consume
  consume_inner n io io' e = elim (Bool-cases (ltb 0 n)) [
    | inl taken ↦ advanced_inner n io io' io.chunk (rw taken at e)
    | inr nothing ↦ let same : io ≡ io' = cc (rw nothing at e) in ap (λ x. x.inner) (sym same)
  ]

  put-Nears :
      (io io1 : Io buf transport) (len : ℕ) (put : Option (List ℕ))
      → backlog io1.inner ≤ backlog io.inner
      → Nears io
          (put >>= λ bytes. consume buf transport len io1 >>= λ io'. some (ready (ok bytes), io'))
  put-Nears io io1 len none fewer = tt
  put-Nears io io1 len (some bytes) fewer = elim (Option-cases (consume buf transport len io1)) [
    | inl stuck ↦ rw stuck tt
    | inr (io', consumed) ↦ rw (consumed, consume_inner len io1 io' consumed) fewer
  ]

  filled-Nears :
      (room : ℕ) (io io1 : Io buf transport) (r : Poll (Result IoError (List ℕ)))
      → Nears io (some (r, io1))
      → Nears io (read_filled buf transport room (r, io1))
  unfolding read_filled
  filled-Nears room io io1 (ready (ok front)) n =
      put-Nears io io1 (min (length front) room) (slice front 0 (min (length front) room)) n
  filled-Nears room io io1 (ready (err e)) n = n
  filled-Nears room io io1 pending n = n

  module _ (finite : IsFinite) where
    item-Nears :
        (io : Io buf transport) (q : Poll (Option (Result IoError B)) × T)
        (again : Io buf transport → Option (Poll (Result IoError (List ℕ)) × Io buf transport))
        → poll_next io.inner ≡ q
        → ((io1 : Io buf transport) → Nears io1 (again io1))
        → Nears io (on_item buf transport io q again)
    unfolding on_item
    item-Nears io (ready (some (ok b)), t) again e next =
        Nears-from io (record { inner = t; chunk = some b }) _ (stream.next_chunk io.inner t b e).1
          (next _)
    item-Nears io (ready (some (err x)), t) again e next = finite.fewer_errors io.inner t x e
    item-Nears io (ready none, t) again e next = finite.no_more io.inner t e
    item-Nears io (pending, t) again e next = finite.fewer_waits io.inner t e

    front-Nears :
        (io : Io buf transport) (o : Option B)
        → Nears io (o >>= λ b. some (ready (ok (buf.chunk b)), io))
    front-Nears io none = tt
    front-Nears io (some b) = omega arith

    fill-Nears : (fuel : ℕ) (io : Io buf transport) → Nears io (poll_fill_buf buf transport fuel io)
    unfolding poll_fill_buf
    fill-Nears zero io = tt
    fill-Nears (suc fuel) io = elim (Bool-cases (has_chunk buf transport io)) [
      | inl filled ↦ rw filled (front-Nears io io.chunk)
      | inr spent ↦ rw spent (
          item-Nears io (poll_next io.inner) (poll_fill_buf buf transport fuel) refl
            (fill-Nears fuel))
    ]

    read-Nears :
        (fuel room : ℕ) (io : Io buf transport) → Nears io (poll_read buf transport fuel room io)
    unfolding poll_read
    read-Nears fuel room io = elim (Bool-cases (leb room 0)) [
      | inl no_room ↦ rw no_room (omega arith)
      | inr has_room ↦ rw has_room (elim (Option-cases (poll_fill_buf buf transport fuel io)) [
        | inl stuck ↦ rw stuck tt
        | inr ((r, io1), filled) ↦
            rw filled (filled-Nears room io io1 r (rw filled at (fill-Nears fuel io)))
      ])
    ]

    -- The bytes, the errors and the waits that are still to come.
    abbrev pub left : Io buf transport → ℕ
    left io = length (content buf transport buf_laws stream io) + backlog io.inner

    -- A poll with room gets nearer to the end, unless everything has been read.
    gets_nearer :
        (room : ℕ) (io io1 : Io buf transport) (r : Poll (Result IoError (List ℕ)))
        → 0 < room
        → Nears io (some (r, io1))
        → Reads buf transport buf_laws stream room io (some (r, io1))
        → (content buf transport buf_laws stream io ≡ []) ⊎ (left io1 < left io)
    gets_nearer room io io1 (ready (ok [])) positive n (split, fits, none_put) =
        elim (none_put refl) [
          | inl no_room ↦ absurd (omega (arith, no_room, positive))
          | inr read ↦ inl read
        ]
    gets_nearer room io io1 (ready (ok (b ∷ put))) positive n (split, fits, none_put) = inr (
        omega (
          arith,
          n,
          ap length split,
          length-append put (content buf transport buf_laws stream io1),
        ))
    gets_nearer room io io1 (ready (err e)) positive n same = inr (omega (arith, n, ap length same))
    gets_nearer room io io1 pending positive n same = inr (omega (arith, n, ap length same))

    empty_ends : (xs ys : List ℕ) → [] ≡ xs ++ ys → (xs ≡ []) × (ys ≡ [])
    empty_ends [] ys e = (refl, sym e)
    empty_ends (x ∷ xs) ys e = cc e

    empty_of : (xs : List ℕ) → length xs ≤ 0 → xs ≡ []
    empty_of [] short = refl
    empty_of (x ∷ xs) short = absurd (omega (arith, short))

    -- A reader that polls with room once for each byte, each error, each wait and each chunk that is to
    -- come gets all the bytes that are to be read, in order, and leaves none.
    pub reads-drained :
        (rooms : List ℕ) (io : Io buf transport)
        → All (λ room. 0 < room) rooms
        → left io ≤ length rooms
        → (io' : Io buf transport) × (reads buf transport buf_laws stream rooms io
            ≡ some (content buf transport buf_laws stream io, io'))
          × (content buf transport buf_laws stream io' ≡ [])
    reads-drained [] io positive enough =
        let read = empty_of (content buf transport buf_laws stream io) (omega (arith, enough)) in
        (io, ap (λ l. some (l, io)) (sym read), read)
    reads-drained (room ∷ rooms) io (here, later) enough =
        let (r, io1, polled, split) = poll_reads buf transport buf_laws stream room io in
        let fuel = suc (backlog io.inner) in
        elim (gets_nearer room io io1 r here (rw polled at (read-Nears fuel room io)) (
          rw polled at
            (poll_read-Reads buf transport buf_laws stream fuel room io (omega arith)))) [
              | inl read ↦
                  let (put, io', ran, whole) =
                    reads-content buf transport buf_laws stream (room ∷ rooms) io in
                  let (nothing, none_left) = empty_ends put _ (sym read ∙ whole) in
                  (io', ran ∙ ap (λ l. some (l, io')) (nothing ∙ sym read), none_left)
              | inr nearer ↦
                  let (io', ran, none_left) =
                    reads-drained rooms io1 later (omega (arith, nearer, enough)) in
                  (io', rw (polled, ran) (ap (λ l. some (l, io')) (sym split)), none_left)
            ]
