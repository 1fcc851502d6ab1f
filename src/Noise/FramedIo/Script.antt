-- ===== src/Noise/FramedIo/Script.antt =====
-- A script of items and a list of what was sent, as the transport of crates/noise/src/framed_io.rs.
use oxiscale.Prelude.{
  ℕ, ◌≤◌, ◌<◌, ◌≡◌, refl, sym, ap, leb, if◌then◌else◌, Option, none, some, List, [], ◌∷◌, ◌++◌,
  Result, ok, err, length, drop, arith, append-nil,
}
use oxiscale.Store.Types.{IoError, other_kind}
use oxiscale.Noise.FramedIo.{new, Poll, ready, pending, Buf, IsBuf, Transport, Io}
use oxiscale.Noise.FramedIo.Read.{IsStream}
use oxiscale.Noise.FramedIo.Write.{IsSink}

-- A buffer of bytes in one piece.
abbrev pub whole : Buf
whole = record {
  B = List ℕ;
  remaining = length;
  chunk = λ b. b;
  advance = λ n b. if leb n (length b) then some (drop n b) else none;
}

pub advance_whole :
    (n : ℕ) (b : List ℕ)
    → n ≤ length b
    → (b' : List ℕ) × ((if leb n (length b) then some (drop n b) else none) ≡ some b')
      × (b' ≡ drop n b)
advance_whole n b h = (drop n b, ground arith, refl)

unfoldable pub whole-IsBuf : IsBuf whole
whole-IsBuf = record {
  bytes = λ b. b;
  remaining_length = λ b. refl;
  chunk_front = λ b. ([], sym (append-nil b));
  chunk_filled = λ b h. h;
  advance_drops = advance_whole;
}

-- What a stream does when it is polled: it waits, fails, or yields a chunk.
pub data Item : Type 0 where
  wait : Item
  fail : ℕ → Item
  yield : List ℕ → Item

-- A script to be read, and what was written.
pub record Tape : Type 0 where
  pub items : List Item
  pub written : List ℕ

abbrev pub answer_next : List Item → List ℕ → Poll (Option (Result IoError (List ℕ))) × Tape
answer_next [] out = (ready none, record { items = []; written = out })
answer_next (wait ∷ items) out = (pending, record { items = items; written = out })
answer_next (fail n ∷ items) out =
    (ready (some (err (other_kind n))), record { items = items; written = out })
answer_next (yield b ∷ items) out = (ready (some (ok b)), record { items = items; written = out })

abbrev pub scripted : Transport whole
scripted = record {
  T = Tape;
  poll_next = λ t. answer_next t.items t.written;
  poll_ready = λ t. (ready (ok tt), t);
  start_send = λ bytes t. (ok tt, record t { written = t.written ++ bytes });
  poll_flush = λ t. (ready (ok tt), t);
  poll_close = λ t. (ready (ok tt), t);
}

abbrev pub to_come : List Item → List ℕ
to_come [] = []
to_come (yield b ∷ items) = b ++ to_come items
to_come (_ ∷ items) = to_come items

pub next_chunk :
    (items rest : List Item) (out out' b : List ℕ)
    → answer_next items out ≡ (ready (some (ok b)), record { items = rest; written = out' })
    → (to_come items ≡ b ++ to_come rest) × (length rest < length items)
next_chunk [] rest out out' b e = cc (ap (λ r. r.0) e)
next_chunk (wait ∷ items) rest out out' b e = cc (ap (λ r. r.0) e)
next_chunk (fail n ∷ items) rest out out' b e = cc (ap (λ r. r.0) e)
next_chunk (yield c ∷ items) rest out out' b e =
    let polled : ready (some (ok c)) ≡ ready (some (ok b)) = ap (λ r. r.0) e in
    let same : c ≡ b = cc in
    let left : items ≡ rest = ap (λ r. r.1.items) e in rw (same, left) (refl, omega arith)

pub next_end :
    (items rest : List Item) (out out' : List ℕ)
    → answer_next items out ≡ (ready none, record { items = rest; written = out' })
    → (to_come items ≡ []) × (to_come rest ≡ [])
next_end [] rest out out' e = (refl, sym (ap (λ r. to_come r.1.items) e))
next_end (wait ∷ items) rest out out' e = cc (ap (λ r. r.0) e)
next_end (fail n ∷ items) rest out out' e = cc (ap (λ r. r.0) e)
next_end (yield c ∷ items) rest out out' e = cc (ap (λ r. r.0) e)

pub next_error :
    (items rest : List Item) (out out' : List ℕ) (x : IoError)
    → answer_next items out ≡ (ready (some (err x)), record { items = rest; written = out' })
    → to_come rest ≡ to_come items
next_error [] rest out out' x e = cc (ap (λ r. r.0) e)
next_error (wait ∷ items) rest out out' x e = cc (ap (λ r. r.0) e)
next_error (fail n ∷ items) rest out out' x e = sym (ap (λ r. to_come r.1.items) e)
next_error (yield c ∷ items) rest out out' x e = cc (ap (λ r. r.0) e)

pub next_pending :
    (items rest : List Item) (out out' : List ℕ)
    → answer_next items out ≡ (pending, record { items = rest; written = out' })
    → to_come rest ≡ to_come items
next_pending [] rest out out' e = cc (ap (λ r. r.0) e)
next_pending (wait ∷ items) rest out out' e = sym (ap (λ r. to_come r.1.items) e)
next_pending (fail n ∷ items) rest out out' e = cc (ap (λ r. r.0) e)
next_pending (yield c ∷ items) rest out out' e = cc (ap (λ r. r.0) e)

unfoldable pub scripted-IsStream : IsStream whole scripted whole-IsBuf
unfolding whole-IsBuf
scripted-IsStream = record {
  upcoming = λ t. to_come t.items;
  backlog = λ t. length t.items;
  next_chunk = λ t t' b e. next_chunk t.items t'.items t.written t'.written b e;
  next_end = λ t t' e. next_end t.items t'.items t.written t'.written e;
  next_error = λ t t' x e. next_error t.items t'.items t.written t'.written x e;
  next_pending = λ t t' e. next_pending t.items t'.items t.written t'.written e;
}

pub scripted-IsSink : IsSink whole scripted
scripted-IsSink = record {
  taken = λ t. t.written;
  ready_takes = λ t t' r e. sym (ap (λ r. r.1.written) e);
  send_takes = λ bytes asked t t' r e. sym (ap (λ r. r.1.written) e);
}

abbrev pub script : List Item
script = yield [] ∷ yield (1 ∷ 2 ∷ 3 ∷ []) ∷ wait ∷ fail 5 ∷ yield (4 ∷ []) ∷ []

abbrev pub start : Io whole scripted
start = new (record { items = script; written = [] })
