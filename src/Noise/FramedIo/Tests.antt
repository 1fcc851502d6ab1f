-- ===== src/Noise/FramedIo/Tests.antt =====
-- crates/noise/src/framed_io.rs over a script, and the theorems
-- at concrete inputs.
use oxiscale.Prelude.{
  ℕ, zero, suc, ◌≤◌, ◌<◌, ◌≡◌, refl, sym, ap, none, some, List, [], ◌∷◌, ◌++◌, Result, ok, err,
  length, arith, All,
}
use oxiscale.Store.Types.{IoError}
use oxiscale.Noise.FramedIo.{
  new, FramedIo, Poll, ready, pending, Transport, Io, has_chunk, poll_fill_buf, consume, poll_read,
  poll_write,
}
use oxiscale.Noise.FramedIo.Read.{content}
use oxiscale.Noise.FramedIo.Run.{reads, reads-content}
use oxiscale.Noise.FramedIo.Drained.{IsFinite, reads-drained}
use oxiscale.Noise.FramedIo.Fuel.{Polled, poll_read-terminates}
use oxiscale.Noise.FramedIo.Write.{IsSink}
use oxiscale.Noise.FramedIo.Tokio.{
  ReadExactly, all_read, some_read, nothing_yet, ReadExactly-content, Wrote, all_written,
  some_written, not_ready, Wrote-taken,
}
use oxiscale.Noise.FramedIo.Script.{
  whole, whole-IsBuf, Item, wait, fail, yield, answer_next, scripted, scripted-IsStream, start,
}

-- The chunk of three bytes is read in two polls, and the last byte after a wait and an error.
script_read :
    reads whole scripted whole-IsBuf scripted-IsStream (2 ∷ 2 ∷ 2 ∷ 2 ∷ 2 ∷ 2 ∷ []) start
    ≡ some (
      1 ∷ 2 ∷ 3 ∷ 4 ∷ [],
      record { inner = record { items = []; written = [] }; chunk = some [] },
    )
unfolding poll_read poll_fill_buf consume has_chunk new scripted-IsStream
script_read = refl

reads-content_example :
    (put : List ℕ) × (io' : Io whole scripted) × (reads whole scripted whole-IsBuf scripted-IsStream
        (2 ∷ 2 ∷ [])
        start
      ≡ some (put, io'))
    × (content whole scripted whole-IsBuf scripted-IsStream start
        ≡ put ++ content whole scripted whole-IsBuf scripted-IsStream io')
reads-content_example =
    reads-content whole scripted whole-IsBuf scripted-IsStream (2 ∷ 2 ∷ []) start

-- A sink that is not ready so many times, and refuses what it is sent before it is.
abbrev ready_after : ℕ → List ℕ → Poll (Result IoError (Unit {0})) × (ℕ × List ℕ)
ready_after zero out = (ready (ok tt), (0, out))
ready_after (suc waits) out = (pending, (waits, out))

abbrev send_after : List ℕ → ℕ → List ℕ → Result IoError (Unit {0}) × (ℕ × List ℕ)
send_after bytes zero out = (ok tt, (2, out ++ bytes))
send_after bytes (suc waits) out = (ok tt, (suc waits, out))

abbrev busy : Transport whole
busy = record {
  T = ℕ × List ℕ;
  poll_next = λ t. (ready none, t);
  poll_ready = λ t. ready_after t.0 t.1;
  start_send = λ bytes t. send_after bytes t.0 t.1;
  poll_flush = λ t. (ready (ok tt), t);
  poll_close = λ t. (ready (ok tt), t);
}

ready_after_takes :
    (waits : ℕ) (out : List ℕ) (t : ℕ × List ℕ) (r : Poll (Result IoError (Unit {0})))
    → ready_after waits out ≡ (r, t)
    → t.1 ≡ out
ready_after_takes zero out t r e = sym (ap (λ q. q.1.1) e)
ready_after_takes (suc waits) out t r e = sym (ap (λ q. q.1.1) e)

ready_after_zero :
    (waits : ℕ) (out : List ℕ) (t : ℕ × List ℕ)
    → ready_after waits out ≡ (ready (ok tt), t)
    → 0 ≡ t.0
ready_after_zero zero out t e = ap (λ q. q.1.0) e
ready_after_zero (suc waits) out t e = cc (ap (λ q. q.0) e)

send_after_takes :
    (bytes : List ℕ) (waits : ℕ) (out : List ℕ) (t' : ℕ × List ℕ)
    → 0 ≡ waits
    → send_after bytes waits out ≡ (ok tt, t')
    → t'.1 ≡ out ++ bytes
send_after_takes bytes zero out t' z e = sym (ap (λ q. q.1.1) e)
send_after_takes bytes (suc waits) out t' z e = absurd (omega (arith, z))

busy-IsSink : IsSink whole busy
busy-IsSink = record {
  taken = λ t. t.1;
  ready_takes = λ t t' r e. ready_after_takes t.0 t.1 t' r e;
  send_takes = λ bytes asked t t' r e.
      send_after_takes bytes t.0 t.1 t' (ready_after_zero asked.0 asked.1 t r) e;
}

abbrev busy_io : ℕ → List ℕ → Io whole busy
busy_io waits out = new (waits, out)

-- Two polls find the sink busy, and the third writes.
busy-Wrote : Wrote whole busy (7 ∷ 8 ∷ []) (busy_io 2 (6 ∷ [])) (busy_io 2 (6 ∷ 7 ∷ 8 ∷ []))
unfolding poll_write new
busy-Wrote = not_ready refl (not_ready refl (some_written 2 refl (all_written refl refl)))

Wrote-taken_example :
    ((busy_io 2 (6 ∷ 7 ∷ 8 ∷ [])).inner.1 ≡ (6 ∷ []) ++ (7 ∷ 8 ∷ []))
    × (FramedIo.chunk (busy_io 2 (6 ∷ 7 ∷ 8 ∷ [])) ≡ FramedIo.chunk (busy_io 2 (6 ∷ [])))
unfolding new busy-IsSink
Wrote-taken_example = Wrote-taken whole busy busy-IsSink busy-Wrote

poll_read-terminates_example :
    (polled : Polled whole scripted whole-IsBuf scripted-IsStream) × (poll_read whole scripted 6 2
        start
      ≡ some polled)
    × (poll_read whole scripted 9 2 start ≡ some polled)
unfolding new scripted-IsStream
poll_read-terminates_example =
    poll_read-terminates whole scripted whole-IsBuf scripted-IsStream 6 9 2 start (omega arith)
      (omega arith)

next_fewer_errors :
    (items rest : List Item) (out out' : List ℕ) (x : IoError)
    → answer_next items out ≡ (ready (some (err x)), record { items = rest; written = out' })
    → length rest < length items
next_fewer_errors [] rest out out' x e = cc (ap (λ r. r.0) e)
next_fewer_errors (wait ∷ items) rest out out' x e = cc (ap (λ r. r.0) e)
next_fewer_errors (fail n ∷ items) rest out out' x e =
    let same : items ≡ rest = ap (λ r. r.1.items) e in omega (arith, ap length same)
next_fewer_errors (yield c ∷ items) rest out out' x e = cc (ap (λ r. r.0) e)

next_fewer_waits :
    (items rest : List Item) (out out' : List ℕ)
    → answer_next items out ≡ (pending, record { items = rest; written = out' })
    → length rest < length items
next_fewer_waits [] rest out out' e = cc (ap (λ r. r.0) e)
next_fewer_waits (wait ∷ items) rest out out' e =
    let same : items ≡ rest = ap (λ r. r.1.items) e in omega (arith, ap length same)
next_fewer_waits (fail n ∷ items) rest out out' e = cc (ap (λ r. r.0) e)
next_fewer_waits (yield c ∷ items) rest out out' e = cc (ap (λ r. r.0) e)

next_no_more :
    (items rest : List Item) (out out' : List ℕ)
    → answer_next items out ≡ (ready none, record { items = rest; written = out' })
    → length rest ≤ length items
next_no_more [] rest out out' e =
    let same : [] ≡ rest = ap (λ r. r.1.items) e in omega (arith, ap length same)
next_no_more (wait ∷ items) rest out out' e = cc (ap (λ r. r.0) e)
next_no_more (fail n ∷ items) rest out out' e = cc (ap (λ r. r.0) e)
next_no_more (yield c ∷ items) rest out out' e = cc (ap (λ r. r.0) e)

scripted-IsFinite : IsFinite whole scripted whole-IsBuf scripted-IsStream
unfolding scripted-IsStream
scripted-IsFinite = record {
  fewer_errors = λ t t' x e. next_fewer_errors t.items t'.items t.written t'.written x e;
  fewer_waits = λ t t' e. next_fewer_waits t.items t'.items t.written t'.written e;
  no_more = λ t t' e. next_no_more t.items t'.items t.written t'.written e;
}

abbrev nine_polls : List ℕ
nine_polls = 2 ∷ 2 ∷ 2 ∷ 2 ∷ 2 ∷ 2 ∷ 2 ∷ 2 ∷ 2 ∷ []

nine_positive : All (λ room. 0 < room) nine_polls
nine_positive =
    let two : 0 < 2 = omega arith in
    (two, (two, (two, (two, (two, (two, (two, (two, (two, tt)))))))))

reads-drained_example :
    (io' : Io whole scripted) × (reads whole scripted whole-IsBuf scripted-IsStream nine_polls start
      ≡ some (1 ∷ 2 ∷ 3 ∷ 4 ∷ [], io'))
    × (content whole scripted whole-IsBuf scripted-IsStream io' ≡ [])
unfolding new scripted-IsStream
reads-drained_example =
    reads-drained whole scripted whole-IsBuf scripted-IsStream scripted-IsFinite nine_polls start
      nine_positive (omega arith)

abbrev four : List ℕ
four = 1 ∷ 2 ∷ 3 ∷ 4 ∷ []

-- Two bytes, a wait, and two bytes of the three that follow.
abbrev slow : Io whole scripted
slow =
    new (record { items = yield (1 ∷ 2 ∷ []) ∷ wait ∷ yield (3 ∷ 4 ∷ 5 ∷ []) ∷ []; written = [] })

abbrev slow_end : Io whole scripted
slow_end = record { inner = record { items = []; written = [] }; chunk = some (5 ∷ []) }

slow_read : ReadExactly whole scripted (λ t. length t.items) 4 four slow slow_end
unfolding poll_read poll_fill_buf consume has_chunk new
slow_read = some_read 9 (1 ∷ 2 ∷ []) (3 ∷ 4 ∷ []) (omega arith) refl (omega arith) refl (
    nothing_yet 9 (omega arith) refl
      (some_read 9 (3 ∷ 4 ∷ []) [] (omega arith) refl (omega arith) refl (all_read refl refl refl)))

ReadExactly-content_example :
    (content whole scripted whole-IsBuf scripted-IsStream slow
      ≡ four ++ content whole scripted whole-IsBuf scripted-IsStream slow_end)
    × (length four ≡ 4)
unfolding scripted-IsStream
ReadExactly-content_example =
    ReadExactly-content whole scripted whole-IsBuf scripted-IsStream slow_read
