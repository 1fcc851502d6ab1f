-- ===== src/Noise/Stream/Sealed.antt =====
-- A socket with two directions, and a codec for crates/noise/src/responder.rs that adds the session's key
-- to every byte.
use oxiscale.Prelude.{
  ℕ, ◌+◌, ◌-◌, ◌≤◌, ◌≡◌, refl, sym, ap, ◌∙◌, Option, none, some, List, [], ◌∷◌, ◌++◌, Result, ok,
  length, drop, leb, if◌then◌else◌, arith, append_assoc, append-nil,
}
use mathlib.Core.List.{map}
use oxiscale.Store.Types.{IoError}
use oxiscale.Noise.Ts.{Socket, IsSocket}
use oxiscale.Noise.FramedIo.{Poll, ready, IsBuf, Transport}
use oxiscale.Noise.FramedIo.Write.{IsSink}
use oxiscale.Noise.FramedIo.Sends.{Sends, nothing_sent, readied, started, polled}
use oxiscale.Noise.Responder.{Framed}
use oxiscale.Noise.Client.Toy.{toy_ts}
use oxiscale.Noise.Stream.{BytesMut, bytes_mut_buf, BiCodec, codec_transport, Inbox, IsInbox}

-- What was sent, and what has arrived and not been read.
pub record Wires : Type 0 where
  pub out : List ℕ
  pub arrived : List ℕ

abbrev pub wires_socket : Socket
wires_socket = record {
  State = Wires;
  write_all = λ bytes s. (ok tt, record s { out = s.out ++ bytes });
  flush = λ s. (ok tt, s);
}

unfoldable pub wires_IsSocket : IsSocket wires_socket
wires_IsSocket = record {
  sent = λ s. s.out;
  write_all_sends = λ bytes s s' e. sym (ap (λ q. q.1.out) e);
  flush_sends = λ s s' e. sym (ap (λ q. q.1.out) e);
}

abbrev pub wires_inbox : Inbox wires_socket
wires_inbox = record { arrive = λ wire s. record s { arrived = s.arrived ++ wire } }

unfoldable pub wires_IsInbox : IsInbox wires_inbox
wires_IsInbox = record {
  waiting = λ s. s.arrived;
  write_all_waits = λ bytes s s' e. sym (ap (λ q. q.1.arrived) e);
  flush_waits = λ s s' e. sym (ap (λ q. q.1.arrived) e);
}

abbrev pub whole : BytesMut
whole = record {
  remaining = length;
  chunk = λ b. b;
  advance = λ n b. if leb n (length b) then some (drop n b) else none;
}

pub advance_whole :
    (n : ℕ) (b : List ℕ)
    → n ≤ length b
    → (b' : List ℕ) × ((if leb n (length b) then some (drop n b) else none) ≡ some b')
      × (b' ≡ drop n b)
advance_whole n b h = (drop n b, ground arith, refl)

unfoldable pub whole-IsBuf : IsBuf (bytes_mut_buf whole)
whole-IsBuf = record {
  bytes = λ b. b;
  remaining_length = λ b. refl;
  chunk_front = λ b. ([], sym (append-nil b));
  chunk_filled = λ b h. h;
  advance_drops = advance_whole;
}

abbrev pub Sealed : Type 0
Sealed = Framed toy_ts wires_socket

abbrev pub seal : ℕ → List ℕ → List ℕ
seal key = map (λ b. b + key)

abbrev pub unseal : ℕ → List ℕ → List ℕ
unseal key = map (λ b. b - key)

abbrev pub next : List ℕ → List ℕ → ℕ → Poll (Option (Result IoError (List ℕ))) × Sealed
next [] out key = (ready none, (record { out = out; arrived = [] }, key))
next (b ∷ wire) out key =
    (ready (some (ok (unseal key (b ∷ wire)))), (record { out = out; arrived = [] }, key))

abbrev pub sealing : BiCodec toy_ts wires_socket
sealing = record {
  poll_next = λ t. next t.0.arrived t.0.out t.1;
  poll_ready = λ t. (ready (ok tt), t);
  start_send = λ bytes t. (ok tt, (record t.0 { out = t.0.out ++ seal t.1 bytes }, t.1));
  poll_flush = λ t. (ready (ok tt), t);
  poll_close = λ t. (ready (ok tt), t);
}

abbrev pub sealed : Transport (bytes_mut_buf whole)
sealed = codec_transport whole sealing

pub unseal-append :
    (key : ℕ) (xs ys : List ℕ) → unseal key (xs ++ ys) ≡ unseal key xs ++ unseal key ys
unseal-append key [] ys = refl
unseal-append key (x ∷ xs) ys = rw (unseal-append key xs ys)

pub unseal-seal : (key : ℕ) (xs : List ℕ) → unseal key (seal key xs) ≡ xs
unseal-seal key [] = refl
unseal-seal key (x ∷ xs) =
    let same : x + key - key ≡ x = omega arith in rw (same, unseal-seal key xs)

unfoldable pub sealing-IsSink : IsSink (bytes_mut_buf whole) sealed
sealing-IsSink = record {
  taken = λ t. unseal t.1 t.0.out;
  ready_takes = λ t t' r e. sym (ap (λ q. unseal q.1.1 q.1.0.out) e);
  send_takes = λ bytes asked t t' r e.
      sym (ap (λ q. unseal q.1.1 q.1.0.out) e)
      ∙ unseal-append t.1 t.0.out (seal t.1 bytes)
      ∙ ap (λ z. unseal t.1 t.0.out ++ z) (unseal-seal t.1 bytes);
}

-- What writing on a sealed socket leaves.
pub record Kept (t t' : Sealed) : Type 0 where
  pub wire : List ℕ
  pub more : t'.0.out ≡ t.0.out ++ wire
  pub same_key : t'.1 ≡ t.1
  pub same_arrived : t'.0.arrived ≡ t.0.arrived

same-Kept : {t t' : Sealed} → t' ≡ t → Kept t t'
same-Kept {t} {t'} e = record {
  wire = [];
  more = ap (λ z. z.0.out) e ∙ sym (append-nil t.0.out);
  same_key = ap (λ z. z.1) e;
  same_arrived = ap (λ z. z.0.arrived) e;
}

Kept-trans : {t t1 t' : Sealed} → Kept t t1 → Kept t1 t' → Kept t t'
Kept-trans {t} k l = record {
  wire = k.wire ++ l.wire;
  more = l.more ∙ ap (λ z. z ++ l.wire) k.more ∙ append_assoc t.0.out k.wire l.wire;
  same_key = l.same_key ∙ k.same_key;
  same_arrived = l.same_arrived ∙ k.same_arrived;
}

pub Sends-Kept : {t t' : Sealed} → Sends (bytes_mut_buf whole) sealed t t' → Kept t t'
Sends-Kept (nothing_sent e) = same-Kept e
Sends-Kept (readied r e later) = Kept-trans (same-Kept (sym (ap (λ q. q.1) e))) (Sends-Kept later)
Sends-Kept {t} (started bytes e later) =
    Kept-trans
      (record {
        wire = seal t.1 bytes;
        more = sym (ap (λ q. q.1.0.out) e);
        same_key = sym (ap (λ q. q.1.1) e);
        same_arrived = sym (ap (λ q. q.1.0.arrived) e);
      })
      (Sends-Kept later)
Sends-Kept (polled r e later) = Kept-trans (same-Kept (sym (ap (λ q. q.1) e))) (Sends-Kept later)
