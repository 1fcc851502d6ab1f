-- ===== src/Noise/Responder/Tests.antt =====
-- The handshake of crates/noise/src/responder.rs with a small codec and a socket that keeps what is
-- written, and the theorems at concrete inputs.
use oxiscale.Prelude.{
  ℕ, ◌+◌, ◌^◌, ◌<◌, ◌≡◌, ◌↔◌, refl, sym, ap, ◌==◌, ltb, if◌then◌else◌, Option, none, some, List, [],
  ◌∷◌, ◌++◌, Result, ok, err, length, arith, inl, inr, All, IsByte, Bool-cases,
}
use oxiscale.Noise.Tailcfg.{EarlyNoise}
use oxiscale.Noise.Ts.{Ts, IsTs, Socket, IsSocket}
use oxiscale.Noise.Text.{trim, trim_start, trim_end, is_whitespace}
use oxiscale.Noise.Initiation.{parse_initiation}
use oxiscale.Noise.Initiation.Format.{IsInitiation, parse_initiation_iff}
use oxiscale.Noise.FramedIo.{new}
use oxiscale.Noise.Responder.{
  Accepted, accept, accept_decoded, accept_parsed, respond, accepted, send_response, ◌>>◌, and_then,
  send, flush_socket, sending, early_noise_frame, send_json, write_early_noise,
}
use oxiscale.Noise.Responder.Accept.{Outcome, accept-Outcome}
use oxiscale.Noise.Responder.Open.{IsOpen}
use oxiscale.Noise.Responder.Session.{IsAccepted, accept_session}
use oxiscale.Noise.Responder.EarlyFrame.{read_frame, write_early_noise_read}

abbrev prepend : ℕ → Result ℕ (List ℕ) → Result ℕ (List ℕ)
prepend c (ok raw) = ok (c ∷ raw)
prepend c (err e) = err e

-- A codec that spells a byte as itself and refuses all else.
abbrev decode : List ℕ → Result ℕ (List ℕ)
decode [] = ok []
decode (c ∷ text) = if ltb c 256 then prepend c (decode text) else err c

-- A handshake whose payload begins with the key of the server.
abbrev receive_payload : List ℕ → ℕ → Option (List ℕ)
receive_payload [] key = none
receive_payload (k ∷ payload) key = if k == key then some payload else none

abbrev pub small_ts : Ts
small_ts = record {
  MachinePrivateKey = ℕ;
  MachinePublicKey = ℕ;
  ChallengePublicKey = ℕ;
  DecodeError = ℕ;
  base64_decode = decode;
  init_size = 4;
  resp_size = 2;
  initiation = 1;
  response = 2;
  ReceivedHandshake = List ℕ;
  receive = λ payload prologue key. receive_payload payload key;
  peer_static_pub = length;
  Random = ℕ;
  Session = ℕ;
  finish = λ received x. (length received ∷ x ∷ [], x + 1);
  challenge = λ x. x + 2;
  SerdeError = ℕ;
  to_vec = λ frame. ok (b'{' ∷ frame.node_key_challenge ∷ b'}' ∷ []);
}

prepend_bytes :
    (c : ℕ) (r : Result ℕ (List ℕ)) (raw : List ℕ)
    → c < 256
    → ((raw' : List ℕ) → r ≡ ok raw' → All IsByte raw')
    → prepend c r ≡ ok raw
    → All IsByte raw
prepend_bytes c (ok rest) [] small h e = cc
prepend_bytes c (ok rest) (d ∷ raw) small h e =
    let shape : c ∷ rest ≡ d ∷ raw = cc in
    let head : c ≡ d = cc in
    let tail : rest ≡ raw = cc in (omega (arith, head, small), h raw (rw tail))
prepend_bytes c (err x) raw small h e = cc

decode_bytes : (text raw : List ℕ) → decode text ≡ ok raw → All IsByte raw
decode_bytes [] [] e = tt
decode_bytes [] (c ∷ raw) e = cc
decode_bytes (c ∷ text) raw e = elim (Bool-cases (ltb c 256)) [
  | inl small ↦
      prepend_bytes c (decode text) raw (ground (arith, small)) (decode_bytes text) (rw small at e)
  | inr large ↦ cc (rw large at e)
]

pub small_IsTs : IsTs small_ts
small_IsTs = record {
  decoded_bytes = decode_bytes;
  init_fits = omega arith;
  resp_fits = omega arith;
  resp_length = λ r x. refl;
}

-- A socket that takes all it is given.
abbrev pub open_socket : Socket
open_socket = record {
  State = List ℕ;
  write_all = λ bytes s. (ok tt, s ++ bytes);
  flush = λ s. (ok tt, s);
}

unfoldable pub open_IsSocket : IsSocket open_socket
open_IsSocket = record {
  sent = λ s. s;
  write_all_sends = λ bytes s s' e. sym (ap (λ r. r.1) e);
  flush_sends = λ s s' e. sym (ap (λ r. r.1) e);
}

pub open_IsOpen : IsOpen small_ts open_socket
open_IsOpen = record { writes = λ bytes s. refl; flushes = λ s. refl }

abbrev pub payload : List ℕ
payload = 9 ∷ 1 ∷ 2 ∷ 3 ∷ []

-- An initiation of version 113 for the server with key 9, and one of version 112.
abbrev pub hello : List ℕ
hello = 0 ∷ 113 ∷ 1 ∷ 0 ∷ 4 ∷ 9 ∷ 1 ∷ 2 ∷ 3 ∷ []

abbrev old_hello : List ℕ
old_hello = 0 ∷ 112 ∷ 1 ∷ 0 ∷ 4 ∷ 9 ∷ 1 ∷ 2 ∷ 3 ∷ []

pub hello-IsInitiation : IsInitiation small_ts hello 113 payload
hello-IsInitiation = (omega arith, omega arith, refl, [], refl)

pub hello_decodes : decode (trim hello) ≡ ok hello
unfolding trim trim_start trim_end is_whitespace
hello_decodes = refl

old_hello_decodes : decode (trim old_hello) ≡ ok old_hello
unfolding trim trim_start trim_end is_whitespace
old_hello_decodes = refl

parse_initiation_iff_example :
    (parse_initiation small_ts hello ≡ some (ok (113, payload)))
    ↔ IsInitiation small_ts hello 113 payload
parse_initiation_iff_example =
    parse_initiation_iff small_ts hello payload 113 small_IsTs (decode_bytes hello hello refl)

accept-Outcome_example :
    Outcome small_ts open_socket 5 6 9 hello [] (accept small_ts open_socket 5 6 9 hello [])
accept-Outcome_example = accept-Outcome small_ts open_socket 5 6 9 hello []

abbrev pub hello_session : Accepted small_ts open_socket
hello_session = record {
  stream = record { inner = (2 ∷ 0 ∷ 2 ∷ 3 ∷ 5 ∷ [], 6); chunk = none };
  capability_version = 113;
  peer_machine_key = 3;
  node_key_challenge = 8;
}

pub hello_accepted :
    accept small_ts open_socket 5 6 9 hello [] ≡ (some (ok hello_session), 2 ∷ 0 ∷ 2 ∷ 3 ∷ 5 ∷ [])
unfolding accept accept_decoded accept_parsed respond accepted send_response ◌>>◌ and_then send
    flush_socket sending trim trim_start trim_end is_whitespace parse_initiation new
hello_accepted = refl

accept_session_example :
    IsAccepted small_ts open_socket open_IsSocket 5 6 9 hello [] hello_session
      (accept small_ts open_socket 5 6 9 hello []).1
accept_session_example =
    accept_session small_ts open_socket open_IsSocket 5 6 9 hello [] hello_session small_IsTs
      (ap (λ r. r.0) hello_accepted)

abbrev challenge_frame : EarlyNoise ℕ
challenge_frame = record { node_key_challenge = 7 }

abbrev after_frame : List ℕ
after_frame = 0xff ∷ 0xff ∷ 0xff ∷ b'T' ∷ b'S' ∷ 0 ∷ 0 ∷ 0 ∷ 3 ∷ b'{' ∷ 7 ∷ b'}' ∷ []

frame_written : write_early_noise small_ts open_socket challenge_frame [] ≡ (ok tt, after_frame)
unfolding write_early_noise send_json early_noise_frame ◌>>◌ and_then send flush_socket sending
frame_written = refl

write_early_noise_read_example :
    (json : List ℕ) × (small_ts.to_vec challenge_frame ≡ ok json)
    × (bytes : List ℕ) × (after_frame ≡ bytes)
    × (length json < 2 ^ 32 → (rest : List ℕ) → read_frame (bytes ++ rest) ≡ some (json, rest))
unfolding open_IsSocket
write_early_noise_read_example =
    write_early_noise_read small_ts open_socket open_IsSocket challenge_frame [] after_frame
      frame_written
