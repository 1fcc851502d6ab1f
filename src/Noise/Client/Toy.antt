-- ===== src/Noise/Client/Toy.antt =====
-- A handshake for crates/noise/src/responder.rs, and a client of it with a cipher that adds the session's
-- key to every byte.
use oxiscale.Prelude.{
  ℕ, ◌+◌, ◌-◌, ◌<◌, ◌≡◌, refl, sym, ap, ◌∙◌, Bool, true, false, ◌==◌, ltb, if◌then◌else◌, Option,
  none, some, List, [], ◌∷◌, Result, ok, err, arith, inl, inr, All, IsByte, Bool-cases,
}
use mathlib.Core.List.{map}
use oxiscale.Noise.Tailcfg.{EarlyNoise}
use oxiscale.Noise.Ts.{Ts, IsTs}
use oxiscale.Noise.Text.{trim, trim_start, trim_end, is_whitespace}
use oxiscale.Noise.Initiation.Format.{initiation_message}
use oxiscale.Noise.Client.{Client, IsClient, Opens}

-- A text that spells a byte outside the white space.
abbrev pub spell : ℕ → ℕ
spell b = b + 65536

abbrev prepend : ℕ → Result ℕ (List ℕ) → Result ℕ (List ℕ)
prepend b (ok raw) = ok (b ∷ raw)
prepend b (err e) = err e

abbrev decode : List ℕ → Result ℕ (List ℕ)
decode [] = ok []
decode (c ∷ text) =
    let rest = decode text in if ltb (c - 65536) 256 then prepend (c - 65536) rest else err c

abbrev byte : Bool → ℕ
byte true = 1
byte false = 0

-- The payload names the client and the server.
abbrev receive_payload : List ℕ → Bool → Option Bool
receive_payload (a ∷ b ∷ []) key = if b == byte key then some (a == 1) else none
receive_payload _ key = none

abbrev pub toy_ts : Ts
toy_ts = record {
  MachinePrivateKey = Bool;
  MachinePublicKey = Bool;
  ChallengePublicKey = ℕ;
  DecodeError = ℕ;
  base64_decode = decode;
  init_size = 2;
  resp_size = 1;
  initiation = 1;
  response = 2;
  ReceivedHandshake = Bool;
  receive = λ payload prologue key. receive_payload payload key;
  peer_static_pub = λ client. client;
  Random = ℕ;
  Session = ℕ;
  finish = λ received x. (x ∷ [], x);
  challenge = λ x. x + 2;
  SerdeError = ℕ;
  to_vec = λ frame. ok (frame.node_key_challenge ∷ []);
}

prepend_bytes :
    (b : ℕ) (r : Result ℕ (List ℕ)) (raw : List ℕ)
    → b < 256
    → ((raw' : List ℕ) → r ≡ ok raw' → All IsByte raw')
    → prepend b r ≡ ok raw
    → All IsByte raw
prepend_bytes b (ok rest) [] small h e = cc
prepend_bytes b (ok rest) (d ∷ raw) small h e =
    let shape : b ∷ rest ≡ d ∷ raw = cc in
    let head : b ≡ d = cc in
    let tail : rest ≡ raw = cc in (omega (arith, head, small), h raw (rw tail))
prepend_bytes b (err x) raw small h e = cc

decode_bytes : (text raw : List ℕ) → decode text ≡ ok raw → All IsByte raw
decode_bytes [] [] e = tt
decode_bytes [] (c ∷ raw) e = cc
decode_bytes (c ∷ text) raw e = elim (Bool-cases (ltb (c - 65536) 256)) [
  | inl small ↦
      prepend_bytes (c - 65536) (decode text) raw (ground (arith, small)) (decode_bytes text)
        (rw small at e)
  | inr large ↦ cc (rw large at e)
]

pub toy_IsTs : IsTs toy_ts
toy_IsTs = record {
  decoded_bytes = decode_bytes;
  init_fits = omega arith;
  resp_fits = omega arith;
  resp_length = λ r x. refl;
}

decode-spell : (raw : List ℕ) → All IsByte raw → decode (map spell raw) ≡ ok raw
decode-spell [] h = refl
decode-spell (b ∷ raw) (small, h) =
    let same : b + 65536 - 65536 ≡ b = omega arith in
    rw (same, decode-spell raw h) (ground (arith, small))

spell_black : (b : ℕ) → is_whitespace (spell b) ≡ false
unfolding is_whitespace
spell_black b = ground arith

trim_end-spell : (raw : List ℕ) → trim_end (map spell raw) ≡ map spell raw
unfolding trim_end
trim_end-spell [] = refl
trim_end-spell (b ∷ []) = rw (spell_black b)
trim_end-spell (b ∷ c ∷ raw) = rw (trim_end-spell (c ∷ raw))

trim-spell : (raw : List ℕ) → trim (map spell raw) ≡ map spell raw
unfolding trim trim_start trim_end
trim-spell [] = refl
trim-spell (b ∷ raw) = rw (spell_black b) (trim_end-spell (b ∷ raw))

abbrev pub toy_initiation : ℕ → Bool → Bool → List ℕ
toy_initiation v client_key server_key =
    initiation_message toy_ts v (byte client_key ∷ byte server_key ∷ [])

abbrev toy_complete : List ℕ → Option (ℕ × List ℕ)
toy_complete (kind ∷ high ∷ low ∷ x ∷ rest) = some (x, rest)
toy_complete _ = none

abbrev parse_frame : List ℕ → Result ℕ (EarlyNoise ℕ)
parse_frame (c ∷ []) = ok (record { node_key_challenge = c })
parse_frame _ = err 0

abbrev pub toy_client : Client toy_ts
toy_client = record {
  public_key = λ key. key;
  Handshake = Unit;
  initialize = λ prologue client_key server_key v x.
      (tt, map spell (toy_initiation v client_key server_key));
  Session = ℕ;
  complete = λ handshake key wire. toy_complete wire;
  decrypt = λ key. map (λ b. b - key);
  encrypt = λ key. map (λ b. b + key);
  from_slice = parse_frame;
}

byte-IsByte : (key : Bool) → IsByte (byte key)
byte-IsByte true = omega arith
byte-IsByte false = omega arith

toy_initiation-bytes :
    (v : ℕ) (client_key server_key : Bool) → All IsByte (toy_initiation v client_key server_key)
toy_initiation-bytes v client_key server_key =
    let keys : All IsByte (byte client_key ∷ byte server_key ∷ []) =
      (byte-IsByte client_key, (byte-IsByte server_key, tt)) in
    (omega arith, (omega arith, (omega arith, (omega arith, (omega arith, keys)))))

opened_by :
    (client_key server_key : Bool)
    → receive_payload (byte client_key ∷ byte server_key ∷ []) server_key ≡ some client_key
opened_by true true = refl
opened_by true false = refl
opened_by false true = refl
opened_by false false = refl

pub toy_Opens :
    (v : ℕ) (client_key server_key : Bool) (x : ℕ)
    → Opens toy_ts toy_client (λ own session. own ≡ session) v client_key server_key x
toy_Opens v client_key server_key x = record {
  payload = byte client_key ∷ byte server_key ∷ [];
  payload_length = refl;
  decodes =
      ap decode (trim-spell (toy_initiation v client_key server_key))
      ∙ decode-spell (toy_initiation v client_key server_key)
          (toy_initiation-bytes v client_key server_key);
  received = client_key;
  opened = opened_by client_key server_key;
  peer = refl;
  completed = λ eph rest. (eph, refl, refl);
}

unfoldable pub toy_IsClient : IsClient toy_ts toy_client
toy_IsClient = record {
  Pairs = λ own session. own ≡ session;
  initiates = λ v client_key server_key x fits. toy_Opens v client_key server_key x;
  parses = λ frame json e.
      ap parse_frame (sym (ap (λ (r : Result ℕ (List ℕ)). elim r [ ok l ↦ l | err x ↦ [] ]) e));
}
