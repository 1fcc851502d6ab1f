-- ===== src/Store/Samples.antt =====
-- Data for the tests of crates/control-core/src/store: a calendar, keys and a node.
use text.Mathlib.Text.{◌==◌ as str_eq}
use oxiscale.Prelude.{
  ℕ, ◌≡◌, String, Bool, true, false, leb, if◌then◌else◌, Option, none, some, [], ◌∷◌, arith,
}
use oxiscale.Store.Types.{PreAuthKeyId, PreAuthKey, Node}
use oxiscale.Store.Chrono.{Chrono}
use oxiscale.Store.Memory.{MemoryStore}

pub leb_trans : (a b c : ℕ) → leb a b ≡ true → leb b c ≡ true → leb a c ≡ true
leb_trans a b c h k = ground arith

-- Days since 1970, for the two timestamps of the tests.
abbrev pub day_of : String → Option ℕ
day_of text =
    if str_eq text "2000-01-01T00:00:00Z"
    then some 10957
    else if str_eq text "2999-01-01T00:00:00Z"
    then some 375836
    else none

abbrev pub calendar : Chrono
calendar = record { DateTime = ℕ; le = leb; le_trans = leb_trans; parse_from_rfc3339 = day_of }

abbrev pub today : ℕ
today = 20623

abbrev pub sample_key : PreAuthKeyId → Bool → Option String → PreAuthKey
sample_key id reusable expires_at = record {
  id = id;
  network_id = 1;
  prefix = "000000000001";
  secret_hash = "hash";
  reusable = reusable;
  ephemeral = false;
  used = false;
  expires_at = expires_at;
  tags = [];
}

abbrev pub with_key : PreAuthKey → MemoryStore
with_key key = record {
  inner = record {
    version = 1;
    networks = [];
    users = [];
    nodes = [];
    preauth_keys = key ∷ [];
    policies = [];
  };
}

abbrev pub sensor : Node
sensor = record {
  id = 7;
  network_id = 1;
  user_id = 1;
  machine_key = "mkey:";
  node_key = "nodekey:";
  disco_key = "discokey:";
  ipv4 = none;
  ipv6 = none;
  tags = [];
}
