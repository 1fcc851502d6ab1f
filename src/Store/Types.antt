-- ===== src/Store/Types.antt =====
-- crates/control-core/src/store/types.rs and error.rs: the persisted aggregates and the errors of a
-- backend. An id is the `u64` that its newtype wraps; the code only compares ids.
use oxiscale.Prelude.{ℕ, String, Bool, Option, List}

abbrev pub NetworkId : Type 0
NetworkId = ℕ

abbrev pub UserId : Type 0
UserId = ℕ

abbrev pub NodeId : Type 0
NodeId = ℕ

abbrev pub PreAuthKeyId : Type 0
PreAuthKeyId = ℕ

pub record Network : Type 0 where
  pub id : NetworkId
  pub name : String
  pub server_host : String
  pub ipv4_prefix : String
  pub ipv6_prefix : String
  pub noise_key_id : String
  pub policy : Option String
  pub created_at : String

pub record User : Type 0 where
  pub id : UserId
  pub network_id : NetworkId
  pub login_name : String
  pub display_name : String

pub record Node : Type 0 where
  pub id : NodeId
  pub network_id : NetworkId
  pub user_id : UserId
  pub machine_key : String
  pub node_key : String
  pub disco_key : String
  pub ipv4 : Option String
  pub ipv6 : Option String
  pub tags : List String

pub record PreAuthKey : Type 0 where
  pub id : PreAuthKeyId
  pub network_id : NetworkId
  pub prefix : String
  pub secret_hash : String
  pub reusable : Bool
  pub ephemeral : Bool
  pub used : Bool
  pub expires_at : Option String
  pub tags : List String

-- `std::io::Error` as far as the code looks into it: whether its kind is `NotFound`.
pub data IoError : Type 0 where
  not_found : IoError
  other_kind : ℕ → IoError

pub data StoreError : Type 0 where
  not_implemented : StoreError
  io : IoError → StoreError
  serde : String → StoreError
