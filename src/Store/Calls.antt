-- ===== src/Store/Calls.antt =====
-- crates/control-core/src/store/traits.rs: the methods of `Store` as data, and their results. A
-- `dyn Store` answers a `Call` with a `Reply` or a `StoreError`. The time at which the backend reads
-- its clock, of type `D`, comes with the call.
use oxiscale.Prelude.{String, Bool, Option, List, Result, ok, err}
use oxiscale.Store.Types.{
  NetworkId, NodeId, PreAuthKeyId, Network, User, Node, PreAuthKey, StoreError,
}

pub data Call (D : Type 0) : Type 0 where
  list_networks : Call D
  upsert_network : Network → Call D
  list_users : NetworkId → Call D
  upsert_user : User → Call D
  list_nodes : NetworkId → Call D
  get_node : NodeId → Call D
  upsert_node : Node → Call D
  delete_node : NodeId → Call D
  list_preauth_keys : NetworkId → Call D
  upsert_preauth_key : PreAuthKey → Call D
  consume_preauth_key : D → PreAuthKeyId → Call D
  get_policy : NetworkId → Call D
  set_policy : NetworkId → String → Call D

pub data Reply : Type 0 where
  unit : Reply
  networks : List Network → Reply
  users : List User → Reply
  nodes : List Node → Reply
  node : Option Node → Reply
  preauth_keys : List PreAuthKey → Reply
  consumed : Bool → Reply
  policy : Option String → Reply

abbrev pub Answer : Type 0
Answer = Result StoreError Reply

-- The answers of the methods, as one type.
abbrev pub answer {ℓ} : {A : Type ℓ} → (A → Reply) → Result StoreError A → Answer
answer f (ok a) = ok (f a)
answer f (err e) = err e
