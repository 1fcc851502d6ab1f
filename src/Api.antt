-- ===== src/Api.antt =====
-- crates/control-api: the builder of a server, the routing strategies and the events; and the start
-- of bin/tailcontrold.
pub mod Configured
pub mod Advertised
mod Tests
use oxiscale.Prelude.{String, Bool, true, false, Option, none, some, Result, ok, err, map_err}
use oxiscale.Store.Types.{NetworkId, NodeId, IoError}
use oxiscale.Store.Memory
use oxiscale.Store.Memory.{MemoryStore}
use oxiscale.Noise.Ts.{Ts}
use oxiscale.Http.{MachineKeyPair, ServerState, ServerError, server_state}

pub record TenantRouting : Type 0 where
  pub subdomain : Bool
  pub path_prefix : Bool
  pub optional_mtls : Bool

-- `TenantRouting::default()`, which is derived.
abbrev pub no_routing : TenantRouting
no_routing = record { subdomain = false; path_prefix = false; optional_mtls = false }

abbrev pub subdomain_routing : TenantRouting
subdomain_routing = record { subdomain = true; path_prefix = false; optional_mtls = false }

abbrev pub path_prefix_routing : TenantRouting
path_prefix_routing = record { subdomain = false; path_prefix = true; optional_mtls = false }

abbrev pub all_routing : TenantRouting
all_routing = record { subdomain = true; path_prefix = true; optional_mtls = true }

pub data Event : Type 0 where
  node_online node_offline node_registered : NetworkId → NodeId → Event

-- `Arc<dyn Store>`: the memory store, or one that the host brings.
pub data DynStore (S : Type 0) : Type 0 where
  memory : MemoryStore → DynStore S
  host : S → DynStore S

abbrev pub default_listen : String
default_listen = "0.0.0.0:8080"

module _ (ts : Ts) (S : Type 0) where
  pub data ApiError : Type 0 where
    missing_store : ApiError
    bind : String → IoError → ApiError
    serve : ServerError ts → ApiError

  pub record ControlServerBuilder : Type 0 where
    pub store : Option (DynStore S)
    pub listen : Option String
    pub tenant_routing : TenantRouting
    pub server_key : Option (MachineKeyPair ts)

  pub record ControlServer : Type 0 where
    pub store : DynStore S
    pub listen : String
    pub server_key : MachineKeyPair ts
    pub tenant_routing : TenantRouting

  unfoldable pub new : ControlServerBuilder
  new = record { store = none; listen = none; tenant_routing = no_routing; server_key = none }

  -- `ControlServerBuilder::default()`, and `ControlServer::builder()`.
  unfoldable pub default_builder : ControlServerBuilder
  unfolding new
  default_builder = new

  unfoldable pub builder : ControlServerBuilder
  unfolding new
  builder = new

  unfoldable pub with_store : S → ControlServerBuilder → ControlServerBuilder
  with_store store b = record b { store = some (host store) }

  unfoldable pub memory_store : ControlServerBuilder → ControlServerBuilder
  memory_store b = record b { store = some (memory Memory.new) }

  unfoldable pub with_listen : String → ControlServerBuilder → ControlServerBuilder
  with_listen addr b = record b { listen = some addr }

  unfoldable pub with_routing : TenantRouting → ControlServerBuilder → ControlServerBuilder
  with_routing routing b = record b { tenant_routing = routing }

  unfoldable pub with_server_key : MachineKeyPair ts → ControlServerBuilder → ControlServerBuilder
  with_server_key key b = record b { server_key = some key }

  abbrev pub or_else {ℓ} : {A : Type ℓ} → Option A → A → A
  or_else (some a) b = a
  or_else none b = b

  -- The key pair that `MachineKeyPair::default()` draws is an argument.
  unfoldable pub build : MachineKeyPair ts → ControlServerBuilder → Result ApiError ControlServer
  build fresh b = elim b.store [
    | none ↦ err missing_store
    | some store ↦ ok (record {
      store = store;
      listen = or_else b.listen default_listen;
      server_key = or_else b.server_key fresh;
      tenant_routing = b.tenant_routing;
    })
  ]

  unfoldable pub store_of : ControlServer → DynStore S
  store_of server = server.store

  unfoldable pub server_public_key : ControlServer → ts.MachinePublicKey
  server_public_key server = server.server_key.public

  unfoldable pub listen_addr : ControlServer → String
  listen_addr server = server.listen

  unfoldable pub routing_of : ControlServer → TenantRouting
  routing_of server = server.tenant_routing

  -- The state that the handlers of a server share.
  abbrev pub state_of : ControlServer → ServerState ts (DynStore S)
  state_of server = server_state server.server_key server.store

  -- Binding a listener, and axum's server on it with the state of the handlers.
  pub record Net : Type 1 where
    pub Listener : Type 0
    pub bind_listener : String → Result IoError Listener
    pub serve_on : Listener → ServerState ts (DynStore S) → Result (ServerError ts) (Unit {0})

  pub serve_bound :
      (net : Net) → ControlServer → Result IoError net.Listener → Result ApiError (Unit {0})
  serve_bound net server (err source) = err (bind server.listen source)
  serve_bound net server (ok listener) = map_err serve (net.serve_on listener (state_of server))

  unfoldable pub serve_server : Net → ControlServer → Result ApiError (Unit {0})
  unfolding serve_bound
  serve_server net server = serve_bound net server (net.bind_listener server.listen)

  -- `main`, of the variable OXISCALE_LISTEN.
  unfoldable pub main : Net → MachineKeyPair ts → Option String → Result ApiError (Unit {0})
  unfolding new memory_store with_listen build
  main net fresh variable =
      elim (build fresh (with_listen (or_else variable "0.0.0.0:8080") (memory_store builder))) [
        | err e ↦ err e
        | ok server ↦ serve_server net server
      ]
