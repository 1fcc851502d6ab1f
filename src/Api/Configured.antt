-- ===== src/Api/Configured.antt =====
-- What the builder of crates/control-api/src/server.rs makes of a sequence of its calls.
use oxiscale.Prelude.{◌≡◌, refl, ◌∙◌, String, Option, none, some, List, [], ◌∷◌, Result, ok, err}
use oxiscale.Store.Memory
use oxiscale.Noise.Ts.{Ts}
use oxiscale.Http.{MachineKeyPair}
use oxiscale.Api.{
  TenantRouting, no_routing, DynStore, memory, host, default_listen, ApiError, missing_store,
  ControlServerBuilder, ControlServer, new, with_store, memory_store, with_listen, with_routing,
  with_server_key, build, or_else,
}

module _ (ts : Ts) (S : Type 0) where
  -- The calls of the builder.
  pub data Setting : Type 0 where
    set_store : S → Setting
    set_memory_store : Setting
    set_listen : String → Setting
    set_routing : TenantRouting → Setting
    set_server_key : MachineKeyPair ts → Setting

  abbrev pub apply : Setting → ControlServerBuilder ts S → ControlServerBuilder ts S
  apply (set_store s) = with_store ts S s
  apply set_memory_store = memory_store ts S
  apply (set_listen addr) = with_listen ts S addr
  apply (set_routing routing) = with_routing ts S routing
  apply (set_server_key key) = with_server_key ts S key

  -- The calls in turn.
  abbrev pub configure : List Setting → ControlServerBuilder ts S → ControlServerBuilder ts S
  configure [] b = b
  configure (setting ∷ rest) b = configure rest (apply setting b)

  abbrev pub store_of : Setting → Option (DynStore S)
  store_of (set_store s) = some (host s)
  store_of set_memory_store = some (memory Memory.new)
  store_of _ = none

  abbrev pub listen_of : Setting → Option String
  listen_of (set_listen addr) = some addr
  listen_of _ = none

  abbrev pub routing_of : Setting → Option TenantRouting
  routing_of (set_routing routing) = some routing
  routing_of _ = none

  abbrev pub key_of : Setting → Option (MachineKeyPair ts)
  key_of (set_server_key key) = some key
  key_of _ = none

  abbrev or : {A : Type 0} → Option A → Option A → Option A
  or (some a) o = some a
  or none o = o

  -- The last value that the calls give to an option, if any does.
  abbrev pub last_of : {A : Type 0} → (Setting → Option A) → List Setting → Option A
  last_of f [] = none
  last_of f (setting ∷ rest) = or (last_of f rest) (f setting)

  -- What a list of calls is to build.
  abbrev pub expected :
      MachineKeyPair ts
      → List Setting
      → Option (DynStore S)
      → Result (ApiError ts S) (ControlServer ts S)
  expected fresh settings none = err missing_store
  expected fresh settings (some store) = ok (record {
    store = store;
    listen = or_else ts S (last_of listen_of settings) default_listen;
    server_key = or_else ts S (last_of key_of settings) fresh;
    tenant_routing = or_else ts S (last_of routing_of settings) no_routing;
  })

  or_assoc : {A : Type 0} (a b c : Option A) → or a (or b c) ≡ or (or a b) c
  or_assoc none b c = refl
  or_assoc (some x) b c = refl

  or_or_else :
      {A : Type 0} (a b : Option A) (d : A)
      → or_else ts S (or a b) d ≡ or_else ts S a (or_else ts S b d)
  or_or_else none b d = refl
  or_or_else (some x) b d = refl

  -- A call sets its own option and no other.
  applied :
      (setting : Setting) (b : ControlServerBuilder ts S)
      → apply setting b ≡ record {
        store = or (store_of setting) b.store;
        listen = or (listen_of setting) b.listen;
        tenant_routing = or_else ts S (routing_of setting) b.tenant_routing;
        server_key = or (key_of setting) b.server_key;
      }
  unfolding with_store memory_store with_listen with_routing with_server_key
  applied (set_store s) b = refl
  applied set_memory_store b = refl
  applied (set_listen addr) b = refl
  applied (set_routing routing) b = refl
  applied (set_server_key key) b = refl

  configured :
      (settings : List Setting) (b : ControlServerBuilder ts S)
      → configure settings b ≡ record {
        store = or (last_of store_of settings) b.store;
        listen = or (last_of listen_of settings) b.listen;
        tenant_routing = or_else ts S (last_of routing_of settings) b.tenant_routing;
        server_key = or (last_of key_of settings) b.server_key;
      }
  configured [] b = refl
  configured (setting ∷ rest) b =
      configured rest (apply setting b)
      ∙ rw
          (
            applied setting b,
            or_assoc (last_of store_of rest) (store_of setting) b.store,
            or_assoc (last_of listen_of rest) (listen_of setting) b.listen,
            or_assoc (last_of key_of rest) (key_of setting) b.server_key,
            or_or_else (last_of routing_of rest) (routing_of setting) b.tenant_routing,
          )
          refl

  or_none : {A : Type 0} (a : Option A) → or a none ≡ a
  or_none none = refl
  or_none (some x) = refl

  built :
      (fresh : MachineKeyPair ts) (settings : List Setting) (o : Option (DynStore S))
      → build ts S fresh (record {
        store = o;
        listen = last_of listen_of settings;
        tenant_routing = or_else ts S (last_of routing_of settings) no_routing;
        server_key = last_of key_of settings;
      })
        ≡ expected fresh settings o
  unfolding build
  built fresh settings none = refl
  built fresh settings (some store) = refl

  -- Whatever calls are made of a new builder, it builds a server exactly where one of them has given a
  -- store, and each part of the server is what the last call for that part has given, or its default.
  pub build-configure :
      (fresh : MachineKeyPair ts) (settings : List Setting)
      → build ts S fresh (configure settings (new ts S))
        ≡ expected fresh settings (last_of store_of settings)
  unfolding build new
  build-configure fresh settings =
      rw
        (
          configured settings (new ts S),
          new,
          or_none (last_of store_of settings),
          or_none (last_of listen_of settings),
          or_none (last_of key_of settings),
        )
        (built fresh settings (last_of store_of settings))
