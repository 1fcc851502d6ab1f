-- ===== src/Api/Tests.antt =====
-- The builder of crates/control-api/src/server.rs and the start of bin/tailcontrold on concrete
-- settings.
use oxiscale.Prelude.{ℕ, ◌≡◌, refl, some, List, [], ◌∷◌, ok, err}
use oxiscale.Store.Types.{other_kind}
use oxiscale.Noise.Responder.Tests.{small_ts}
use oxiscale.Http.{MachineKeyPair}
use oxiscale.Api.{
  all_routing, subdomain_routing, host, bind, missing_store, Net, new, build, memory_store,
  with_listen, serve_server, main,
}
use oxiscale.Api.Configured.{
  Setting, set_store, set_memory_store, set_listen, set_routing, configure, build-configure,
}

abbrev fresh_key : MachineKeyPair small_ts
fresh_key = record { private = 9; public = 10 }

abbrev settings : List (Setting small_ts ℕ)
settings =
    set_memory_store
    ∷ set_listen "127.0.0.1:1"
    ∷ set_routing all_routing
    ∷ set_store 7
    ∷ set_listen "127.0.0.1:2"
    ∷ []

build-configure_example :
    build small_ts ℕ fresh_key (configure small_ts ℕ settings (new small_ts ℕ))
    ≡ ok (record {
      store = host 7;
      listen = "127.0.0.1:2";
      server_key = fresh_key;
      tenant_routing = all_routing;
    })
build-configure_example = build-configure small_ts ℕ fresh_key settings

without_store :
    build small_ts ℕ fresh_key
      (configure small_ts ℕ (set_routing subdomain_routing ∷ []) (new small_ts ℕ))
    ≡ err missing_store
without_store = build-configure small_ts ℕ fresh_key (set_routing subdomain_routing ∷ [])

-- A machine on which no address can be bound.
abbrev no_net : Net small_ts ℕ
no_net = record {
  Listener = Unit {0};
  bind_listener = λ addr. err (other_kind 98);
  serve_on = λ listener state. ok tt;
}

main_unbound :
    main small_ts ℕ no_net fresh_key (some "[::]:80") ≡ err (bind "[::]:80" (other_kind 98))
unfolding main serve_server new build memory_store with_listen
main_unbound = refl
