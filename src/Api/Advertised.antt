-- ===== src/Api/Advertised.antt =====
-- What a server of crates/control-api/src/server.rs answers through the router of
-- crates/control-core/src/server/mod.rs.
use oxiscale.Prelude.{◌≡◌, refl, Option, List, ℕ, inl}
use oxiscale.Noise.Ts.{Ts}
use oxiscale.Noise.Tailcfg.{over_tls_response}
use oxiscale.Http.{Request, get_key}
use oxiscale.Http.Router.{get, Axum, IsAxum, keys, respond, respond-Expected}
use oxiscale.Api.{ControlServer, server_public_key, state_of}

module _ (ts : Ts) (S : Type 0) (axum : Axum) (to_str : List ℕ → Option (List ℕ))
    (zero_key : ts.MachinePublicKey) where
  -- A GET of /key is answered with the key that the server names as its own.
  pub server_public_key-advertised :
      (server : ControlServer ts S) (req : Request)
      → IsAxum axum
      → respond ts axum to_str zero_key (state_of ts S server) get "/key" req
        ≡ keys (over_tls_response zero_key (server_public_key ts S server))
  unfolding get_key server_public_key
  server_public_key-advertised server req laws =
      respond-Expected ts axum to_str zero_key (state_of ts S server) req get "/key" _ laws
        (inl (refl, refl, refl))
