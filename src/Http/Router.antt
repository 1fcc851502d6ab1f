-- ===== src/Http/Router.antt =====
-- The router of crates/control-core/src/server/mod.rs: its table of routes, and the handlers behind
-- it. Which route axum takes for a request is a parameter.
use oxiscale.Prelude.{ℕ, String, ◌≡◌, refl, ◌≢◌, ◌⊎◌, inl, inr, sym, Option, List, [], ◌∷◌}
use oxiscale.Noise.Tailcfg.{OverTlsPublicKeyResponse}
use oxiscale.Noise.Ts.{Ts}
use oxiscale.Http.{Request, Response, ServerState, get_key, ts2021_upgrade}

pub data Method : Type 0 where
  get : Method
  post : Method
  head : Method
  other : Method

pub data Handler : Type 0 where
  key_handler : Handler
  upgrade_handler : Handler

pub record Route : Type 0 where
  pub path : String
  pub method : Method
  pub handler : Handler

abbrev pub key_route : Route
key_route = record { path = "/key"; method = get; handler = key_handler }

abbrev pub upgrade_route : Route
upgrade_route = record { path = "/ts2021"; method = post; handler = upgrade_handler }

abbrev pub router : List Route
router = key_route ∷ upgrade_route ∷ []

pub data Dispatch : Type 0 where
  handled : Handler → Dispatch
  headed : Handler → Dispatch  -- answered without the body
  status : ℕ → Dispatch

-- axum's choice for a method and a path.
abbrev pub Axum : Type 0
Axum = List Route → Method → String → Dispatch

-- A path selects its route. A route of `get` also answers HEAD, with the body removed; any other
-- method that the route does not have is 405, and a path that no route has is 404.
pub record IsAxum (axum : Axum) : Type 0 where
  pub takes :
      (r : Route) (routes : List Route) → axum (r ∷ routes) r.method r.path ≡ handled r.handler
  pub refuses :
      (r : Route) (routes : List Route) (m : Method)
      → m ≢ r.method
      → (m ≡ head → r.method ≢ get)
      → axum (r ∷ routes) m r.path ≡ status 405
  pub heads :
      (r : Route) (routes : List Route)
      → r.method ≡ get
      → axum (r ∷ routes) head r.path ≡ headed r.handler
  pub passes :
      (r : Route) (routes : List Route) (m : Method) (p : String)
      → p ≢ r.path
      → axum (r ∷ routes) m p ≡ axum routes m p
  pub misses : (m : Method) (p : String) → axum [] m p ≡ status 404

-- What the server answers: the keys as JSON, a response with the header that a spawned task is given,
-- a bare status, or any of these without its body.
pub data Answer (ts : Ts) : Type 0 where
  keys : OverTlsPublicKeyResponse ts.MachinePublicKey → Answer ts
  response : Response → Option (List ℕ) → Answer ts
  bare : ℕ → Answer ts
  without_body : Answer ts → Answer ts

-- The two paths differ.
apart : upgrade_route.path ≢ key_route.path
apart e = cc

post_is_not_get : post ≢ get
post_is_not_get e = cc

module _ (ts : Ts) (axum : Axum) (to_str : List ℕ → Option (List ℕ))
    (zero_key : ts.MachinePublicKey) where
  pub run_handler : {Store : Type 0} → ServerState ts Store → Request → Handler → Answer ts
  run_handler state req key_handler = keys (get_key ts zero_key state)
  run_handler state req upgrade_handler =
      let (r, task) = ts2021_upgrade to_str req in response r task

  pub handle : {Store : Type 0} → ServerState ts Store → Request → Dispatch → Answer ts
  unfolding run_handler
  handle state req (handled handler) = run_handler state req handler
  handle state req (headed handler) = without_body (run_handler state req handler)
  handle state req (status n) = bare n

  -- A request to the server.
  unfoldable pub respond :
      {Store : Type 0} → ServerState ts Store → Method → String → Request → Answer ts
  unfolding handle
  respond state method path req = handle state req (axum router method path)

  -- What the protocol expects of the server: its keys at a GET of /key, the upgrade at a POST to
  -- /ts2021, the answer of the GET without its body at a HEAD of /key, 405 for other methods at these
  -- paths, and 404 for any other path.
  abbrev pub Expected :
      {Store : Type 0} → ServerState ts Store → Request → Method → String → Answer ts → Type 0
  Expected state req m p a =
      ((m ≡ get) × (p ≡ "/key") × (a ≡ keys (get_key ts zero_key state)))
      ⊎ ((m ≡ post)
          × (p ≡ "/ts2021")
          × (a ≡ response (ts2021_upgrade to_str req).0 (ts2021_upgrade to_str req).1))
      ⊎ ((m ≡ head) × (p ≡ "/key") × (a ≡ without_body (keys (get_key ts zero_key state))))
      ⊎ ((m ≢ get) × (m ≢ head) × (p ≡ "/key") × (a ≡ bare 405))
      ⊎ ((m ≢ post) × (p ≡ "/ts2021") × (a ≡ bare 405))
      ⊎ ((p ≢ "/key") × (p ≢ "/ts2021") × (a ≡ bare 404))

  -- The server answers every request as the protocol expects.
  pub respond-Expected :
      {Store : Type 0} (state : ServerState ts Store) (req : Request) (m : Method) (p : String)
      (a : Answer ts)
      → IsAxum axum
      → Expected state req m p a
      → respond state m p req ≡ a
  unfolding respond handle run_handler
  respond-Expected state req m p a laws h = elim h [
    | inl (is_get, at, e) ↦ rw (is_get, at, laws.takes key_route (upgrade_route ∷ [])) (sym e)
    | inr (inl (is_post, at, e)) ↦
        rw
          (
            is_post,
            at,
            laws.passes key_route (upgrade_route ∷ []) post "/ts2021" apart,
            laws.takes upgrade_route [],
          )
          (sym e)
    | inr (inr (inl (is_head, at, e))) ↦
        rw (is_head, at, laws.heads key_route (upgrade_route ∷ []) refl) (sym e)
    | inr (inr (inr (inl (not_get, not_head, at, e)))) ↦
        rw
          (
            at,
            laws.refuses key_route (upgrade_route ∷ []) m not_get (λ same. absurd (not_head same)),
          )
          (sym e)
    | inr (inr (inr (inr (inl (not_post, at, e))))) ↦
        rw
          (
            at,
            laws.passes key_route (upgrade_route ∷ []) m "/ts2021" apart,
            laws.refuses upgrade_route [] m not_post (λ _. post_is_not_get),
          )
          (sym e)
    | inr (inr (inr (inr (inr (no_key, no_upgrade, e))))) ↦
        rw
          (
            laws.passes key_route (upgrade_route ∷ []) m p no_key,
            laws.passes upgrade_route [] m p no_upgrade,
            laws.misses m p,
          )
          (sym e)
  ]
