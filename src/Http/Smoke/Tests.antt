-- ===== src/Http/Smoke/Tests.antt =====
-- The client of `Http.Smoke` against a router that compares paths, over the cipher of
-- `Noise.Client.Tests`.
use oxiscale.Prelude.{
  String, ◌≡◌, ◌≢◌, refl, Bool, true, false, if◌then◌else◌, some, [], ◌∷◌, ok, Bool-cases, inl, inr,
  arith,
}
use text.Mathlib.Text
use text.Mathlib.TextPositions.{eq_refl}
use text.Mathlib.TextEquality.{eq_iff}
use oxiscale.Noise.Responder.Tests.{open_socket, open_IsSocket}
use oxiscale.Noise.Client.Tests.{toy_IsWriter, socket_IsOpen, writer_IsOpen, seal}
use oxiscale.Noise.Client.Toy.{toy_ts, toy_client, toy_IsTs, toy_IsClient}
use oxiscale.Http.{ServerState, Tunnel}
use oxiscale.Http.Router.{
  Method, get, post, head, other, Route, Dispatch, handled, headed, status, Axum, IsAxum,
}
use oxiscale.Http.Smoke.{IsServing, smoke, smoke-reads}

abbrev same_method : Method → Method → Bool
same_method get get = true
same_method post post = true
same_method head head = true
same_method other other = true
same_method _ _ = false

same_method_refl : (m : Method) → same_method m m ≡ true
same_method_refl get = refl
same_method_refl post = refl
same_method_refl head = refl
same_method_refl other = refl

same_method_ne : (m n : Method) → m ≢ n → same_method m n ≡ false
same_method_ne get get e = absurd (e refl)
same_method_ne get post e = refl
same_method_ne get head e = refl
same_method_ne get other e = refl
same_method_ne post get e = refl
same_method_ne post post e = absurd (e refl)
same_method_ne post head e = refl
same_method_ne post other e = refl
same_method_ne head get e = refl
same_method_ne head post e = refl
same_method_ne head head e = absurd (e refl)
same_method_ne head other e = refl
same_method_ne other get e = refl
same_method_ne other post e = refl
same_method_ne other head e = refl
same_method_ne other other e = absurd (e refl)

same_path_ne : (p q : String) → p ≢ q → Text.◌==◌ p q ≡ false
same_path_ne p q apart = elim (Bool-cases (Text.◌==◌ p q)) [
  | inl same ↦ absurd (apart ((eq_iff p q).0 same))
  | inr differs ↦ differs
]

abbrev unmatched : Method → Route → Dispatch
unmatched m r =
    if same_method m head
    then (if same_method r.method get then headed r.handler else status 405)
    else status 405

unmatched_refuses :
    (m n : Method) (r : Route) → r.method ≡ n → (m ≡ head → n ≢ get) → unmatched m r ≡ status 405
unmatched_refuses get n r e h = refl
unmatched_refuses post n r e h = refl
unmatched_refuses other n r e h = refl
unmatched_refuses head n r e h = rw (e, same_method_ne n get (h refl)) refl

-- The first route with the path decides.
abbrev choose : Axum
choose [] m p = status 404
choose (r ∷ routes) m p =
    let rest = choose routes m p in
    if Text.◌==◌ p r.path
    then (if same_method m r.method then handled r.handler else unmatched m r)
    else rest

choose-IsAxum : IsAxum choose
choose-IsAxum = record {
  takes = λ r routes. rw (eq_refl r.path, same_method_refl r.method) refl;
  heads = λ r routes e. rw (eq_refl r.path, e) refl;
  refuses = λ r routes m e f.
      rw (eq_refl r.path, same_method_ne m r.method e) (unmatched_refuses m r.method r refl f);
  passes = λ r routes m p e. rw (same_path_ne p r.path e) refl;
  misses = λ m p. refl;
}

-- HTTP/2 that sends its settings.
abbrev toy_tunnel : Tunnel toy_ts open_socket
toy_tunnel = record {
  write_all = λ bytes stream. (ok tt, seal bytes stream);
  flush = λ stream. (ok tt, stream);
  serve_connection = λ stream. (ok tt, seal (0 ∷ 0 ∷ 0 ∷ 4 ∷ []) stream);
}

toy_IsServing : IsServing toy_ts open_socket toy_tunnel toy_client open_IsSocket
unfolding open_IsSocket
toy_IsServing = record { appends = λ stream. (_, refl) }

abbrev state : ServerState toy_ts Unit
state = record { server_key = record { private = false; public = false }; store = tt }

smoke-reads_example :
    smoke toy_ts open_socket toy_tunnel toy_client open_IsSocket choose some true 4 5 6 state true
      113 []
    ≡ some (record { node_key_challenge = 8 })
unfolding toy_IsClient
smoke-reads_example =
    smoke-reads toy_ts open_socket toy_tunnel toy_client toy_IsClient open_IsSocket toy_IsTs
      toy_IsWriter toy_IsServing socket_IsOpen writer_IsOpen choose some true 4 5 6 state true 113
      (8 ∷ []) [] choose-IsAxum refl refl (omega arith) (omega arith) refl (omega arith)
