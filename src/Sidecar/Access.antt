-- ===== src/Sidecar/Access.antt =====
-- Which requests reach the manager.
pub mod Handlers
use secret_rotation_kit.Prelude.{
  ℕ, suc, ◌+◌, ◌≡◌, refl, ap, ◌⊎◌, inl, inr, Bool, true, false, not, ◌&&◌, Option, none, some, List,
  [], ◌∷◌, ◌++◌, String, ◌==◌, string_eq, eq_of_beq, if◌then◌else◌, length, ltb, Bool-cases,
  and-true,
}
use secret_rotation_kit.Effect.{
  Error, plain_error, Eff, Outcome, returned, thrown, after, did_return, Holds, on_return, on_throw,
  try_catch, Outcome-cases, ◌>>=◌,
}
use secret_rotation_kit.Js.{
  JsValue, undefined, null, boolean, fraction, not_finite, text, array, object, read,
}
use secret_rotation_kit.Validation.{validate_secret_name}
use secret_rotation_kit.Validation.Names.{IsSecretName, validate_secret_name-IsSecretName}
use secret_rotation_kit.Events.{Emitter}
use secret_rotation_kit.Sidecar.{
  Request, Response, Sidecar, Platform, max_body_size, is_set, after_prefix, bearer_of, check_auth,
  read_chunks, is_too_large, ask_manager, rotate_named, rotate_parsed, handle_rotate, get_state_of,
  handle_events, open_routes, state_route, stream_from, handle_path, respond, refusal, on_world,
  is_falsy, or_false, check_header, if_authorized, route_get, route, handle_request,
}
use secret_rotation_kit.Sidecar.Access.Handlers.{
  IsAuthorized, Served, untouched, Ends, same, handle_rotate-Served, get_state_of-Served,
}

module _ {W R S : Type 0} (p : Platform W R S) (auth_token : Option String) where
  -- The check of the token.
  check_auth-header :
      (q : Request) → check_auth auth_token q ≡ true → q.authorization ≡ some (bearer_of auth_token)
  check_auth-header q e = go q.authorization e
    where
      go : (h : Option String) → check_header auth_token h ≡ true → h ≡ some (bearer_of auth_token)
      go none f = absurd cc
      go (some h) f = ap some (
          eq_of_beq h (bearer_of auth_token)
            (and-true (not (h == "")) (h == bearer_of auth_token) f).1)

  if_authorized-Served :
      (q : Request) (s : Sidecar W) (m : Eff (Sidecar W) (Response R S))
      → (IsAuthorized p auth_token q → Ends p auth_token q s (m s))
      → Ends p auth_token q s (if_authorized p auth_token q m s)
  if_authorized-Served q s m k = elim (Bool-cases (is_set auth_token)) [
    | inr n ↦ rw (n) (k (inl n))
    | inl n ↦ elim (Bool-cases (check_auth auth_token q)) [
      | inl c ↦ rw (n, c) (k (inr (check_auth-header q c)))
      | inr c ↦ rw (n, c) (on_return (same p auth_token q s 401))
    ]
  ]

  handle_events-Served :
      (q : Request) (s : Sidecar W) (c : ℕ) → Ends p auth_token q s (handle_events p auth_token c s)
  unfolding handle_events
  handle_events-Served q s c = go s.event_emitter
    where
      go : (m : Option Emitter) → Ends p auth_token q s (stream_from p auth_token c m s)
      go none = on_return (same p auth_token q s 501)
      go (some m) = on_return (untouched refl refl refl)

  state_route-Served :
      (q : Request) (s : Sidecar W) (name : Option String) (m : Eff (Sidecar W) (Response R S))
      → q.method ≡ "GET"
      → Ends p auth_token q s (m s)
      → Ends p auth_token q s (state_route p auth_token q name m s)
  state_route-Served q s none m g d = d
  state_route-Served q s (some name) m g d =
      if_authorized-Served q s (get_state_of p auth_token (p.decode_component name))
        (get_state_of-Served p auth_token q s (p.decode_component name) g)

  -- The routes without a check of the token.
  open_routes-Served :
      (q : Request) (s : Sidecar W) (c : ℕ) (path : String)
      → Ends p auth_token q s (open_routes p auth_token c path s)
  open_routes-Served q s c path = elim (Bool-cases (path == "/health")) [
    | inl e ↦ rw (e) (on_return (same p auth_token q s 200))
    | inr e ↦ elim (Bool-cases (path == "/metrics")) [
      | inl f ↦ rw (e, f) (on_return (same p auth_token q s 200))
      | inr f ↦ elim (Bool-cases (path == "/events")) [
        | inl g ↦ rw (e, f, g) (handle_events-Served q s c)
        | inr g ↦ rw (e, f, g) (on_return (same p auth_token q s 404))
      ]
    ]
  ]

  route_get-Served :
      (q : Request) (s : Sidecar W) (c : ℕ) (path : String)
      → Ends p auth_token q s (route_get p auth_token c q path s)
  route_get-Served q s c path = elim (Bool-cases (q.method == "GET")) [
    | inl g ↦ rw (g) (
        state_route-Served q s (after_prefix "/secrets/" path) (open_routes p auth_token c path)
          (eq_of_beq q.method "GET" g) (open_routes-Served q s c path))
    | inr g ↦ rw (g) (on_return (same p auth_token q s 404))
  ]

  route-Served :
      (q : Request) (s : Sidecar W) (c : ℕ) (path : String)
      → Ends p auth_token q s (route p auth_token c q path s)
  route-Served q s c path = elim (Bool-cases (q.method == "OPTIONS")) [
    | inl o ↦ rw (o) (on_return (same p auth_token q s 204))
    | inr o ↦ elim (Bool-cases (q.method == "POST" && path == "/rotate")) [
      | inr r ↦ rw (o, r) (route_get-Served q s c path)
      | inl r ↦
          let (m, n) = and-true (q.method == "POST") (path == "/rotate") r in
          rw (o, r)
            (if_authorized-Served q s (handle_rotate p auth_token q)
              (handle_rotate-Served p auth_token q s (eq_of_beq q.method "POST" m)))
    ]
  ]

  -- Whatever the manager does: a request is answered, unless its URL is malformed, and then nothing has
  -- changed. The manager is called at most once: to rotate, only for a POST, and for the state, only for a
  -- GET; in both cases only if no token is set or the request has the token, and with a valid name. Then the
  -- status is 200 if the call returned and 500 if it threw, and a rotation is counted, as a failure too if it
  -- threw. Otherwise neither the manager's state nor the counters change.
  pub handle_request-Served :
      (c : ℕ) (q : Request) (s : Sidecar W)
      → Holds
          (λ r t. Served p auth_token q s r.status t)
          (λ e t. (q.pathname ≡ none) × (t ≡ s))
          (handle_request p auth_token c q s)
  unfolding handle_request
  handle_request-Served c q s = go q.pathname refl
    where
      caught :
          {x : Outcome (Sidecar W) (Response R S)} {Q : Error → Sidecar W → Type 0}
          → Ends p auth_token q s x
          → Holds
              (λ r t. Served p auth_token q s r.status t)
              Q
              (elim x [
                | returned r t ↦ returned r t
                | thrown e t ↦ respond p auth_token 500 (refusal e.message) t
              ])
      caught (on_return v) = on_return v
      caught (on_throw v) = on_return v

      go :
          (path : Option String)
          → q.pathname ≡ path
          → Holds
              (λ r t. Served p auth_token q s r.status t)
              (λ e t. (q.pathname ≡ none) × (t ≡ s))
              (handle_path p auth_token c q path s)
      go none n = on_throw (n, refl)
      go (some path) n = caught (route-Served q s c path)
