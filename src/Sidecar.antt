-- ===== src/Sidecar.antt =====
-- packages/sidecar/src/server.ts: the requests. The manager, the parsing of URLs and of JSON, and the
-- decoding of bytes and of URL components are parameters. A response is its status and what is
-- turned into its body; its headers, logging, and listening on a port are left out.
pub mod Access
use secret_rotation_kit.Prelude.{
  ℕ, suc, ◌+◌, ◌<>◌, Bool, true, false, not, ◌&&◌, Option, none, some, List, [], ◌∷◌, ◌++◌, String,
  ◌==◌, string_eq, if◌then◌else◌, length, nat_beq, ltb, filter,
}
use Prim.Native.String
use Prim.Native.Char.{code}
use secret_rotation_kit.Prelude.Int.{ℤ, pos}
use secret_rotation_kit.Effect.{
  Error, plain_error, Eff, Outcome, returned, thrown, ◌>>=◌, ◌>>◌, pure, throw, try_catch,
}
use secret_rotation_kit.Js.{
  JsValue, undefined, null, boolean, fraction, not_finite, text, array, object, read,
}
use secret_rotation_kit.Validation.{validate_secret_name, joined}
use secret_rotation_kit.Events
use secret_rotation_kit.Events.{Emitter}

-- `pathname` is none where `new URL` throws; `failed` is the error that ends the body, if one does.
pub record Request : Type 0 where
  pub method : String
  pub pathname : Option String
  pub authorization : Option String
  pub content_length : Option ℕ
  pub chunks : List (List ℕ)
  pub failed : Option Error

pub data Reply (R S : Type 0) : Type 0 where
  no_content health metrics_text event_stream : Reply R S
  refusal : String → Reply R S
  rotated : R → Reply R S
  not_rotated : String → Reply R S
  state_of : S → Reply R S

pub record Response (R S : Type 0) : Type 0 where
  pub status : ℕ
  pub reply : Reply R S

-- A connection is the number of its handlers, which are one for each type of event.
pub record Sidecar (W : Type 0) : Type 0 where
  pub world : W
  pub rotate_total : ℕ
  pub rotate_failures : ℕ
  pub event_emitter : Option Emitter
  pub sse_connections : List ℕ

-- The manager, and the functions of the platform.
pub record Platform (W R S : Type 0) : Type 0 where
  pub rotate : JsValue → JsValue → Eff W R
  pub get_state : String → Eff W S
  pub parse_json : String → Option JsValue
  pub decode_component : String → Option String
  pub to_utf8 : List ℕ → String
  pub print : ℕ → String

abbrev pub max_body_size : ℕ
max_body_size = 1048576

abbrev pub event_types : List String
event_types =
    "key_generated" ∷ "key_propagated" ∷ "key_verified" ∷ "key_activated" ∷ "rotation_failed" ∷ []

-- `if (text)`.
abbrev pub is_set : Option String → Bool
is_set none = false
is_set (some s) = not (s == "")

abbrev pub is_falsy : JsValue → Bool
is_falsy undefined = true
is_falsy null = true
is_falsy (boolean b) = not b
is_falsy (fraction (pos n) d) = nat_beq n 0
is_falsy not_finite = false
is_falsy (text s) = s == ""
is_falsy v = false

abbrev pub or_false : JsValue → JsValue
or_false undefined = boolean false
or_false v = v

-- What follows a prefix.
abbrev pub after_prefix : String → String → Option String
after_prefix String.[] s = some s
after_prefix (String.◌∷◌ c p) String.[] = none
after_prefix (String.◌∷◌ c p) (String.◌∷◌ d s) =
    let rest = after_prefix p s in if nat_beq (code c) (code d) then rest else none

-- `checkAuth`.
abbrev pub bearer_of : Option String → String
bearer_of none = "Bearer undefined"
bearer_of (some t) = "Bearer " <> t

abbrev pub check_header : Option String → Option String → Bool
check_header auth_token none = false
check_header auth_token (some h) = not (h == "") && h == bearer_of auth_token

abbrev pub check_auth : Option String → Request → Bool
check_auth auth_token q = check_header auth_token q.authorization

module _ {W R S : Type 0} (p : Platform W R S) (auth_token : Option String) where
  abbrev pub respond : ℕ → Reply R S → Eff (Sidecar W) (Response R S)
  respond n r = pure (record { status = n; reply = r })

  -- A call of the manager.
  abbrev pub on_world : {A : Type 0} → Eff W A → Eff (Sidecar W) A
  on_world m s = elim (m s.world) [
    | returned a w ↦ returned a (record s { world = w })
    | thrown e w ↦ thrown e (record s { world = w })
  ]

  abbrev pub is_too_large : Option ℕ → Bool
  is_too_large none = false
  is_too_large (some n) = ltb max_body_size n

  abbrev pub read_chunks : ℕ → List ℕ → List (List ℕ) → Option Error → Eff (Sidecar W) String
  read_chunks total read [] none = pure (p.to_utf8 read)
  read_chunks total read [] (some e) = throw e
  read_chunks total read (c ∷ cs) failed =
      let rest = read_chunks (total + length c) (read ++ c) cs failed in
      if ltb max_body_size (total + length c)
      then throw (plain_error "Request body too large")
      else rest

  abbrev pub read_body : Request → Eff (Sidecar W) String
  read_body q =
      if is_too_large q.content_length
      then throw (plain_error "Request body exceeds size limit")
      else read_chunks 0 [] q.chunks q.failed

  abbrev pub count_request : Sidecar W → Sidecar W
  count_request s = record s { rotate_total = suc s.rotate_total }

  abbrev pub count_failure : Sidecar W → Sidecar W
  count_failure s = record s { rotate_failures = suc s.rotate_failures }

  unfoldable pub ask_manager : JsValue → JsValue → Eff (Sidecar W) (Response R S)
  ask_manager name force s =
      try_catch (on_world (p.rotate name force) >>= (λ r. respond 200 (rotated r)))
        (λ e t. respond 500 (not_rotated e.message) (count_failure t)) (count_request s)

  unfoldable pub rotate_named : JsValue → JsValue → Eff (Sidecar W) (Response R S)
  rotate_named name force =
      if is_falsy name
      then respond 400 (refusal "Missing required field: secretName")
      else if not (validate_secret_name p.print name).valid
      then respond 400
          (refusal ("Invalid secretName: " <> joined (validate_secret_name p.print name).errors))
      else ask_manager name (or_false force)

  -- The fields are read of any value but null.
  abbrev pub rotate_parsed : Option JsValue → Eff (Sidecar W) (Response R S)
  rotate_parsed none = respond 400 (refusal "Invalid JSON body")
  rotate_parsed (some null) =
      throw (plain_error "Cannot destructure property 'secretName' of 'parsed' as it is null.")
  rotate_parsed (some (object fs)) = rotate_named (read fs "secretName") (read fs "force")
  rotate_parsed (some v) = rotate_named undefined undefined

  unfoldable pub handle_rotate : Request → Eff (Sidecar W) (Response R S)
  handle_rotate q = read_body q >>= (λ body. rotate_parsed (p.parse_json body))

  unfoldable pub get_state_of : Option String → Eff (Sidecar W) (Response R S)
  get_state_of none = throw (plain_error "URI malformed")
  get_state_of (some name) =
      if name == ""
      then respond 400 (refusal "Missing secret name")
      else if not (validate_secret_name p.print (text name)).valid
      then respond 400 (
          refusal
            ("Invalid secretName: " <> joined (validate_secret_name p.print (text name)).errors))
      else (on_world (p.get_state name) >>= (λ x. respond 200 (state_of x)))

  abbrev pub listen_all : ℕ → List String → Emitter → Emitter
  listen_all c [] m = m
  listen_all c (t ∷ ts) m = listen_all c ts (Events.on t c m)

  abbrev pub unlisten_all : ℕ → List String → Emitter → Emitter
  unlisten_all c [] m = m
  unlisten_all c (t ∷ ts) m = unlisten_all c ts (Events.off t c m)

  abbrev pub stream_from : ℕ → Option Emitter → Eff (Sidecar W) (Response R S)
  stream_from c none s = respond 501 (refusal "Event streaming not configured") s
  stream_from c (some m) s = respond 200 event_stream (record s {
    event_emitter = some (listen_all c event_types m);
    sse_connections = s.sse_connections ++ c ∷ [];
  })

  unfoldable pub handle_events : ℕ → Eff (Sidecar W) (Response R S)
  handle_events c s = stream_from c s.event_emitter s

  abbrev unlisten_in : ℕ → Option Emitter → Option Emitter
  unlisten_in c none = none
  unlisten_in c (some m) = some (unlisten_all c event_types m)

  -- The end of a stream.
  unfoldable pub cleanup : ℕ → Sidecar W → Sidecar W
  cleanup c s = record s {
    event_emitter = unlisten_in c s.event_emitter;
    sse_connections = filter (λ d. not (nat_beq d c)) s.sse_connections;
  }

  abbrev pub if_authorized :
      Request → Eff (Sidecar W) (Response R S) → Eff (Sidecar W) (Response R S)
  if_authorized q m =
      if is_set auth_token && not (check_auth auth_token q)
      then respond 401 (refusal "Unauthorized")
      else m

  abbrev pub state_route :
      Request → Option String → Eff (Sidecar W) (Response R S) → Eff (Sidecar W) (Response R S)
  state_route q none m = m
  state_route q (some name) m = if_authorized q (get_state_of (p.decode_component name))

  abbrev pub open_routes : ℕ → String → Eff (Sidecar W) (Response R S)
  open_routes c path =
      if path == "/health"
      then respond 200 health
      else if path == "/metrics"
      then respond 200 metrics_text
      else if path == "/events"
      then handle_events c
      else respond 404 (refusal "Not found")

  -- The routes from `/secrets/` on; `c` is the number of a new connection.
  abbrev pub route_get : ℕ → Request → String → Eff (Sidecar W) (Response R S)
  route_get c q path =
      if q.method == "GET"
      then state_route q (after_prefix "/secrets/" path) (open_routes c path)
      else respond 404 (refusal "Not found")

  abbrev pub route : ℕ → Request → String → Eff (Sidecar W) (Response R S)
  route c q path =
      if q.method == "OPTIONS"
      then respond 204 no_content
      else if q.method == "POST" && path == "/rotate"
      then if_authorized q (handle_rotate q)
      else route_get c q path

  -- `new URL` stands before the `try`.
  abbrev pub handle_path : ℕ → Request → Option String → Eff (Sidecar W) (Response R S)
  handle_path c q none = throw (plain_error "Invalid URL")
  handle_path c q (some path) = try_catch (route c q path) (λ e. respond 500 (refusal e.message))

  unfoldable pub handle_request : ℕ → Request → Eff (Sidecar W) (Response R S)
  handle_request c q = handle_path c q q.pathname
