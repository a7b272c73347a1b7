-- ===== src/Tests/Serving.antt =====
-- A request with the token.
use secret_rotation_kit.Prelude.{ℕ, suc, ◌≡◌, refl, none, some, [], ◌∷◌}
use secret_rotation_kit.Effect.{Holds, returned}
use secret_rotation_kit.Js.{text, object, field, end}
use secret_rotation_kit.Sidecar.{
  Request, Sidecar, Platform, rotated, refusal, ask_manager, rotate_named, handle_rotate,
  handle_request,
}
use secret_rotation_kit.Validation.{validate_secret_name}
use secret_rotation_kit.Sidecar.Access.{handle_request-Served}
use secret_rotation_kit.Sidecar.Access.Handlers.{Served}

-- The state of the manager is the number of its rotations.
abbrev platform : Platform ℕ ℕ ℕ
platform = record {
  rotate = λ name force n. returned n (suc n);
  get_state = λ name n. returned n n;
  parse_json = λ body. some (object (field "secretName" (text "db") end));
  decode_component = λ s. some s;
  to_utf8 = λ bytes. "{}";
  print = λ n. "n";
}

abbrev posted : Request
posted = record {
  method = "POST";
  pathname = some "/rotate";
  authorization = some "Bearer secret";
  content_length = some 2;
  chunks = (123 ∷ 125 ∷ []) ∷ [];
  failed = none;
}

abbrev fresh : Sidecar ℕ
fresh = record {
  world = 0;
  rotate_total = 0;
  rotate_failures = 0;
  event_emitter = none;
  sse_connections = [];
}

abbrev rotated_once : Sidecar ℕ
rotated_once = record {
  world = 1;
  rotate_total = 1;
  rotate_failures = 0;
  event_emitter = none;
  sse_connections = [];
}

handles_posted :
    handle_request platform (some "secret") 1 posted fresh
    ≡ returned (record { status = 200; reply = rotated 0 }) rotated_once
unfolding handle_request handle_rotate rotate_named ask_manager validate_secret_name
handles_posted = refl

refuses_posted :
    handle_request platform (some "other") 1 posted fresh
    ≡ returned (record { status = 401; reply = refusal "Unauthorized" }) fresh
unfolding handle_request
refuses_posted = refl

handle_request-Served_example :
    Holds
      (λ r t. Served platform (some "secret") posted fresh r.status t)
      (λ e t. (posted.pathname ≡ none) × (t ≡ fresh))
      (handle_request platform (some "secret") 1 posted fresh)
handle_request-Served_example = handle_request-Served platform (some "secret") 1 posted fresh
