-- ===== src/Sidecar/Access/Handlers.antt =====
-- What the handlers of the two protected routes do: a rotation, and the state of a secret.
use secret_rotation_kit.Prelude.{
  ℕ, suc, ◌+◌, ◌≡◌, refl, ◌⊎◌, inl, inr, Bool, true, false, Option, none, some, List, [], ◌∷◌, ◌++◌,
  String, ◌==◌, string_eq, if◌then◌else◌, length, ltb, Bool-cases,
}
use secret_rotation_kit.Effect.{
  Error, plain_error, Outcome, returned, thrown, after, did_return, Holds, on_return, on_throw,
  try_catch, Outcome-cases, ◌>>=◌,
}
use secret_rotation_kit.Js.{
  JsValue, undefined, null, boolean, fraction, not_finite, text, array, object, read,
}
use secret_rotation_kit.Validation.{validate_secret_name}
use secret_rotation_kit.Validation.Names.{IsSecretName, validate_secret_name-IsSecretName}
use secret_rotation_kit.Sidecar.{
  Request, Response, Sidecar, Platform, max_body_size, is_set, bearer_of, read_chunks, is_too_large,
  ask_manager, rotate_named, rotate_parsed, handle_rotate, get_state_of, on_world, is_falsy,
  or_false,
}

module _ {W R S : Type 0} (p : Platform W R S) (auth_token : Option String) where
  -- No token is set, or the request has the header with the token.
  abbrev pub IsAuthorized : Request → Type 0
  IsAuthorized q = (is_set auth_token ≡ false) ⊎ (q.authorization ≡ some (bearer_of auth_token))

  abbrev pub status_for : Bool → ℕ
  status_for b = if b then 200 else 500

  abbrev pub failures_for : Bool → ℕ → ℕ
  failures_for b n = if b then n else suc n

  -- What a request has done when it is answered with a status.
  pub data Served (q : Request) (s : Sidecar W) (status : ℕ) (t : Sidecar W) : Type 0 where
    untouched :
        t.world ≡ s.world
        → t.rotate_total ≡ s.rotate_total
        → t.rotate_failures ≡ s.rotate_failures
        → Served q s status t
    rotates :
        (name force : JsValue)
        → q.method ≡ "POST"
        → IsAuthorized q
        → IsSecretName name
        → status ≡ status_for (did_return (p.rotate name force s.world))
        → t ≡ record s {
          world = after (p.rotate name force s.world);
          rotate_total = suc s.rotate_total;
          rotate_failures =
              failures_for (did_return (p.rotate name force s.world)) s.rotate_failures;
        }
        → Served q s status t
    asks :
        (name : String)
        → q.method ≡ "GET"
        → IsAuthorized q
        → IsSecretName (text name)
        → status ≡ status_for (did_return (p.get_state name s.world))
        → t ≡ record s { world = after (p.get_state name s.world) }
        → Served q s status t

  abbrev pub Ends : Request → Sidecar W → Outcome (Sidecar W) (Response R S) → Type 0
  Ends q s = Holds (λ r t. Served q s r.status t) (λ e t. Served q s 500 t)

  pub same : (q : Request) (s : Sidecar W) (n : ℕ) → Served q s n s
  same q s n = untouched refl refl refl

  ask_manager-Served :
      (q : Request) (s : Sidecar W) (name force : JsValue)
      → q.method ≡ "POST"
      → IsAuthorized q
      → IsSecretName name
      → Ends q s (ask_manager p auth_token name force s)
  unfolding ask_manager
  ask_manager-Served q s name force m a n = elim (Outcome-cases (p.rotate name force s.world)) [
    | inl (r, w, e) ↦
        rw (ask_manager, try_catch, ◌>>=◌, on_world, e)
          (on_return (rotates name force m a n (rw e refl) (rw e refl)))
    | inr (x, w, e) ↦
        rw (ask_manager, try_catch, ◌>>=◌, on_world, e)
          (on_return (rotates name force m a n (rw e refl) (rw e refl)))
  ]

  named : (name : JsValue) → (validate_secret_name p.print name).valid ≡ true → IsSecretName name
  named name e = (validate_secret_name-IsSecretName p.print name).0 e

  rotate_named-Served :
      (q : Request) (s : Sidecar W) (name force : JsValue)
      → q.method ≡ "POST"
      → IsAuthorized q
      → Ends q s (rotate_named p auth_token name force s)
  unfolding rotate_named
  rotate_named-Served q s name force m a = elim (Bool-cases (is_falsy name)) [
    | inl f ↦ rw (rotate_named, f) (on_return (same q s 400))
    | inr f ↦ elim (Bool-cases (validate_secret_name p.print name).valid) [
      | inr v ↦ rw (rotate_named, f, v) (on_return (same q s 400))
      | inl v ↦
          rw (rotate_named, f, v) (ask_manager-Served q s name (or_false force) m a (named name v))
    ]
  ]

  rotate_parsed-Served :
      (q : Request) (s : Sidecar W) (v : Option JsValue)
      → q.method ≡ "POST"
      → IsAuthorized q
      → Ends q s (rotate_parsed p auth_token v s)
  rotate_parsed-Served q s none m a = on_return (same q s 400)
  rotate_parsed-Served q s (some null) m a = on_throw (same q s 500)
  rotate_parsed-Served q s (some (object fs)) m a =
      rotate_named-Served q s (read fs "secretName") (read fs "force") m a
  rotate_parsed-Served q s (some undefined) m a = rotate_named-Served q s undefined undefined m a
  rotate_parsed-Served q s (some (boolean b)) m a = rotate_named-Served q s undefined undefined m a
  rotate_parsed-Served q s (some (fraction n d)) m a =
      rotate_named-Served q s undefined undefined m a
  rotate_parsed-Served q s (some not_finite) m a = rotate_named-Served q s undefined undefined m a
  rotate_parsed-Served q s (some (text x)) m a = rotate_named-Served q s undefined undefined m a
  rotate_parsed-Served q s (some (array xs)) m a = rotate_named-Served q s undefined undefined m a

  -- Reading the body changes nothing.
  read_chunks-cases :
      (s : Sidecar W) (total : ℕ) (bytes : List ℕ) (cs : List (List ℕ)) (failed : Option Error)
      → ((b : String) × (read_chunks p auth_token total bytes cs failed s ≡ returned b s))
        ⊎ ((e : Error) × (read_chunks p auth_token total bytes cs failed s ≡ thrown e s))
  read_chunks-cases s total bytes [] none = inl (p.to_utf8 bytes, refl)
  read_chunks-cases s total bytes [] (some e) = inr (e, refl)
  read_chunks-cases s total bytes (c ∷ cs) failed =
      elim (Bool-cases (ltb max_body_size (total + length c))) [
        | inl b ↦ inr (plain_error "Request body too large", rw (b) refl)
        | inr b ↦ rw (b) (read_chunks-cases s (total + length c) (bytes ++ c) cs failed)
      ]

  pub handle_rotate-Served :
      (q : Request) (s : Sidecar W)
      → q.method ≡ "POST"
      → IsAuthorized q
      → Ends q s (handle_rotate p auth_token q s)
  unfolding handle_rotate
  handle_rotate-Served q s m a = elim (Bool-cases (is_too_large p auth_token q.content_length)) [
    | inl l ↦ rw (handle_rotate, l) (on_throw (same q s 500))
    | inr l ↦ elim (read_chunks-cases s 0 [] q.chunks q.failed) [
      | inl (b, e) ↦ rw (handle_rotate, l, ◌>>=◌, e) (rotate_parsed-Served q s (p.parse_json b) m a)
      | inr (x, e) ↦ rw (handle_rotate, l, ◌>>=◌, e) (on_throw (same q s 500))
    ]
  ]

  pub get_state_of-Served :
      (q : Request) (s : Sidecar W) (d : Option String)
      → q.method ≡ "GET"
      → IsAuthorized q
      → Ends q s (get_state_of p auth_token d s)
  unfolding get_state_of
  get_state_of-Served q s none m a = on_throw (same q s 500)
  get_state_of-Served q s (some name) m a = elim (Bool-cases (name == "")) [
    | inl f ↦ rw (get_state_of, f) (on_return (same q s 400))
    | inr f ↦ elim (Bool-cases (validate_secret_name p.print (text name)).valid) [
      | inr v ↦ rw (get_state_of, f, v) (on_return (same q s 400))
      | inl v ↦ elim (Outcome-cases (p.get_state name s.world)) [
        | inl (r, w, e) ↦
            rw (get_state_of, f, v, ◌>>=◌, on_world, e)
              (on_return (asks name m a (named (text name) v) (rw e refl) (rw e refl)))
        | inr (x, w, e) ↦
            rw (get_state_of, f, v, ◌>>=◌, on_world, e)
              (on_throw (asks name m a (named (text name) v) (rw e refl) (rw e refl)))
      ]
    ]
  ]
