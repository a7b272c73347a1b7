-- ===== src/Provider/Vercel/Service.antt =====
-- What the adapter relies on: the documented behaviour of the service.
use secret_rotation_kit.Prelude.{
  ◌≡◌, refl, ◌∙◌, ap, ◌⊎◌, inl, inr, true, false, not, Option, none, some, List, [], ◌∷◌, ◌++◌,
  String, ◌==◌, string_eq, eq_of_beq, if◌then◌else◌, nat_beq, filter, find, Bool-cases, In, here,
  there,
}
use secret_rotation_kit.Effect.{Eff, Outcome, Holds, on_return, on_throw}
use secret_rotation_kit.Workflow.Triples.{Holds-bind, Holds-mono, Holds-mono_thrown}
use secret_rotation_kit.Provider.{Host, non_empty}
use secret_rotation_kit.Provider.Vercel.{
  VercelEnv, Json, env_list, env_object, created_response, one_created, EnvBody, normalized,
  ApiCall, ApiResponse, Vercel, comment_active, comment_pending, or_option, team_query, env_path,
  env_body, is_env, answered, json_of, api,
}
use secret_rotation_kit.Provider.Vercel.Rotation.{patch_body}

-- An update of the variable with an id, its removal, and a change of its comment alone.
abbrev pub patched_env : Option String → String → VercelEnv → VercelEnv
patched_env value comment e = record e { value = or_option value e.value; comment = some comment }

abbrev pub patched : String → Option String → String → List VercelEnv → List VercelEnv
patched id value comment [] = []
patched id value comment (e ∷ es) =
    (if e.id == id then patched_env value comment e else e) ∷ patched id value comment es

abbrev pub removed : String → List VercelEnv → List VercelEnv
removed id es = filter (λ e. not (e.id == id)) es

pub patched-patched :
    (i a c : String) (b : Option String) (d : String) (es : List VercelEnv)
    → patched i (some a) c (patched i b d es) ≡ patched i (some a) c es
patched-patched i a c b d [] = refl
patched-patched i a c b d (e ∷ es) = elim (Bool-cases (e.id == i)) [
  | inl q ↦ rw (q, q, patched-patched i a c b d es) refl
  | inr q ↦ rw (q, q, patched-patched i a c b d es) refl
]

pub removed-patched :
    (i : String) (b : Option String) (d : String) (es : List VercelEnv)
    → removed i (patched i b d es) ≡ removed i es
removed-patched i b d [] = refl
removed-patched i b d (e ∷ es) = elim (Bool-cases (e.id == i)) [
  | inl q ↦ rw (q, q, removed-patched i b d es) refl
  | inr q ↦ rw (q, q, removed-patched i b d es) refl
]

-- Writing the value that is there.
pub patched_value :
    (i a c : String) (es : List VercelEnv)
    → ((x : VercelEnv) → In x es → x.id ≡ i → x.value ≡ some a)
    → patched i (some a) c es ≡ patched i none c es
patched_value i a c [] h = refl
patched_value i a c (e ∷ es) h = elim (Bool-cases (e.id == i)) [
  | inl q ↦
      rw (q, patched_value i a c es (λ x m. h x (there m)), h e (here refl) (eq_of_beq e.id i q))
        refl
  | inr q ↦ rw (q, patched_value i a c es (λ x m. h x (there m))) refl
]

module _ {O : Type 0} (host : Host O) (fetch : ApiCall → Eff O ApiResponse)
    (encode : String → String) (p : Vercel) (stored : O → List VercelEnv) where
  abbrev pub call_of : String → Option String → List (String × String) → Option EnvBody → ApiCall
  call_of method id query body = record {
    method = method;
    path = env_path host fetch encode p id;
    query = team_query (non_empty p.team_id) ++ query;
    body = body;
  }

  -- A write changes the variables by `f`, or leaves them; which, is known from an answer only.
  abbrev pub Writes : (List VercelEnv → List VercelEnv) → O → Outcome O ApiResponse → Type 0
  Writes f s =
      Holds
        (λ r t.
          ((r.ok ≡ true) × (stored t ≡ f (stored s))) ⊎ ((r.ok ≡ false) × (stored t ≡ stored s)))
        (λ e t. (stored t ≡ stored s) ⊎ (stored t ≡ f (stored s)))

  -- An answer to an upsert of the variable with an id.
  pub data Upserts (f : List VercelEnv → List VercelEnv) (id : String) (s : O) (r : ApiResponse)
      (t : O) : Type 0 where
    stores :
        (j : VercelEnv)
        → r.ok ≡ true
        → nat_beq r.status 204 ≡ false
        → r.json ≡ some (created_response (one_created j) [])
        → j.id ≡ id
        → stored t ≡ f (stored s)
        → Upserts f id s r t
    garbled :
        r.ok ≡ true
        → nat_beq r.status 204 ≡ false
        → r.json ≡ none
        → stored t ≡ f (stored s)
        → Upserts f id s r t
    fails :
        (j : VercelEnv) (m : String) (ms : List String)
        → r.ok ≡ true
        → nat_beq r.status 204 ≡ false
        → r.json ≡ some (created_response (one_created j) (m ∷ ms))
        → stored t ≡ stored s
        → Upserts f id s r t
    refuses : r.ok ≡ false → stored t ≡ stored s → Upserts f id s r t

  -- The variable has the type and the targets that the adapter is configured with.
  abbrev pub IsConfigured : VercelEnv → Type 0
  IsConfigured e = (e.type ≡ p.env_type) × (normalized e.target ≡ p.target)

  -- What is documented of the service (an upsert with the key, the type and the targets of a variable that
  -- is there overrides its value and its comment; of other upserts nothing is assumed), and of the source of random bytes.
  pub record VercelLaws : Type 0 where
    pub reads :
        (s : O)
        → Holds
            (λ r t.
              (stored t ≡ stored s)
              × ((r.ok ≡ true)
                  → (r.json ≡ none)
                    ⊎ (r.json ≡ some (env_list (stored s)))
                    ⊎ (r.json ≡ some (env_object (stored s)))))
            (λ e t. stored t ≡ stored s)
            (fetch (call_of "GET" none (("decrypt", "true") ∷ []) none) s)
    pub patches :
        (id : String) (value : Option String) (s : O)
        → Writes
            (patched id value comment_active)
            s
            (fetch (call_of "PATCH" (some id) [] (some (patch_body host fetch encode p value))) s)
    pub deletes :
        (id : String) (s : O) → Writes (removed id) s (fetch (call_of "DELETE" (some id) [] none) s)
    pub upserts :
        (name value : String) (e : VercelEnv) (s : O)
        → find (is_env host fetch encode p name none) (stored s) ≡ some e
        → IsConfigured e
        → Holds
            (Upserts (patched e.id (some value) comment_pending) e.id s)
            (λ x t.
              (stored t ≡ stored s)
              ⊎ (stored t ≡ patched e.id (some value) comment_pending (stored s)))
            (fetch
              (call_of "POST" none
                (("upsert", "true") ∷ [])
                (some (env_body host fetch encode p name value comment_pending)))
              s)
    pub random_keeps :
        (s : O)
        → Holds (λ x t. stored t ≡ stored s) (λ e t. stored t ≡ stored s) (host.random_hex s)

  -- An answer changes nothing more.
  answered-same :
      (c : ApiCall) (r : ApiResponse) (t : O)
      → Holds (λ j u. u ≡ t) (λ e u. u ≡ t) (answered host fetch encode p c r t)
  answered-same c r t = elim (Bool-cases r.ok) [
    | inr n ↦ rw n (on_throw refl)
    | inl k ↦ elim (Bool-cases (nat_beq r.status 204)) [
      | inl q ↦ rw (k, q) (on_return refl)
      | inr q ↦ rw (k, q) (read r.json)
    ]
  ]
    where
      read :
          (j : Option Json) → Holds (λ i u. u ≡ t) (λ e u. u ≡ t) (json_of host fetch encode p j t)
      read none = on_throw refl
      read (some j) = on_return refl

  -- A call that only writes.
  pub api-Writes :
      (f : List VercelEnv → List VercelEnv) (s : O) (method : String) (id : Option String)
      (query : List (String × String)) (body : Option EnvBody)
      → Writes f s (fetch (call_of method id query body) s)
      → Holds
          (λ j t. stored t ≡ f (stored s))
          (λ e t. (stored t ≡ stored s) ⊎ (stored t ≡ f (stored s)))
          (api host fetch encode p method (env_path host fetch encode p id) query body s)
  unfolding api
  api-Writes f s method id query body w = Holds-bind (Holds-mono_thrown w (λ e t q. q)) after_call
    where
      after_call :
          (r : ApiResponse) (t : O)
          → ((r.ok ≡ true) × (stored t ≡ f (stored s))) ⊎ ((r.ok ≡ false) × (stored t ≡ stored s))
          → Holds
              (λ j u. stored u ≡ f (stored s))
              (λ e u. (stored u ≡ stored s) ⊎ (stored u ≡ f (stored s)))
              (answered host fetch encode p (call_of method id query body) r t)
      after_call r t (inl (k, q)) =
          Holds-mono_thrown
            (Holds-mono (answered-same (call_of method id query body) r t)
              (λ j u e. ap stored e ∙ q))
            (λ x u e. inr (ap stored e ∙ q))
      after_call r t (inr (k, q)) = rw k (on_throw (inl q))
