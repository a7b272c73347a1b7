-- ===== src/Tests/Deploying.antt =====
-- A project of the service, as the list of its variables.
use secret_rotation_kit.Prelude.{
  ◌<>◌, ◌≡◌, ◌≢◌, refl, ◌⊎◌, inl, inr, true, false, Option, none, some, List, [], ◌∷◌, String, ◌==◌,
  string_eq, if◌then◌else◌, find, filter, not, sym, ◌∙◌, beq_self, beq_of_eq, eq_of_beq, Bool-cases,
  In, here, there, ap,
}
use text.Mathlib.TextLemmas.{append_cancel_left}
use secret_rotation_kit.Effect.{Eff, Holds, on_return, returned}
use secret_rotation_kit.Provider.{Host}
use secret_rotation_kit.Map.{get}
use secret_rotation_kit.Provider.{new_session}
use secret_rotation_kit.Provider.Vercel.{
  find_env, list_envs, api, VercelEnv, one_target, Json, env_list, created_response, one_created,
  other_json, EnvBody, ApiCall, ApiResponse, Vercel, comment_active, is_env, get_secret,
}
use secret_rotation_kit.Provider.Vercel.Secrets.{store_secret_value}
use secret_rotation_kit.Provider.Vercel.Rotation.{begin_rotation, capture, cancel_rotation}
use secret_rotation_kit.Provider.Vercel.Service.{patched_env, patched, removed, VercelLaws, stores}
use secret_rotation_kit.Provider.Vercel.Restore.{
  Deleted, rotate_and_cancel, Restored, Overwritten, ReadFailed, rotate_and_cancel-Restored,
}

abbrev Project : Type 0
Project = List VercelEnv

abbrev host : Host Project
host = record {
  clock = λ s. 0;
  random_hex = λ s. returned "00" s;
  base36 = λ n. "0";
  print = λ n. "0";
}

abbrev project : Vercel
project = record {
  project_id = "prj";
  team_id = none;
  target = "production" ∷ [];
  env_type = "encrypted";
}

abbrev encode : String → String
encode s = s

abbrev ok_with : Json → ApiResponse
ok_with j = record { ok = true; status = 200; text = none; json = some j }

abbrev path_of : String → String
path_of id = "/v9/projects/" <> "prj" <> "/env/" <> id

abbrev value_of : Option EnvBody → Option String
value_of none = none
value_of (some b) = b.value

abbrev patch_at : String → Option String → Project → Project
patch_at path value [] = []
patch_at path value (e ∷ es) =
    (if path_of e.id == path then patched_env value comment_active e else e)
    ∷ patch_at path value es

abbrev delete_at : String → Project → Project
delete_at path es = filter (λ e. not (path_of e.id == path)) es

same_path : (i j : String) → (path_of i == path_of j) ≡ (i == j)
same_path i j = elim (Bool-cases (i == j)) [
  | inl e ↦ rw (eq_of_beq i j e) (beq_self (path_of j) ∙ sym (beq_self j))
  | inr e ↦ elim (Bool-cases (path_of i == path_of j)) [
    | inl f ↦ absurd (
        let q = append_cancel_left "/env/" i j (
          append_cancel_left "prj" _ _
            (append_cancel_left "/v9/projects/" _ _ (eq_of_beq (path_of i) (path_of j) f))) in
        let r = beq_of_eq i j q in cc)
    | inr f ↦ f ∙ sym e
  ]
]

patch_at-patched :
    (i : String) (v : Option String) (es : Project)
    → patch_at (path_of i) v es ≡ patched i v comment_active es
patch_at-patched i v [] = refl
patch_at-patched i v (e ∷ es) = rw (same_path e.id i, patch_at-patched i v es) refl

delete_at-removed : (i : String) (es : Project) → delete_at (path_of i) es ≡ removed i es
delete_at-removed i [] = refl
delete_at-removed i (e ∷ es) = rw (same_path e.id i, delete_at-removed i es) refl

abbrev refused : ApiResponse
refused = record { ok = false; status = 400; text = none; json = none }

abbrev upsert_by : EnvBody → Option VercelEnv → Eff Project ApiResponse
upsert_by b none es = returned refused es
upsert_by b (some e) es =
    returned (ok_with (created_response (one_created e) [])) (patched e.id b.value b.comment es)

abbrev unanswered : ApiCall → Eff Project ApiResponse
unanswered c = returned refused

abbrev upsert_key : EnvBody → Option String → Eff Project ApiResponse
upsert_key b none es = returned refused es
upsert_key b (some name) es =
    upsert_by b (find (is_env host unanswered encode project name none) es) es

abbrev upsert : Option EnvBody → Eff Project ApiResponse
upsert none es = returned refused es
upsert (some b) es = upsert_key b b.key es

abbrev serve : ApiCall → Eff Project ApiResponse
serve c es =
    if c.method == "GET"
    then returned (ok_with (env_list es)) es
    else if c.method == "PATCH"
    then returned (ok_with other_json) (patch_at c.path (value_of c.body) es)
    else if c.method == "DELETE"
    then returned (ok_with other_json) (delete_at c.path es)
    else upsert c.body es

service-VercelLaws : VercelLaws host serve encode project (λ es. es)
service-VercelLaws = record {
  reads = λ s. on_return (refl, λ k. inr (inl refl));
  patches = λ id value s. on_return (inl (refl, patch_at-patched id value s));
  deletes = λ id s. on_return (inl (refl, delete_at-removed id s));
  upserts = λ name value e s f configured. rw f (on_return (stores e refl refl refl refl refl));
  random_keeps = λ s. on_return refl;
}

abbrev token : VercelEnv
token = record {
  id = "e1";
  key = "TOKEN";
  value = some "old";
  type = "encrypted";
  target = one_target "production";
  comment = none;
  created_at = none;
}

abbrev other : VercelEnv
other = record token { id = "e2"; key = "OTHER"; value = some "kept" }

abbrev variables : Project
variables = other ∷ token ∷ []

other_id : ◌≢◌ {A = String} "e2" "e1"
other_id h = let e = beq_of_eq "e2" "e1" h in cc

only_token : (x : VercelEnv) → In x variables → x.id ≡ "e1" → x ≡ token
only_token x (here e) i = absurd (other_id (ap (λ (z : VercelEnv). z.id) (sym e) ∙ i))
only_token x (there (here e)) i = e
only_token x (there (there m)) i = elim m [ ]

rotate_and_cancel-Restored_example :
    Holds
      (λ x t.
        Restored host serve encode project (λ es. es) "e1" variables t
        ⊎ (ReadFailed host serve encode project (λ es. es) "TOKEN" variables
            × (Overwritten host serve encode project (λ es. es) "e1" "new" variables t
                ⊎ Deleted host serve encode project (λ es. es) "e1" variables t)))
      (λ x t.
        (t ≡ variables)
        ⊎ Overwritten host serve encode project (λ es. es) "e1" "new" variables t
        ⊎ Restored host serve encode project (λ es. es) "e1" variables t)
      (rotate_and_cancel host serve encode project (λ es. es) "TOKEN" "new" variables)
rotate_and_cancel-Restored_example =
    rotate_and_cancel-Restored host serve encode project (λ es. es) service-VercelLaws "TOKEN" "new"
      "old" token refl refl (refl, refl) variables refl only_token

-- A run: the comment alone has changed.
abbrev restored_variables : Project
restored_variables = other ∷ record token { comment = some comment_active } ∷ []

runs_restored :
    rotate_and_cancel host serve encode project (λ es. es) "TOKEN" "new" variables
    ≡ returned tt restored_variables
unfolding begin_rotation capture get_secret find_env list_envs api new_session store_secret_value
    cancel_rotation get
runs_restored = refl
