-- ===== src/Tests/Staging.antt =====
-- A secret of the service, as the list of its versions.
use secret_rotation_kit.Prelude.{
  ◌≡◌, ◌≢◌, refl, ◌∙◌, sym, ap, subst, inl, inr, Bool, true, false, not, ◌&&◌, none, some, List, [],
  ◌∷◌, String, ◌==◌, string_eq, beq_self, eq_of_beq, if◌then◌else◌, Bool-cases, In, here, there,
}
use secret_rotation_kit.Effect.{Holds, on_return, on_throw, returned, thrown, plain_error}
use secret_rotation_kit.Provider.{Host}
use secret_rotation_kit.Provider.Aws.{SecretsManagerClient, current_label}
use secret_rotation_kit.Provider.Aws.Promotion.{
  StagedVersion, with_pending, HeldByAnother, AwsLaws, rotate_and_complete, Left,
  rotate_and_complete-throws,
}

abbrev Secret : Type 0
Secret = List StagedVersion

abbrev host : Host Secret
host = record {
  clock = λ s. 0;
  random_hex = λ s. returned "00" s;
  base36 = λ n. "0";
  print = λ n. "0";
}

abbrev has_label : String → List String → Bool
has_label l [] = false
has_label l (m ∷ ms) = let rest = has_label l ms in if l == m then true else rest

abbrev has_id : String → Secret → Bool
has_id id [] = false
has_id id (v ∷ vs) = let rest = has_id id vs in if v.id == id then true else rest

-- Whether a label stands on another version.
abbrev is_held : String → String → Secret → Bool
is_held l id [] = false
is_held l id (v ∷ vs) =
    let rest = is_held l id vs in if not (v.id == id) && has_label l v.stages then true else rest

abbrev client : SecretsManagerClient Secret
client = record {
  create_secret = λ name value description s. returned tt s;
  get_secret_value = λ name selector s.
      returned
        (record {
          secret_string = none;
          version_id = none;
          created_date = none;
          version_stages = none;
        })
        s;
  put_secret_value = λ name value stages s.
      if has_id "v2" s
      then thrown (plain_error "ResourceExistsException") s
      else returned (record { version_id = some "v2"; version_stages = stages })
          (with_pending "v2" value s);
  delete_secret = λ name force s. returned tt s;
  list_secret_version_ids =
      λ name token s. returned (record { versions = none; next_token = none }) s;
  update_secret_version_stage = λ name label from to s. elim to [
    | none ↦ returned tt s
    | some id ↦
        if is_held label id s
        then thrown (plain_error "InvalidParameterException") s
        else returned tt s
  ];
  probe = λ s. returned tt s;
  error_name = λ e. e.message;
}

other_false : (b c : Bool) → (if b then true else c) ≡ false → c ≡ false
other_false true c h = absurd cc
other_false false c h = h

fresh_id :
    (id : String) (vs : Secret) → has_id id vs ≡ false → (v : StagedVersion) → In v vs → v.id ≢ id
fresh_id id [] h v m e = elim m [ ]
fresh_id id (w ∷ vs) h v (here i) e =
    let q : (w.id == id) ≡ true =
      subst (λ z. (z == id) ≡ true) (sym e ∙ ap (λ (z : StagedVersion). z.id) i) (beq_self id) in
    let r = rw q at h in cc
fresh_id id (w ∷ vs) h v (there k) e =
    fresh_id id vs (other_false (w.id == id) (has_id id vs) h) v k e

has_label-In : (l : String) (ls : List String) → In l ls → has_label l ls ≡ true
has_label-In l [] m = elim m [ ]
has_label-In l (m ∷ ms) (here e) = rw (← e, beq_self l) refl
has_label-In l (m ∷ ms) (there k) = elim (Bool-cases (l == m)) [
  | inl e ↦ rw e refl
  | inr e ↦ rw e (has_label-In l ms k)
]

differs : (i j : String) → i ≢ j → (i == j) ≡ false
differs i j n = elim (Bool-cases (i == j)) [ inl e ↦ absurd (n (eq_of_beq i j e)) | inr e ↦ e ]

held_true : (l id : String) (vs : Secret) → HeldByAnother l id vs → is_held l id vs ≡ true
held_true l id [] (v, m, k, n) = elim m [ ]
held_true l id (w ∷ vs) (v, here e, k, n) =
    rw
      (
        differs w.id id (λ q. n (ap (λ (z : StagedVersion). z.id) e ∙ q)),
        has_label-In l w.stages (subst (λ (z : StagedVersion). In l z.stages) e k),
      )
      refl
held_true l id (w ∷ vs) (v, there m, k, n) =
    elim (Bool-cases (not (w.id == id) && has_label l w.stages)) [
      | inl e ↦ rw e refl
      | inr e ↦ rw e (held_true l id vs (v, m, k, n))
    ]

service-AwsLaws : AwsLaws host client (λ s name. s)
service-AwsLaws = record {
  puts = λ name value s. elim (Bool-cases (has_id "v2" s)) [
    | inl e ↦ rw e (on_throw (inl refl))
    | inr e ↦ rw e (on_return ("v2", refl, refl, fresh_id "v2" s e, refl))
  ];
  moves = λ name label id s. elim (Bool-cases (is_held label id s)) [
    | inl e ↦ rw e (on_throw refl)
    | inr e ↦ rw e (on_return (λ h. let r = held_true label id s h in cc))
  ];
  random_keeps = λ name s. on_return refl;
}

abbrev first_version : StagedVersion
first_version = record { id = "v1"; value = "old"; stages = current_label ∷ [] }

rotate_and_complete-throws_example :
    Holds
      (λ x t. ⊥)
      (λ x t. Left host client (λ s name. s) "db" "new" (first_version ∷ []) t)
      (rotate_and_complete host client (λ s name. s) "db" "new" (first_version ∷ []))
rotate_and_complete-throws_example =
    rotate_and_complete-throws host client (λ s name. s) service-AwsLaws "db" "new"
      (first_version ∷ []) first_version (here refl) (here refl)
