-- ===== src/Manager/Admission.antt =====
-- When a rotation may begin, and what a refusal leaves.
use secret_rotation_kit.Prelude.{
  ℕ, ◌≡◌, refl, ◌⊎◌, inl, inr, Bool, true, false, not, ◌&&◌, ◌<>◌, Option, some, String,
  if◌then◌else◌, Bool-cases,
}
use secret_rotation_kit.Effect.{
  Error, plain_error, returned, thrown, Holds, on_return, on_throw, ◌>>◌, Outcome-cases,
}
use secret_rotation_kit.Js.{text}
use secret_rotation_kit.Validation.{
  ValidationResult, validate_secret_name, assert_valid, prefix_of, joined,
}
use secret_rotation_kit.Validation.Names.{IsSecretName, validate_secret_name-IsSecretName}
use secret_rotation_kit.Limiter.{Limits, consume}
use secret_rotation_kit.Manager.{
  Gate, has_name, add_name, in_progress, as_rotation_error, check_name, admit,
}

assert_valid_ok :
    {S : Type 0} (r : ValidationResult) (c : Option String) (s : S)
    → r.valid ≡ true
    → assert_valid r c s ≡ returned tt s
unfolding assert_valid
assert_valid_ok r c s e = rw e refl

assert_valid_bad :
    {S : Type 0} (r : ValidationResult) (c : Option String) (s : S)
    → r.valid ≡ false
    → assert_valid r c s ≡ thrown (plain_error (prefix_of c <> joined r.errors)) s
unfolding assert_valid
assert_valid_bad r c s e = rw e refl

module _ (print : ℕ → String) (limits : Limits) (validates : Bool) (name : String) (force : Bool)
    (t : ℕ) (g : Gate) where
  -- A rotation that may begin: the name is valid where names are validated, the secret is not being
  -- rotated unless the call is forced, and the limiter gave a token; the name is marked.
  pub record Admitted (h : Gate) : Type 0 where
    pub named : validates ≡ true → IsSecretName (text name)
    pub free : (has_name name g.rotating ≡ false) ⊎ (force ≡ true)
    pub token : consume limits name t g.buckets ≡ returned tt h.buckets
    pub marked : h.rotating ≡ add_name name g.rotating

  abbrev pub BadName : Error → Gate → Type 0
  BadName e h = (validates ≡ true) × (IsSecretName (text name) → ⊥) × (h ≡ g)

  abbrev pub Busy : Error → Gate → Type 0
  Busy e h = (has_name name g.rotating ≡ true) × (force ≡ false) × (e ≡ in_progress name) × (h ≡ g)

  abbrev pub OutOfTokens : Error → Gate → Type 0
  OutOfTokens e h =
      (x : Error) × (consume limits name t g.buckets ≡ thrown x h.buckets)
      × (e ≡ as_rotation_error x)
      × (h.rotating ≡ g.rotating)

  abbrev pub Refused : Error → Gate → Type 0
  Refused e h = BadName e h ⊎ (Busy e h ⊎ OutOfTokens e h)

  checked :
      (b : Bool)
      → ((check_name print b name "secretName" g ≡ returned tt g)
          × (b ≡ true → IsSecretName (text name)))
        ⊎ ((e : Error) × (check_name print b name "secretName" g ≡ thrown e g)
            × (b ≡ true)
            × (IsSecretName (text name) → ⊥))
  checked false = inl (refl, λ e. absurd cc)
  checked true =
      let r = validate_secret_name print (text name) in
      let (f, h) = validate_secret_name-IsSecretName print (text name) in
      elim (Bool-cases r.valid) [
        | inl e ↦ inl (assert_valid_ok r (some "secretName") g e, λ q. f e)
        | inr e ↦
            inr (_, assert_valid_bad r (some "secretName") g e, refl, λ n. let q = h n in cc e)
      ]

  past_name :
      (validates ≡ true → IsSecretName (text name))
      → Holds
          (λ _. Admitted)
          Refused
          (if has_name name g.rotating && not force
            then thrown (in_progress name) g
            else elim (consume limits name t g.buckets) [
              | thrown e b ↦ thrown (as_rotation_error e) (record g { buckets = b })
              | returned _ b ↦
                  returned (tt {0}) (record { buckets = b; rotating = add_name name g.rotating })
            ])
  past_name named = elim (Bool-cases (has_name name g.rotating && not force)) [
    | inl e ↦ rw e (on_throw (inr (inl (busy (has_name name g.rotating) force e))))
    | inr e ↦ rw e (elim (Outcome-cases (consume limits name t g.buckets)) [
      | inl (a, b, q) ↦ rw q (
          on_return (record {
            named = named;
            free = free (has_name name g.rotating) force e;
            token = q;
            marked = refl;
          }))
      | inr (x, b, q) ↦ rw q (on_throw (inr (inr (x, q, refl, refl))))
    ])
  ]
    where
      busy :
          (h f : Bool)
          → (h && not f) ≡ true
          → (h ≡ true) × (f ≡ false) × (in_progress name ≡ in_progress name) × (g ≡ g)
      busy true false e = (refl, refl, refl, refl)
      busy true true e = absurd cc
      busy false f e = absurd cc

      free : (h f : Bool) → (h && not f) ≡ false → (h ≡ false) ⊎ (f ≡ true)
      free false f e = inl refl
      free true true e = inr refl
      free true false e = absurd cc

  pub admit-Admitted : Holds (λ _. Admitted) Refused (admit print limits validates name force t g)
  unfolding admit
  admit-Admitted = elim (checked validates) [
    | inl (q, n) ↦ rw (◌>>◌, q) (past_name n)
    | inr (e, q, v, n) ↦ rw (◌>>◌, q) (on_throw (inl (v, n, refl)))
  ]
