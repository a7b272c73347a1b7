-- ===== src/Polling/Guard.antt =====
-- When a verification of a session is refused, and what its end leaves of its state.
use secret_rotation_kit.Prelude.{
  ℕ, zero, suc, ◌≡◌, refl, ap, ◌∙◌, ◌⊎◌, inl, inr, true, false, some, List, [], ◌∷◌, String,
  string_eq, Bool-cases, Option-cases, arith,
}
use secret_rotation_kit.Map
use secret_rotation_kit.Polling.{
  Status, in_progress, cancelled, is_in_progress, is_cancelled, VerificationState, Verifier,
  Surroundings, at, change, set_at, cancelled_at, fail_unless_cancelled, is_own, deactivate, busy,
}

module _ {E Ratio : Type 0} where
  -- A verification of the session is active, and has the state in_progress.
  abbrev pub InProgress : String → Verifier E Ratio → Type 0
  InProgress session_id v =
      (id : ℕ) × (s : VerificationState Ratio) × (Map.get v.active_verifications session_id
        ≡ some id)
      × (at v.heap id ≡ some s)
      × (s.state ≡ in_progress)

  abbrev pub IsFree : String → Verifier E Ratio → Type 0
  IsFree session_id v = InProgress session_id v → ⊥

  -- The verification with the number has been cancelled.
  abbrev pub CancelledAt : ℕ → Verifier E Ratio → Type 0
  CancelledAt id v = (s : VerificationState Ratio) × (at v.heap id ≡ some s) × (s.state ≡ cancelled)

  module _ (x : Surroundings E Ratio) (print : ℕ → String) where
    pub busy-cases :
        (n : String) (v : Verifier E Ratio)
        → ((busy x print (Map.get v.active_verifications n) v ≡ true) × InProgress n v)
          ⊎ ((busy x print (Map.get v.active_verifications n) v ≡ false) × IsFree n v)
    busy-cases n v = elim (Option-cases (Map.get v.active_verifications n)) [
      | inl e ↦ inr (rw e refl, λ (id, s, f, g, h). cc)
      | inr (id, e) ↦ elim (Option-cases (at v.heap id)) [
        | inl f ↦ inr (
          rw (busy, e, f) refl,
          λ (j, s, e', g, h).
              let same : id ≡ j = cc in let g' : at v.heap id ≡ some s = rw same g in cc,
        )
        | inr (s, f) ↦ elim (Bool-cases (is_in_progress s.state)) [
          | inl g ↦ inl (rw (busy, e, f, g) refl, (id, s, e, f, progress_of_test s.state g))
          | inr g ↦ inr (
            rw (busy, e, f, g) refl,
            λ (j, s', e', f', h).
                let same : id ≡ j = cc in
                let f'' : at v.heap id ≡ some s' = rw same f' in
                let q : s' ≡ s = cc in
                let r = ap (λ (z : VerificationState Ratio). is_in_progress z.state) q in
                cc (ap is_in_progress h),
          )
        ]
      ]
    ]
      where
        progress_of_test : (t : Status) → is_in_progress t ≡ true → t ≡ in_progress
        progress_of_test t e = ground arith

    at-change :
        {A : Type 0} (n : ℕ) (f : A → A) (xs : List A) {a : A}
        → at xs n ≡ some a
        → at (change n f xs) n ≡ some (f a)
    at-change n f [] e = cc
    at-change zero f (y ∷ ys) e = ap some (ap f cc)
    at-change (suc n) f (y ∷ ys) e = at-change n f ys e

    -- The test of the code.
    pub cancelled-At :
        (id : ℕ) (v : Verifier E Ratio) → cancelled_at x print id v ≡ true → CancelledAt id v
    cancelled-At id v e = elim (Option-cases (at v.heap id)) [
      | inl f ↦ let r = rw f at e in cc
      | inr (s, f) ↦ (s, f, cancelled_of s.state (rw f at e))
    ]
      where
        cancelled_of : (t : Status) → is_cancelled t ≡ true → t ≡ cancelled
        cancelled_of t h = ground arith

    -- The end of a verification leaves it cancelled, and the time as it was.
    pub deactivate-CancelledAt :
        (n : String) (id : ℕ) (v : Verifier E Ratio)
        → CancelledAt id v
        → CancelledAt id
            (deactivate x print n id (set_at x print id (fail_unless_cancelled x print) v))
    unfolding deactivate
    deactivate-CancelledAt n id v (s, f, c) =
        let kept : fail_unless_cancelled x print s ≡ s =
          rw (fail_unless_cancelled, ap is_cancelled c) refl in
        let g = at-change id (fail_unless_cancelled x print) v.heap f ∙ ap some kept in
        elim (Bool-cases (is_own x print (Map.get v.active_verifications n) id)) [
          | inl b ↦ rw (deactivate, b) (s, g, c)
          | inr b ↦ rw (deactivate, b) (s, g, c)
        ]

    pub outside-deactivate :
        (n : String) (id : ℕ) (v : Verifier E Ratio)
        → (deactivate x print n id v).outside ≡ v.outside
    unfolding deactivate
    outside-deactivate n id v =
        elim (Bool-cases (is_own x print (Map.get v.active_verifications n) id)) [
          | inl b ↦ rw (deactivate, b) refl
          | inr b ↦ rw (deactivate, b) refl
        ]
