-- ===== src/Manager/Overlap.antt =====
-- Calls of rotate that overlap: each runs from its admission to its `finally` block, and others come
-- and go meanwhile.
use secret_rotation_kit.Prelude.{
  ℕ, ◌+◌, ◌≡◌, refl, ◌∙◌, sym, ap, subst, ◌⊎◌, inl, inr, Option, Bool, true, false, not, ◌&&◌, ◌||◌,
  List, [], ◌∷◌, ◌++◌, String, ◌==◌, string_eq, if◌then◌else◌, arith, Bool-cases, eq_of_beq,
  same_iff,
}
use secret_rotation_kit.Effect.{Error, returned, thrown, Holds-value, Holds-error}
use secret_rotation_kit.Limiter.{Limits, Buckets}
use secret_rotation_kit.Workflow.{or_else}
use secret_rotation_kit.Manager.{Gate, has_name, add_name, remove_name, leave, admit}
use secret_rotation_kit.Manager.Admission.{Refused, admit-Admitted}

-- The gate, and the secrets whose rotations run.
pub record Flights : Type 0 where
  pub gate : Gate
  pub running : List String

-- How many rotations of a secret run.
unfoldable pub runs : String → List String → ℕ
runs n [] = 0
runs n (m ∷ ms) = (if m == n then 1 else 0) + runs n ms

module _ (print : ℕ → String) (limits : Limits) (validates : Bool) where
  -- An unforced call, whose options name no other secret than it is called for, is admitted, and the secret
  -- that the options name, or else that one, is rotated; or it is refused; a rotation ends, with its
  -- `finally` block; anything happens to the limiter.
  pub data Step : Flights → Flights → Type 0 where
    begins :
        {g h : Gate} {rs : List String} (name : String) (secret_name : Option String) (t : ℕ)
        → or_else secret_name name ≡ name
        → admit print limits validates name false t g ≡ returned tt h
        → Step
            (record { gate = g; running = rs })
            (record { gate = h; running = or_else secret_name name ∷ rs })
    is_refused :
        {g h : Gate} {rs : List String} (name : String) (t : ℕ) (e : Error)
        → admit print limits validates name false t g ≡ thrown e h
        → Step (record { gate = g; running = rs }) (record { gate = h; running = rs })
    ends :
        {g : Gate} (before : List String) (name : String) (behind : List String)
        → Step
            (record { gate = g; running = before ++ name ∷ behind })
            (record { gate = leave name g; running = before ++ behind })
    limits_otherwise :
        {g : Gate} {rs : List String} (b : Buckets)
        → Step
            (record { gate = g; running = rs })
            (record { gate = record g { buckets = b }; running = rs })

  pub data Reach (a : Flights) : Flights → Type 0 where
    start : Reach a a
    further : {b c : Flights} → Reach a b → Step b c → Reach a c

abbrev pub IsTracked : Flights → Type 0
IsTracked f = (n : String) → runs n f.running ≡ (if has_name n f.gate.rotating then 1 else 0)

has_name-append :
    (n m : String) (ms : List String) → has_name n (ms ++ m ∷ []) ≡ (has_name n ms || (m == n))
has_name-append n m [] = ground arith
has_name-append n m (k ∷ ms) = ground (arith, has_name-append n m ms)

has_name-remove :
    (n m : String) (ms : List String)
    → has_name n (remove_name m ms) ≡ (has_name n ms && not (m == n))
unfolding remove_name
has_name-remove n m [] = refl
has_name-remove n m (k ∷ ms) = elim (Bool-cases (k == m)) [
  | inl e ↦
      let q : (k == n) ≡ (m == n) = ap (λ z. z == n) (eq_of_beq k m e) in
      rw (e, q) (has_name-remove n m ms ∙ absorbed (m == n) (has_name n ms))
  | inr e ↦ elim (Bool-cases (k == n)) [
    | inl d ↦
        let q : (m == n) ≡ false = ground (arith, same_iff k m, same_iff k n, same_iff m n) in
        rw (e, d, q) refl
    | inr d ↦ rw (e, d) (has_name-remove n m ms)
  ]
]
  where
    absorbed : (a b : Bool) → (b && not a) ≡ ((a || b) && not a)
    absorbed true b = ground arith
    absorbed false b = refl

runs-middle :
    (n m : String) (before behind : List String)
    → runs n (before ++ m ∷ behind) ≡ (if m == n then 1 else 0) + runs n (before ++ behind)
unfolding runs
runs-middle n m [] behind = refl
runs-middle n m (k ∷ before) behind = omega (arith, runs-middle n m before behind)

begins-IsTracked :
    (n m : String) (g h : Gate) (rs : List String)
    → runs n rs ≡ (if has_name n g.rotating then 1 else 0)
    → has_name m g.rotating ≡ false
    → h.rotating ≡ add_name m g.rotating
    → runs n (m ∷ rs) ≡ (if has_name n h.rotating then 1 else 0)
unfolding runs
begins-IsTracked n m g h rs i free marked =
    let q : h.rotating ≡ g.rotating ++ m ∷ [] = marked ∙ rw free refl in
    rw (q, has_name-append n m g.rotating)
      (elim (Bool-cases (m == n)) [
        | inl e ↦
            let f = subst (λ z. has_name z g.rotating ≡ false) (eq_of_beq m n e) free in
            let j = rw f at i in rw (e, f) (omega (arith, j))
        | inr e ↦ rw e (omega (arith, i, plain_or (has_name n g.rotating)))
      ])
  where
    plain_or : (a : Bool) → ◌≡◌ {A = ℕ} (if a then 1 else 0) (if a || false then 1 else 0)
    plain_or true = refl
    plain_or false = refl

ends-IsTracked :
    (n m : String) (ms before behind : List String)
    → runs n (before ++ m ∷ behind) ≡ (if has_name n ms then 1 else 0)
    → runs n (before ++ behind) ≡ (if has_name n (remove_name m ms) then 1 else 0)
ends-IsTracked n m ms before behind i =
    let q = runs-middle n m before behind in
    rw (has_name-remove n m ms) (left (has_name n ms) (m == n) (sym q ∙ i))
  where
    left :
        (a b : Bool) {k : ℕ}
        → (if b then 1 else 0) + k ≡ (if a then 1 else 0)
        → k ≡ (if a && not b then 1 else 0)
    left a b h = ground arith

module _ (print : ℕ → String) (limits : Limits) (validates : Bool) where
  Step-IsTracked : {a b : Flights} → Step print limits validates a b → IsTracked a → IsTracked b
  Step-IsTracked (begins {g} {h} {rs} name secret_name t own e) i n =
      let x = Holds-value (admit-Admitted print limits validates name false t g) e in
      subst (λ z. runs n (z ∷ rs) ≡ (if has_name n h.rotating then 1 else 0)) (sym own)
        (begins-IsTracked n name g h rs (i n) (free x.free) x.marked)
    where
      free : {b : Bool} → (b ≡ false) ⊎ (false ≡ true) → b ≡ false
      free (inl e) = e
      free (inr e) = absurd cc
  Step-IsTracked (is_refused {g} {h} {rs} name t e x) i n =
      let q = kept (Holds-error (admit-Admitted print limits validates name false t g) x) in
      subst (λ z. runs n rs ≡ (if has_name n z then 1 else 0)) (sym q) (i n)
    where
      kept : Refused print limits validates name false t g e h → h.rotating ≡ g.rotating
      kept (inl (a, b, q)) = ap (λ z. z.rotating) q
      kept (inr (inl (a, b, c, q))) = ap (λ z. z.rotating) q
      kept (inr (inr (a, b, c, q))) = q
  Step-IsTracked (ends {g} before name behind) i n =
      ends-IsTracked n name g.rotating before behind (i n)
  Step-IsTracked (limits_otherwise b) i n = i n

  -- From a state where it holds, such as the one in which nothing runs: whatever unforced calls of
  -- rotate, whose options name no other secret than they are called for, come, are refused and end, in any
  -- order, a marked secret has exactly one rotation that runs, and any other secret none.
  pub Reach-IsTracked :
      {a b : Flights} → IsTracked a → Reach print limits validates a b → IsTracked b
  Reach-IsTracked i start = i
  Reach-IsTracked i (further r s) = Step-IsTracked s (Reach-IsTracked i r)
