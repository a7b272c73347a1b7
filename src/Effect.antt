-- ===== src/Effect.antt =====
-- Stateful code that may throw (packages/core/src/errors.ts): an `async` method is a function from
-- the state to what it returned or threw and the state it leaves. A throw keeps the writes made
-- before it.
use secret_rotation_kit.Prelude.{◌≡◌, refl, subst, ◌⊎◌, inl, inr, Bool, true, Option, some, String}

-- The stages of a rotation, by which errors are tagged.
pub data RotationStage : Type 0 where
  generation propagation verification activation revocation : RotationStage

-- `Error`, and `RotationError` with its subclasses, which differ by the name alone.
pub data ErrorClass : Type 0 where
  plain : ErrorClass
  rotation_error : (stage : Option RotationStage) (can_retry : Bool) → ErrorClass

pub record Error : Type 0 where
  pub message : String
  pub class : ErrorClass

-- `new Error(message)`.
abbrev pub plain_error : String → Error
plain_error m = record { message = m; class = plain }

-- `new RotationError(message, stage, canRetry)`, and its subclasses with both given.
abbrev pub staged_error : String → RotationStage → Bool → Error
staged_error m s r = record { message = m; class = rotation_error (some s) r }

-- `error instanceof RotationError ? error.canRetry : true`.
abbrev pub can_retry_of : ErrorClass → Bool
can_retry_of plain = true
can_retry_of (rotation_error s r) = r

pub data Outcome (S A : Type 0) : Type 0 where
  returned : A → S → Outcome S A
  thrown : Error → S → Outcome S A

abbrev pub Eff : Type 0 → Type 0 → Type 0
Eff S A = S → Outcome S A

infixl 5 ◌>>=◌ ◌>>◌
abbrev pub ◌>>=◌ : {S A B : Type 0} → Eff S A → (A → Eff S B) → Eff S B
◌>>=◌ m f s = elim (m s) [ returned a t ↦ f a t | thrown e t ↦ thrown e t ]

abbrev pub ◌>>◌ : {S A B : Type 0} → Eff S A → Eff S B → Eff S B
◌>>◌ m k s = elim (m s) [ returned a t ↦ k t | thrown e t ↦ thrown e t ]

abbrev pub pure : {S A : Type 0} → A → Eff S A
pure a s = returned a s

abbrev pub throw : {S A : Type 0} → Error → Eff S A
throw e s = thrown e s

-- `try { m } catch (e) { h(e) }`.
abbrev pub try_catch : {S A : Type 0} → Eff S A → (Error → Eff S A) → Eff S A
try_catch m h s = elim (m s) [ returned a t ↦ returned a t | thrown e t ↦ h e t ]

-- The state that a call leaves, whether it returned or threw.
abbrev pub after : {S A : Type 0} → Outcome S A → S
after (returned a s) = s
after (thrown e s) = s

abbrev pub did_return : {S A : Type 0} → Outcome S A → Bool
did_return (returned a s) = true
did_return (thrown e s) = Bool.false

-- What holds of the value and the state if the call returned, and of the error and the state if it
-- threw.
pub data Holds {S A : Type 0} (P : A → S → Type 0) (Q : Error → S → Type 0)
    : Outcome S A → Type 0 where
  on_return : {a : A} {s : S} → P a s → Holds P Q (returned a s)
  on_throw : {e : Error} {s : S} → Q e s → Holds P Q (thrown e s)

pub Outcome-cases :
    {S A : Type 0} (o : Outcome S A)
    → ((a : A) × (s : S) × (o ≡ returned a s)) ⊎ ((e : Error) × (s : S) × (o ≡ thrown e s))
Outcome-cases (returned a s) = inl (a, s, refl)
Outcome-cases (thrown e s) = inr (e, s, refl)

-- What holds of a call whose outcome is known.
pub Holds-value :
    {S A : Type 0} {P : A → S → Type 0} {Q : Error → S → Type 0} {o : Outcome S A} {a : A} {s : S}
    → Holds P Q o
    → o ≡ returned a s
    → P a s
Holds-value {P} {Q} {a} {s} h e = from (subst (Holds P Q) e h)
  where
    from : Holds P Q (returned a s) → P a s
    from (on_return p) = p

pub Holds-error :
    {S A : Type 0} {P : A → S → Type 0} {Q : Error → S → Type 0} {o : Outcome S A} {e : Error}
    {s : S}
    → Holds P Q o
    → o ≡ thrown e s
    → Q e s
Holds-error {P} {Q} {e} {s} h x = from (subst (Holds P Q) x h)
  where
    from : Holds P Q (thrown e s) → Q e s
    from (on_throw q) = q

-- What is done after a call, whichever way it ends.
pub Holds-after :
    {S A : Type 0} {P P' : A → S → Type 0} {Q Q' : Error → S → Type 0} {o : Outcome S A}
    (f g : S → S)
    → Holds P Q o
    → ((a : A) (s : S) → P a s → P' a (f s))
    → ((e : Error) (s : S) → Q e s → Q' e (g s))
    → Holds P' Q' (elim o [ returned a s ↦ returned a (f s) | thrown e s ↦ thrown e (g s) ])
Holds-after f g (on_return p) k l = on_return (k _ _ p)
Holds-after f g (on_throw q) k l = on_throw (l _ _ q)
