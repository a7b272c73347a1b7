-- ===== src/Workflow/Triples.antt =====
-- Rules for what holds after a call, one for each way to combine calls.
use secret_rotation_kit.Prelude.{
  ◌≡◌, sym, subst, Bool, true, false, if◌then◌else◌, List, [], ◌∷◌, ◌++◌,
}
use secret_rotation_kit.Effect.{Error, Outcome, returned, thrown, Holds, on_return, on_throw}
use secret_rotation_kit.Types.{RotationEvent}
use secret_rotation_kit.World.{World, Frame, RollbackEntry}
use secret_rotation_kit.Workflow.{Setup, emit}

-- `f` runs on what was returned; what was thrown is passed on.
pub Holds-bind :
    {S A B : Type 0} {P : A → S → Type 0} {Q : Error → S → Type 0} {R : B → S → Type 0}
    {o : Outcome S A} {f : A → S → Outcome S B}
    → Holds P Q o
    → ((a : A) (t : S) → P a t → Holds R Q (f a t))
    → Holds R Q (elim o [ returned a t ↦ f a t | thrown e t ↦ thrown e t ])
Holds-bind (on_return p) k = k _ _ p
Holds-bind (on_throw q) k = on_throw q

-- A call that is known to return.
pub Holds-returned :
    {S A : Type 0} {P : A → S → Type 0} {Q : Error → S → Type 0} {o : Outcome S A} (a : A) (s : S)
    → o ≡ returned a s
    → P a s
    → Holds P Q o
Holds-returned {P} {Q} a s e h = subst (Holds P Q) (sym e) (on_return h)

pub Holds-mono :
    {S A : Type 0} {P P' : A → S → Type 0} {Q : Error → S → Type 0} {o : Outcome S A}
    → Holds P Q o
    → ((a : A) (s : S) → P a s → P' a s)
    → Holds P' Q o
Holds-mono (on_return p) k = on_return (k _ _ p)
Holds-mono (on_throw q) k = on_throw q

pub Holds-mono_thrown :
    {S A : Type 0} {P : A → S → Type 0} {Q Q' : Error → S → Type 0} {o : Outcome S A}
    → Holds P Q o
    → ((e : Error) (s : S) → Q e s → Q' e s)
    → Holds P Q' o
Holds-mono_thrown (on_return p) k = on_return p
Holds-mono_thrown (on_throw q) k = on_throw (k _ _ q)

pub Holds-catch :
    {S A : Type 0} {P : A → S → Type 0} {Q Q' : Error → S → Type 0} {o : Outcome S A}
    {f : Error → S → Outcome S A}
    → Holds P Q o
    → ((e : Error) (t : S) → Q e t → Holds P Q' (f e t))
    → Holds P Q' (elim o [ returned a t ↦ returned a t | thrown e t ↦ f e t ])
Holds-catch (on_return p) k = on_return p
Holds-catch (on_throw q) k = k _ _ q

-- A predicate that looks at the store, the local variables and the rollback entries only.
abbrev pub On : {S O : Type 0} → (S → Frame → List RollbackEntry → Type 0) → World S O → Type 0
On I w = I w.store w.frame w.entries

module _ {S O : Type 0} (I : S → Frame → List RollbackEntry → Type 0) where
  -- A call of something outside the library keeps such a predicate, however it ends.
  pub outside_keeps :
      {A : Type 0} (w : World S O) (o : Outcome O A)
      → On I w
      → Holds {A = A}
          (λ _. On I)
          (λ _. On I)
          (elim o [
            | returned a t ↦ returned a (record w { outside = t })
            | thrown e t ↦ thrown e (record w { outside = t })
          ])
  outside_keeps w (returned a t) h = on_return h
  outside_keeps w (thrown e t) h = on_throw h

  pub emit_keeps :
      {Q : Error → World S O → Type 0} (u : Setup) (e : RotationEvent) (w : World S O)
      → On I w
      → Holds (λ _. On I) Q (emit u e w)
  emit_keeps {Q} u e w h = emitted u.has_emitter
    where
      emitted :
          (b : Bool)
          → Holds
              (λ _. On I)
              Q
              (if b
                then returned tt (record w { emitted = w.emitted ++ e ∷ [] })
                else returned tt w)
      emitted true = on_return h
      emitted false = on_return h
