-- ===== src/Prelude/Equality.antt =====
-- The test `===` as an interface, for the keys that the program compares.
use Prim.Native.String.{String}
use mathlib.Core.Path.{◌≡◌, refl}
use mathlib.Core.Logic.{◌↔◌}
use mathlib.Core.Bool.{Bool, true}
use text.Mathlib.Text.{◌==◌ as same_text}
use text.Mathlib.TextEquality.{eq_iff}

-- A test with its two laws: what passes is equal, and what is equal passes.
pub record Comparable {ℓ} (Key : Type ℓ) : Type ℓ where
  pub same : Key → Key → Bool
  pub sound : (j k : Key) → same j k ≡ true → j ≡ k
  pub complete : (j k : Key) → j ≡ k → same j k ≡ true

instance abbrev pub string_eq : Comparable String
string_eq = record {
  same = same_text;
  sound = λ j k. (eq_iff j k).0;
  complete = λ j k. (eq_iff j k).1;
}

module _ {ℓ} {Key : Type ℓ} ⦃c : Comparable Key⦄ where
  infix 50 ◌==◌
  abbrev pub ◌==◌ : Key → Key → Bool
  j == k = c.same j k

  pub eq_of_beq : (j k : Key) → (j == k) ≡ true → j ≡ k
  eq_of_beq = c.sound

  pub beq_of_eq : (j k : Key) → j ≡ k → (j == k) ≡ true
  beq_of_eq = c.complete

  pub beq_self : (k : Key) → (k == k) ≡ true
  beq_self k = c.complete k k refl

  pub same_iff : (j k : Key) → ((j == k) ≡ true) ↔ (j ≡ k)
  same_iff j k = (eq_of_beq j k, beq_of_eq j k)
