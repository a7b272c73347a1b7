-- ===== src/Generator/RoundTrip.antt =====
-- Encrypting the material of a key and decrypting it again.
use Prim.Native.Char.{Char, code}
use Prim.Native.String.append
use secret_rotation_kit.Prelude.{
  ℕ, ◌<>◌, ◌≡◌, refl, ◌∙◌, ap, true, false, some, [], ◌∷◌, String, nat_beq, length, Bool-cases, inl,
  inr,
}
use secret_rotation_kit.Effect.{returned, thrown, Holds, on_return, on_throw}
use secret_rotation_kit.Types.{SecretKey}
use secret_rotation_kit.Workflow.Triples.{Holds-bind, Holds-mono_thrown}
use secret_rotation_kit.Generator.{
  Bytes, Crypto, split_colons, bad_length, sealed_text, encrypt, decrypt,
}

-- A text without a colon.
abbrev pub NoColon : String → Type 0
NoColon String.[] = Unit
NoColon (String.◌∷◌ c s) = (nat_beq (code c) b':' ≡ false) × NoColon s

-- What is documented of the cipher, of random bytes and of the codecs of buffers.
pub record CryptoLaws {O : Type 0} (c : Crypto O) : Type 0 where
  pub unsealed : (k iv b : Bytes) → c.unseal k iv (c.seal k iv b).1 (c.seal k iv b).0 ≡ some b
  pub tag_length : (k iv b : Bytes) → length (c.seal k iv b).1 ≡ 16
  pub random_length :
      (n : ℕ) (o : O) → Holds (λ b _. length b ≡ n) (λ _ _. Unit {0}) (c.random_bytes n o)
  pub from-to_base64 : (b : Bytes) → c.from_base64 (c.to_base64 b) ≡ b
  pub to_base64-NoColon : (b : Bytes) → NoColon (c.to_base64 b)

nil_append : (t : String) → "" <> t ≡ t
nil_append t = append.nil t

cons_append : (c : Char) (s t : String) → String.◌∷◌ c s <> t ≡ String.◌∷◌ c (s <> t)
cons_append c s t = append.cons c s t

colon_append : (t : String) → ":" <> t ≡ String.◌∷◌ ":" t
colon_append t = cons_append ":" "" t ∙ ap (λ s. String.◌∷◌ ":" s) (nil_append t)

-- Splitting after a text without a colon.
split_first : (a b : String) → NoColon a → split_colons (a <> (":" <> b)) ≡ a ∷ split_colons b
unfolding split_colons
split_first String.[] b h = rw (nil_append (":" <> b), colon_append b) refl
split_first (String.◌∷◌ c a) b h = rw (cons_append c a (":" <> b), h.0, split_first a b h.1) refl

split_last : (a : String) → NoColon a → split_colons a ≡ a ∷ []
unfolding split_colons
split_last String.[] h = refl
split_last (String.◌∷◌ c a) h = rw (h.0, split_last a h.1) refl

module _ {O : Type 0} (c : Crypto O) (laws : CryptoLaws c) where
  split-sealed_text :
      (iv : Bytes) (sealed : Bytes × Bytes)
      → split_colons (sealed_text c iv sealed)
        ≡ c.to_base64 iv ∷ c.to_base64 sealed.0 ∷ c.to_base64 sealed.1 ∷ []
  split-sealed_text iv sealed =
      split_first (c.to_base64 iv) _ (laws.to_base64-NoColon iv)
      ∙ ap (λ r. c.to_base64 iv ∷ r)
          (split_first (c.to_base64 sealed.0) (c.to_base64 sealed.1)
              (laws.to_base64-NoColon sealed.0)
            ∙ ap (λ r. c.to_base64 sealed.0 ∷ r)
                (split_last (c.to_base64 sealed.1) (laws.to_base64-NoColon sealed.1)))

  reopened :
      (k : SecretKey) (e : String) (iv : Bytes) (u : O)
      → nat_beq (length (c.from_base64 e)) 32 ≡ true
      → length iv ≡ 12
      → c.to_utf8 (c.from_utf8 k.encrypted_material) ≡ k.encrypted_material
      → decrypt c
          (record k {
            encrypted_material =
                sealed_text c iv (c.seal (c.from_base64 e) iv (c.from_utf8 k.encrypted_material));
          })
          e
          u
        ≡ returned k u
  unfolding decrypt
  reopened k e iv u h l text =
      rw
        (
          h,
          split-sealed_text iv (c.seal (c.from_base64 e) iv (c.from_utf8 k.encrypted_material)),
          laws.from-to_base64 iv,
          laws.from-to_base64 (c.seal (c.from_base64 e) iv (c.from_utf8 k.encrypted_material)).0,
          laws.from-to_base64 (c.seal (c.from_base64 e) iv (c.from_utf8 k.encrypted_material)).1,
          l,
          laws.tag_length (c.from_base64 e) iv (c.from_utf8 k.encrypted_material),
          laws.unsealed (c.from_base64 e) iv (c.from_utf8 k.encrypted_material),
          text,
        )
        refl

  refused :
      (j : SecretKey) (e : String) (u : O)
      → nat_beq (length (c.from_base64 e)) 32 ≡ false
      → decrypt c j e u ≡ thrown bad_length u
  unfolding decrypt
  refused j e u h = rw h refl

  -- With the cipher, random bytes and codecs as documented, and material that UTF-8 gives back: what
  -- encrypting a key returns decrypts, under the same encryption key and at any time, to the same key; and
  -- if the encryption key has not 32 bytes, both throw the same error.
  pub decrypt-encrypt :
      (k : SecretKey) (e : String) (o : O)
      → c.to_utf8 (c.from_utf8 k.encrypted_material) ≡ k.encrypted_material
      → Holds
          (λ x _. (u : O) → decrypt c x e u ≡ returned k u)
          (λ x _.
            nat_beq (length (c.from_base64 e)) 32 ≡ false
            → (j : SecretKey) (u : O) → decrypt c j e u ≡ thrown x u)
          (encrypt c k e o)
  unfolding encrypt
  decrypt-encrypt k e o text = elim (Bool-cases (nat_beq (length (c.from_base64 e)) 32)) [
    | inr h ↦ rw h (on_throw (λ _ j u. refused j e u h))
    | inl h ↦ rw h (
        Holds-bind (Holds-mono_thrown (laws.random_length 12 o) (λ x s t q. absurd (true_false q)))
          λ iv u l. on_return (λ v. reopened k e iv v h l text))
  ]
    where
      true_false : true ≡ false → ⊥
      true_false q = cc
