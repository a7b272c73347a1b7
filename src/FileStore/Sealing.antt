-- ===== src/FileStore/Sealing.antt =====
-- Encrypting a file and decrypting it again.
use secret_rotation_kit.Prelude.{
  ℕ, ◌≡◌, refl, ◌∙◌, sym, ap, true, false, Option, none, some, [], ◌∷◌, ◌++◌, String, ltb, nat_beq,
  length, take, drop, arith, Bool-cases, inl, inr, length-append, append_assoc,
}
use secret_rotation_kit.Effect.{returned, Holds, on_return, on_throw}
use secret_rotation_kit.Workflow.Triples.{Holds-bind}
use secret_rotation_kit.FileStore.{encrypt_file, decrypt_file, seal_with}
use secret_rotation_kit.FileStore.Format.{Bytes, Disk, Runtime}

-- What is documented of the cipher and of `randomBytes`.
pub record SealingLaws {D : Type 0} (r : Runtime) (disk : Disk D) : Type 0 where
  pub unsealed : (k iv b : Bytes) → r.unseal k iv (r.seal k iv b).1 (r.seal k iv b).0 ≡ some b
  pub tag_length : (k iv b : Bytes) → length (r.seal k iv b).1 ≡ 16
  pub random_length :
      (n : ℕ) (d : D) → Holds (λ b _. length b ≡ n) (λ _ _. Unit {0}) (disk.random_bytes n d)

take_exact : (xs ys : Bytes) → take (length xs) (xs ++ ys) ≡ xs
take_exact [] ys = refl
take_exact (x ∷ xs) ys = ap (λ t. x ∷ t) (take_exact xs ys)

drop_exact : (xs ys : Bytes) → drop (length xs) (xs ++ ys) ≡ ys
drop_exact [] ys = refl
drop_exact (x ∷ xs) ys = drop_exact xs ys

take_before : (n : ℕ) (xs ys : Bytes) → length xs ≡ n → take n (xs ++ ys) ≡ xs
take_before n xs ys e = ap (λ k. take k (xs ++ ys)) (sym e) ∙ take_exact xs ys

drop_past : (n : ℕ) (xs ys : Bytes) → length xs ≡ n → drop n (xs ++ ys) ≡ ys
drop_past n xs ys e = ap (λ k. drop k (xs ++ ys)) (sym e) ∙ drop_exact xs ys

module _ {D : Type 0} (r : Runtime) (disk : Disk D) (laws : SealingLaws r disk) where
  -- Reading apart what was put together.
  decrypted :
      (k : String) (iv tag ct b : Bytes) (d : D)
      → nat_beq (length (r.from_base64 k)) 32 ≡ true
      → length iv ≡ 12
      → length tag ≡ 16
      → r.unseal (r.from_base64 k) iv tag ct ≡ some b
      → decrypt_file r disk (some k) (iv ++ (tag ++ ct)) d ≡ returned b d
  unfolding decrypt_file
  decrypted k iv tag ct b d e li lt u =
      let long : ltb (length (iv ++ (tag ++ ct))) 28 ≡ false =
        rw (length-append iv (tag ++ ct), length-append tag ct, li, lt) (ground arith) in
      let t : drop 28 (iv ++ (tag ++ ct)) ≡ ct =
        ap (drop 28) (sym (append_assoc iv tag ct))
        ∙ drop_past 28 (iv ++ tag) ct (length-append iv tag ∙ omega (arith, li, lt)) in
      rw
        (
          e,
          long,
          take_before 12 iv (tag ++ ct) li,
          drop_past 12 iv (tag ++ ct) li,
          take_before 16 tag ct lt,
          t,
          u,
        )
        refl

  plain : (b : Bytes) (d : D) → decrypt_file r disk none b d ≡ returned b d
  unfolding decrypt_file
  plain b d = refl

  sealed :
      (k : String) (b : Bytes) (d : D)
      → nat_beq (length (r.from_base64 k)) 32 ≡ true
      → Holds
          (λ c _. (t : D) → decrypt_file r disk (some k) c t ≡ returned b t)
          (λ _ _. Unit {0})
          (seal_with r disk (r.from_base64 k) b d)
  unfolding seal_with
  sealed k b d e = Holds-bind (laws.random_length 12 d) λ iv t li.
      on_return (λ u. decrypted k iv _ _ b u e li (laws.tag_length _ _ _) (laws.unsealed _ _ _))

  -- With a cipher that keeps its contract and a source of random bytes that gives as many as it is
  -- asked for, if it gives any: what encrypting a file returns, if it does not throw, decrypts under the
  -- same key to the same bytes, at any time.
  pub decrypt-encrypt_file :
      (key : Option String) (b : Bytes) (d : D)
      → Holds
          (λ c _. (t : D) → decrypt_file r disk key c t ≡ returned b t)
          (λ _ _. Unit {0})
          (encrypt_file r disk key b d)
  unfolding encrypt_file
  decrypt-encrypt_file none b d = on_return (plain b)
  decrypt-encrypt_file (some k) b d = elim (Bool-cases (nat_beq (length (r.from_base64 k)) 32)) [
    | inr e ↦ rw e (on_throw tt)
    | inl e ↦ rw e (sealed k b d e)
  ]
