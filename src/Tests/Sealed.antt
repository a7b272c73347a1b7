-- ===== src/Tests/Sealed.antt =====
-- A key encrypted and decrypted, with base64 as strokes and stops.
use Prim.Native.Char.{code}
use secret_rotation_kit.Prelude.{
  ℕ, zero, suc, ◌+◌, ◌≡◌, refl, ◌∙◌, ap, false, some, [], ◌∷◌, String, if◌then◌else◌, nat_beq,
  length, arith,
}
use secret_rotation_kit.Effect.{Holds, returned, thrown, on_return}
use secret_rotation_kit.Types.{SecretKey}
use secret_rotation_kit.Generator.{Bytes, Crypto, encrypt, decrypt}
use secret_rotation_kit.Generator.RoundTrip.{NoColon, CryptoLaws, decrypt-encrypt}
use secret_rotation_kit.Tests.Samples.{old_key}

abbrev strokes : ℕ → String → String
strokes zero s = String.◌∷◌ "y" s
strokes (suc n) s = String.◌∷◌ "x" (strokes n s)

abbrev written : Bytes → String
written [] = ""
written (b ∷ bs) = strokes b (written bs)

abbrev counted : ℕ → String → Bytes
counted k String.[] = []
counted k (String.◌∷◌ c s) =
    let stop = counted 0 s in
    let go = counted (suc k) s in if nat_beq (code c) b'y' then k ∷ stop else go

counted-strokes : (n k : ℕ) (s : String) → counted k (strokes n s) ≡ (k + n) ∷ counted 0 s
counted-strokes zero k s = ap (λ z. z ∷ counted 0 s) (omega arith)
counted-strokes (suc n) k s = counted-strokes n (suc k) s ∙ ap (λ z. z ∷ counted 0 s) (omega arith)

counted-written : (b : Bytes) → counted 0 (written b) ≡ b
counted-written [] = refl
counted-written (n ∷ b) =
    counted-strokes n 0 (written b)
    ∙ ap (λ z. z ∷ counted 0 (written b)) (omega arith)
    ∙ ap (λ z. n ∷ z) (counted-written b)

strokes-NoColon : (n : ℕ) (s : String) → NoColon s → NoColon (strokes n s)
strokes-NoColon zero s h = (refl, h)
strokes-NoColon (suc n) s h = (refl, strokes-NoColon n s h)

written-NoColon : (b : Bytes) → NoColon (written b)
written-NoColon [] = tt
written-NoColon (n ∷ b) = strokes-NoColon n (written b) (written-NoColon b)

abbrev zeros : ℕ → Bytes
zeros zero = []
zeros (suc n) = 0 ∷ zeros n

length-zeros : (n : ℕ) → length (zeros n) ≡ n
length-zeros zero = refl
length-zeros (suc n) = omega (arith, length-zeros n)

abbrev crypto : Crypto ℕ
crypto = record {
  random_bytes = λ n o. returned (zeros n) (o + 1);
  clock = λ o. o;
  seal = λ k iv b. (b, zeros 16);
  unseal = λ k iv tag b. some b;
  to_base64 = written;
  from_base64 = counted 0;
  to_hex = written;
  to_utf8 = λ b. "material";
  from_utf8 = λ s. 7 ∷ 8 ∷ [];
  base36 = λ n. "0";
}

crypto_laws : CryptoLaws crypto
crypto_laws = record {
  unsealed = λ k iv b. refl;
  tag_length = λ k iv b. refl;
  random_length = λ n o. on_return (length-zeros n);
  from-to_base64 = counted-written;
  to_base64-NoColon = written-NoColon;
}

decrypt-encrypt_example :
    Holds
      (λ x _. (u : ℕ) → decrypt crypto x (written (zeros 32)) u ≡ returned old_key u)
      (λ x _.
        nat_beq (length (crypto.from_base64 (written (zeros 32)))) 32 ≡ false
        → (j : SecretKey) (u : ℕ) → decrypt crypto j (written (zeros 32)) u ≡ thrown x u)
      (encrypt crypto old_key (written (zeros 32)) 0)
decrypt-encrypt_example = decrypt-encrypt crypto crypto_laws old_key (written (zeros 32)) 0 refl
