-- ===== src/FileStore/Paths.antt =====
-- The paths of key files and of temporary files do not meet.
use secret_rotation_kit.Prelude.{
  ℕ, zero, suc, ◌+◌, ◌*◌, ◌≤◌, ◌<◌, ◌≡◌, ◌≢◌, refl, ◌∙◌, sym, ap, List, [], ◌∷◌, ◌++◌, String,
  length, take, drop, All, arith, length-append, append_assoc,
}
use secret_rotation_kit.FileStore.Format.{
  Bytes, Runtime, FilePath, digest, json_ending, tmp_ending, file_path, unique_temp_path, sanitized,
}
use secret_rotation_kit.Js.{codes}

-- What is documented of digests and of buffers in hexadecimal: their lengths, and that the letter
-- with which "json" ends is no digit.
pub record PathLaws (r : Runtime) : Type 0 where
  pub digest_length : (n : String) → length (r.sha256_hex n) ≡ 64
  pub hex_length : (b : Bytes) → length (r.hex b) ≡ 2 * length b
  pub hex_digits : (b : Bytes) → All (λ c. c ≢ b'n') (r.hex b)

drop_exact : (xs ys : List ℕ) → drop (length xs) (xs ++ ys) ≡ ys
drop_exact [] ys = refl
drop_exact (x ∷ xs) ys = drop_exact xs ys

-- Equal texts with ends of the same length have equal ends.
same_ends : (xs ys zs ws : List ℕ) → xs ++ zs ≡ ys ++ ws → length zs ≡ length ws → zs ≡ ws
same_ends xs ys zs ws e l =
    let n : length xs ≡ length ys =
      omega (arith, length-append xs zs, length-append ys ws, ap length e, l) in
    sym (drop_exact xs zs)
    ∙ ap (drop (length xs)) e
    ∙ ap (λ k. drop k (ys ++ ws)) n
    ∙ drop_exact ys ws

length-take : (n : ℕ) (xs : List ℕ) → n ≤ length xs → length (take n xs) ≡ n
length-take zero xs h = refl
length-take (suc n) [] h = absurd (omega arith)
length-take (suc n) (x ∷ xs) h = omega (arith, length-take n xs (omega arith))

take_exact : (xs ys : List ℕ) → take (length xs) (xs ++ ys) ≡ xs
take_exact [] ys = refl
take_exact (x ∷ xs) ys = ap (λ t. x ∷ t) (take_exact xs ys)

-- A text of which no character is `c` does not end with `c`.
last_of :
    (c : ℕ) (xs : List ℕ)
    → 0 < length xs
    → All (λ d. d ≢ c) xs
    → (ys : List ℕ) × (d : ℕ) × (xs ≡ ys ++ d ∷ []) × (d ≢ c)
last_of c [] h a = absurd (omega arith)
last_of c (x ∷ []) h a = ([], x, refl, a.0)
last_of c (x ∷ y ∷ xs) h a =
    let (ys, d, e, n) = last_of c (y ∷ xs) (omega arith) a.1 in (x ∷ ys, d, ap (λ t. x ∷ t) e, n)

module _ (r : Runtime) (laws : PathLaws r) where
  pub file_path-injective : (n m : String) → file_path r n ≡ file_path r m → digest r n ≡ digest r m
  unfolding file_path
  file_path-injective n m e =
      let same = same_ends _ _ (digest r n ++ json_ending) (digest r m ++ json_ending) e (
        length-append (digest r n) json_ending
        ∙ ap (λ k. k + 5) (l n ∙ sym (l m))
        ∙ sym (length-append (digest r m) json_ending)) in
      sym (front n (l n)) ∙ ap (take 16) same ∙ front m (l m)
    where
      l : (k : String) → length (digest r k) ≡ 16
      l k = length-take 16 (r.sha256_hex k) (omega (arith, laws.digest_length k))

      front :
          (k : String) → length (digest r k) ≡ 16 → take 16 (digest r k ++ json_ending) ≡ digest r k
      front k q =
          ap (λ i. take i (digest r k ++ json_ending)) (sym q) ∙ take_exact (digest r k) json_ending

  pub temp_path-apart :
      (path : FilePath) (t : ℕ) (b : Bytes) (m : String)
      → 0 < length b
      → unique_temp_path r path t b ≢ file_path r m
  unfolding file_path unique_temp_path
  temp_path-apart path t b m l e =
      let (ys, d, q, ne) =
        last_of b'n' (r.hex b) (omega (arith, laws.hex_length b)) (laws.hex_digits b) in
      let x = path ++ tmp_ending ++ (b'.' ∷ []) ++ r.print t ++ (b'.' ∷ []) in
      let y = r.base ++ take 64 (sanitized r (codes m)) ++ (b'.' ∷ []) in
      let left : (x ++ ys) ++ d ∷ [] ≡ file_path r m =
        append_assoc x ys (d ∷ []) ∙ ap (λ z. x ++ z) (sym q) ∙ e in
      let right : file_path r m ≡ (y ++ (digest r m ++ json_start)) ++ (b'n' ∷ []) =
        ap (λ z. y ++ z) (sym (append_assoc (digest r m) json_start (b'n' ∷ [])))
        ∙ sym (append_assoc y (digest r m ++ json_start) (b'n' ∷ [])) in
      ne (
        of_cons (
          same_ends (x ++ ys) (y ++ (digest r m ++ json_start)) (d ∷ []) (b'n' ∷ []) (left ∙ right)
            refl))
    where
      json_start : List ℕ
      json_start = b'.' ∷ b'j' ∷ b's' ∷ b'o' ∷ []

      of_cons : {c d : ℕ} {cs : List ℕ} → c ∷ cs ≡ d ∷ cs → c ≡ d
      of_cons h = cc
