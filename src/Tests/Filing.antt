-- ===== src/Tests/Filing.antt =====
-- The file store on a file system in memory, and with a cipher and a JSON for one key.
use secret_rotation_kit.Prelude.{
  ℕ, zero, suc, ◌*◌, ◌≡◌, ◌≢◌, refl, inl, inr, true, false, none, some, List, [], ◌∷◌, String,
  string_eq, if◌then◌else◌, nat_beq, length, All, arith, Bool-cases, and-true, nat_beq_iff,
}
use secret_rotation_kit.Map
use secret_rotation_kit.Js.{codes}
use secret_rotation_kit.Types.{active, base64}
use secret_rotation_kit.Effect.{returned, Holds, on_return}
use secret_rotation_kit.KeyStore.InMemory
use secret_rotation_kit.KeyStore.InMemory.{keys_of}
use secret_rotation_kit.FileStore.{encrypt_file, decrypt_file, write_secret_file}
use secret_rotation_kit.FileStore.Format.{
  Bytes, FilePath, SerializedKey, SecretFile, ReadResult, contents, enoent, Disk, Runtime,
  same_codes,
}
use secret_rotation_kit.FileStore.Sealing.{SealingLaws, decrypt-encrypt_file}
use secret_rotation_kit.FileStore.Paths.{PathLaws}
use secret_rotation_kit.FileStore.Writing.{DiskLaws, Written, SameKeys, write_secret_file-Written}

same_codes_sound : (p q : List ℕ) → same_codes p q ≡ true → p ≡ q
same_codes_sound [] [] e = refl
same_codes_sound [] (d ∷ q) e = absurd cc
same_codes_sound (c ∷ p) [] e = absurd cc
same_codes_sound (c ∷ p) (d ∷ q) e =
    let (a, b) = and-true (nat_beq c d) (same_codes p q) e in
    let h = (nat_beq_iff c d).0 a in let t = same_codes_sound p q b in cc

same_codes_self : (p : List ℕ) → same_codes p p ≡ true
same_codes_self [] = refl
same_codes_self (c ∷ p) = rw ((nat_beq_iff c c).1 refl) (same_codes_self p)

same_codes-differ : (p q : List ℕ) → p ≢ q → same_codes p q ≡ false
same_codes-differ p q ne = elim (Bool-cases (same_codes p q)) [
  | inl e ↦ absurd (ne (same_codes_sound p q e))
  | inr e ↦ e
]

abbrev zeros : ℕ → List ℕ
zeros zero = []
zeros (suc n) = 0 ∷ zeros n

length-zeros : (n : ℕ) → length (zeros n) ≡ n
length-zeros zero = refl
length-zeros (suc n) = omega (arith, length-zeros n)

-- What each path reads as.
abbrev Files : Type 0
Files = FilePath → ReadResult

abbrev disk : Disk Files
disk = record {
  read_file = λ d p. d p;
  read_dir = λ d. none;
  make_dir = λ d. returned tt d;
  write_file = λ p b d. returned tt (λ q. if same_codes p q then contents b else d q);
  rename = λ p p' d.
      returned tt (λ q. if same_codes p' q then d p else if same_codes p q then enoent else d q);
  unlink = λ p d. returned tt (λ q. if same_codes p q then enoent else d q);
  random_bytes = λ n d. returned (zeros n) d;
  clock = λ d. 7;
}

disk_laws : DiskLaws disk
disk_laws = record {
  made = λ d. on_return (λ q. refl);
  drawn = λ n d. on_return (λ q. refl);
  written =
      λ p b d. on_return (rw (same_codes_self p) refl, λ q ne. rw (same_codes-differ p q ne) refl);
  renamed = λ p p' d. on_return (
    rw (same_codes_self p') refl,
    λ q ne ne'. rw (same_codes-differ p' q ne', same_codes-differ p q ne) refl,
  );
  unlinked = λ p d. on_return (λ q ne. rw (same_codes-differ p q ne) refl);
}

-- A time as so many strokes.
abbrev strokes : ℕ → String
strokes zero = ""
strokes (suc n) = String.◌∷◌ "x" (strokes n)

abbrev stored : SerializedKey
stored = record {
  key_id = "k1";
  secret_name = "db";
  encrypted_material = "material";
  format = base64;
  valid_from = strokes 10;
  valid_until = none;
  status = active;
  created_at = strokes 10;
  rotated_at = none;
  revoked_at = none;
  metadata = none;
}

abbrev numbered : SecretFile → Bytes
numbered [] = 0 ∷ []
numbered (e ∷ f) = 1 ∷ []

abbrev doubled : Bytes → List ℕ
doubled [] = []
doubled (b ∷ bs) = 0 ∷ 0 ∷ doubled bs

abbrev runtime : Runtime
runtime = record {
  iso = strokes;
  date = λ s. length (codes s);
  stringify = numbered;
  parse = λ b.
      if same_codes b (0 ∷ [])
      then some []
      else if same_codes b (1 ∷ [])
      then some (("k1", stored) ∷ [])
      else none;
  from_base64 = λ k. zeros 32;
  seal = λ k iv b. (b, zeros 16);
  unseal = λ k iv tag c. some c;
  sha256_hex = λ n. zeros 64;
  hex = doubled;
  print = λ n. n ∷ [];
  base = [];
}

sealing_laws : SealingLaws runtime disk
sealing_laws = record {
  unsealed = λ k iv b. refl;
  tag_length = λ k iv b. refl;
  random_length = λ n d. on_return (length-zeros n);
}

length-doubled : (b : Bytes) → length (doubled b) ≡ 2 * length b
length-doubled [] = refl
length-doubled (x ∷ b) = omega (arith, length-doubled b)

doubled_digits : (b : Bytes) → All (λ c. c ≢ b'n') (doubled b)
doubled_digits [] = tt
doubled_digits (x ∷ b) = ((λ e. omega arith), ((λ e. omega arith), doubled_digits b))

path_laws : PathLaws runtime
path_laws = record {
  digest_length = λ n. refl;
  hex_length = length-doubled;
  hex_digits = doubled_digits;
}

abbrev IsStored : String → SerializedKey → Type 0
IsStored i s = (i ≡ "k1") × (s ≡ stored)

abbrev empty_disk : Files
empty_disk p = enoent

decrypt-encrypt_file_example :
    Holds
      (λ c _. (t : Files) → decrypt_file runtime disk (some "key") c t ≡ returned (3 ∷ []) t)
      (λ _ _. Unit {0})
      (encrypt_file runtime disk (some "key") (3 ∷ []) empty_disk)
decrypt-encrypt_file_example =
    decrypt-encrypt_file runtime disk sealing_laws (some "key") (3 ∷ []) empty_disk

write_secret_file-Written_example :
    Holds
      (λ _.
        Written runtime disk
          (some "key")
          sealing_laws
          path_laws
          disk_laws
          "db"
          (("k1", stored) ∷ [])
          empty_disk)
      (λ _. SameKeys runtime disk empty_disk)
      (write_secret_file runtime disk (some "key") "db" (("k1", stored) ∷ []) empty_disk)
write_secret_file-Written_example =
    write_secret_file-Written runtime disk (some "key") sealing_laws path_laws disk_laws "db"
      (("k1", stored) ∷ []) empty_disk

abbrev IsDb : String → Type 0
IsDb n = n ≡ "db"
