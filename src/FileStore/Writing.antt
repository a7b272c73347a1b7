-- ===== src/FileStore/Writing.antt =====
-- What a write of a key file does to all key files.
use secret_rotation_kit.Prelude.{
  ℕ, ◌≡◌, ◌≢◌, refl, ◌∙◌, Option, none, some, String, nat_beq, length, arith, Bool-cases, inl, inr,
}
use secret_rotation_kit.Effect.{
  Error, Outcome, returned, Holds, on_return, on_throw, Outcome-cases, Holds-value, Holds-error,
  ◌>>◌, throw, try_catch,
}
use secret_rotation_kit.Workflow.Triples.{Holds-bind, Holds-catch, Holds-mono, Holds-mono_thrown}
use secret_rotation_kit.FileStore.{encrypt_file, decrypt_file, seal_with, key, write_secret_file}
use secret_rotation_kit.FileStore.Format.{
  Bytes, Disk, Runtime, FilePath, SecretFile, contents, file_path, unique_temp_path,
}
use secret_rotation_kit.FileStore.Sealing.{SealingLaws, decrypt-encrypt_file}
use secret_rotation_kit.FileStore.Paths.{PathLaws, temp_path-apart}

-- What is documented of the file system: which files a call may change, whether it succeeds or fails.
pub record DiskLaws {D : Type 0} (disk : Disk D) : Type 0 where
  pub made :
      (d : D)
      → Holds
          (λ _ t. (q : FilePath) → disk.read_file t q ≡ disk.read_file d q)
          (λ _ t. (q : FilePath) → disk.read_file t q ≡ disk.read_file d q)
          (disk.make_dir d)
  pub drawn :
      (n : ℕ) (d : D)
      → Holds
          (λ _ t. (q : FilePath) → disk.read_file t q ≡ disk.read_file d q)
          (λ _ t. (q : FilePath) → disk.read_file t q ≡ disk.read_file d q)
          (disk.random_bytes n d)
  pub written :
      (p : FilePath) (b : Bytes) (d : D)
      → Holds
          (λ _ t.
            (disk.read_file t p ≡ contents b)
            × ((q : FilePath) → p ≢ q → disk.read_file t q ≡ disk.read_file d q))
          (λ _ t. (q : FilePath) → p ≢ q → disk.read_file t q ≡ disk.read_file d q)
          (disk.write_file p b d)
  pub renamed :
      (p p' : FilePath) (d : D)
      → Holds
          (λ _ t.
            (disk.read_file t p' ≡ disk.read_file d p)
            × ((q : FilePath) → p ≢ q → p' ≢ q → disk.read_file t q ≡ disk.read_file d q))
          (λ _ t. (q : FilePath) → disk.read_file t q ≡ disk.read_file d q)
          (disk.rename p p' d)
  pub unlinked :
      (p : FilePath) (d : D)
      → Holds
          (λ _ t. (q : FilePath) → p ≢ q → disk.read_file t q ≡ disk.read_file d q)
          (λ _ t. (q : FilePath) → p ≢ q → disk.read_file t q ≡ disk.read_file d q)
          (disk.unlink p d)

Holds-both :
    {S A : Type 0} {P P' : A → S → Type 0} {Q Q' : Error → S → Type 0} {o : Outcome S A}
    → Holds P Q o
    → Holds P' Q' o
    → Holds (λ a s. P a s × P' a s) (λ e s. Q e s × Q' e s) o
Holds-both (on_return p) (on_return q) = on_return (p, q)
Holds-both (on_throw p) (on_throw q) = on_throw (p, q)

module _ {D : Type 0} (r : Runtime) (disk : Disk D) where
  -- Every file, and every key file, reads as before.
  abbrev pub Same : D → D → Type 0
  Same d t = (q : FilePath) → disk.read_file t q ≡ disk.read_file d q

  abbrev pub SameKeys : D → D → Type 0
  SameKeys d t = (m : String) → disk.read_file t (file_path r m) ≡ disk.read_file d (file_path r m)

  module _ (encryption_key : Option String) (sealing : SealingLaws r disk) (paths : PathLaws r)
      (files : DiskLaws disk) where
    -- The key file of the secret `n` holds `f`, and the key files with other paths are as before.
    pub record Written (n : String) (f : SecretFile) (d t : D) : Type 0 where
      pub sealed : Bytes
      pub stored : disk.read_file t (file_path r n) ≡ contents sealed
      pub readable :
          (u : D)
          → decrypt_file r disk (key r disk encryption_key) sealed u ≡ returned (r.stringify f) u
      pub others :
          (m : String)
          → file_path r n ≢ file_path r m
          → disk.read_file t (file_path r m) ≡ disk.read_file d (file_path r m)

    encrypt_keeps :
        (k : Option String) (b : Bytes) (d : D)
        → Holds (λ _. Same d) (λ _. Same d) (encrypt_file r disk k b d)
    unfolding encrypt_file seal_with
    encrypt_keeps none b d = on_return (λ q. refl)
    encrypt_keeps (some k) b d = elim (Bool-cases (nat_beq (length (r.from_base64 k)) 32)) [
      | inr e ↦ rw e (on_throw (λ q. refl))
      | inl e ↦ rw e (Holds-bind (files.drawn 12 d) (λ iv t s. on_return s))
    ]

    -- The cleanup after a failed rename, which throws its error again.
    cleanup :
        (d u : D) (temp : FilePath) (e : Error)
        → ((m : String) → temp ≢ file_path r m)
        → SameKeys d u
        → Holds {A = Unit {0}}
            (λ _ _. ⊥)
            (λ _. SameKeys d)
            ((try_catch (disk.unlink temp) (λ x v. returned tt v) >> throw e) u)
    cleanup d u temp e apart s = elim (Outcome-cases (disk.unlink temp u)) [
      | inl (_, t, q) ↦
          rw (◌>>◌, q)
            (on_throw (λ m. Holds-value (files.unlinked temp u) q (file_path r m) (apart m) ∙ s m))
      | inr (x, t, q) ↦
          rw (◌>>◌, q)
            (on_throw (λ m. Holds-error (files.unlinked temp u) q (file_path r m) (apart m) ∙ s m))
    ]

    -- The last steps, once the temporary file stands.
    finish :
        (n : String) (f : SecretFile) (d u : D) (temp : FilePath) (c : Bytes)
        → ((m : String) → temp ≢ file_path r m)
        → ((v : D)
            → decrypt_file r disk (key r disk encryption_key) c v ≡ returned (r.stringify f) v)
        → SameKeys d u
        → disk.read_file u temp ≡ contents c
        → Holds
            (λ _. Written n f d)
            (λ _. SameKeys d)
            (try_catch
              (disk.rename temp (file_path r n))
              (λ e. do try_catch (disk.unlink temp) (λ x v. returned tt v); throw e)
              u)
    finish n f d u temp c apart readable s here =
        Holds-catch
          (Holds-mono (files.renamed temp (file_path r n) u) (λ _ t h. record {
            sealed = c;
            stored = h.0 ∙ here;
            readable = readable;
            others = λ m ne. h.1 (file_path r m) (apart m) ne ∙ s m;
          }))
          λ e t same.
            Holds-mono (cleanup d t temp e apart (λ m. same (file_path r m) ∙ s m))
              (λ _ _ b. absurd b)

    -- A write of a key file, on a file system whose calls change no other files than they are given,
    -- with a cipher, digests and random bytes as documented: if it returns, the file holds bytes that
    -- `decryptFile` gives back as the JSON text of the keys, and the key files with another path are as
    -- before; and if it throws, at whatever step, every key file is as before.
    pub write_secret_file-Written :
        (n : String) (f : SecretFile) (d : D)
        → Holds
            (λ _. Written n f d)
            (λ _. SameKeys d)
            (write_secret_file r disk encryption_key n f d)
    unfolding write_secret_file
    write_secret_file-Written n f d =
        Holds-bind (Holds-mono_thrown (files.made d) (λ e t s m. s (file_path r m))) λ _ d₁ s₁.
          Holds-bind
            (Holds-mono_thrown
              (Holds-both
                (decrypt-encrypt_file r disk sealing (key r disk encryption_key) (r.stringify f) d₁)
                (encrypt_keeps (key r disk encryption_key) (r.stringify f) d₁))
              (λ e t s m. s.1 (file_path r m) ∙ s₁ (file_path r m)))
            λ c d₂ h₂.
              Holds-bind
                (Holds-mono_thrown (Holds-both (sealing.random_length 4 d₂) (files.drawn 4 d₂))
                  (λ e t s m. s.1 (file_path r m) ∙ h₂.1 (file_path r m) ∙ s₁ (file_path r m)))
                λ b d₃ h₃.
                  let temp = unique_temp_path r (file_path r n) (disk.clock d₂) b in
                  let apart : (m : String) → temp ≢ file_path r m = λ m.
                    temp_path-apart r paths (file_path r n) (disk.clock d₂) b m
                      (omega (arith, h₃.0)) in
                  let kept : SameKeys d d₃ =
                    λ m. h₃.1 (file_path r m) ∙ h₂.1 (file_path r m) ∙ s₁ (file_path r m) in
                  Holds-bind
                    (Holds-mono_thrown (files.written temp c d₃)
                      (λ e t s m. s (file_path r m) (apart m) ∙ kept m))
                    λ _ d₄ h₄.
                      finish n f d d₄ temp c apart h₂.0
                        (λ m. h₄.1 (file_path r m) (apart m) ∙ kept m) h₄.0
