-- ===== src/Tests/Cancelling.antt =====
-- A secret of the service, as the list of its versions, of which it keeps the latest ten.
use secret_rotation_kit.Prelude.{
  suc, ◌≡◌, refl, Bool, true, false, none, some, List, [], ◌∷◌, length, take,
}
use secret_rotation_kit.Effect.{Outcome, Holds, on_return, on_throw, returned, thrown, plain_error}
use secret_rotation_kit.Provider.{Host}
use secret_rotation_kit.Provider.Vault.{VaultClient, ReadOutput}
use secret_rotation_kit.Provider.Vault.Cancelling.{
  KvVersion, written, VaultLaws, TakenBack, Failed, ReadsOnly, rotate_and_cancel,
  rotate_and_cancel-TakenBack,
}

abbrev Secret : Type 0
Secret = List KvVersion

abbrev host : Host Secret
host = record {
  clock = λ s. 0;
  random_hex = λ s. returned "00" s;
  base36 = λ n. "0";
  print = λ n. "1";
}

-- The latest version, if it is not deleted.
abbrev latest : Secret → Outcome Secret ReadOutput
latest [] = thrown (plain_error "404") []
latest (v ∷ vs) = elim v.deleted [
  | true ↦ thrown (plain_error "404") (v ∷ vs)
  | false ↦
      returned
        (record {
          value = some v.value;
          version = some v.number;
          created_time = none;
          deletion_time = none;
          destroyed = some false;
        })
        (v ∷ vs)
]

abbrev without_latest : Secret → Secret
without_latest [] = []
without_latest (v ∷ vs) = record v { deleted = true } ∷ vs

abbrev client : VaultClient Secret
client = record {
  read = λ path s. latest s;
  read_versions = λ path s. returned none s;
  write = λ path value s.
      returned (record { version = some (suc (length s)); created_time = none })
        (written (suc (length s)) value false ∷ take 9 s);
  delete = λ path s. returned tt (without_latest s);
  status_code = λ e. none;
}

latest-value :
    (v : KvVersion) (vs : Secret) (b : Bool)
    → v.deleted ≡ b
    → Holds
        (λ r t. (v.deleted ≡ false) × (r.value ≡ some v.value))
        (λ e t. Unit {0})
        (latest (v ∷ vs))
latest-value v vs true e = rw e (on_throw tt)
latest-value v vs false e = rw e (on_return (refl, refl))

service-VaultLaws : VaultLaws host client "secret" (λ s name. s)
service-VaultLaws = record {
  writes = λ name value s. on_return (suc (length s), refl, (9, refl));
  deletes = λ name version s n value vs e. rw e (on_return refl);
  reads = λ name s v vs e. rw e (latest-value v vs v.deleted refl);
  random_keeps = λ name s. on_return refl;
  prints = λ n. refl;
}

abbrev first_version : KvVersion
first_version = written 1 "old" false

rotate_and_cancel-TakenBack_example :
    Holds
      (λ x t.
        TakenBack host client "secret" (λ s name. s) "db" "new" (first_version ∷ []) t
        × ReadsOnly host client "secret" (λ s name. s) "db" "new" t)
      (λ x t. Failed host client "secret" (λ s name. s) "db" "new" (first_version ∷ []) t)
      (rotate_and_cancel host client "secret" (λ s name. s) "db" "new" (first_version ∷ []))
rotate_and_cancel-TakenBack_example =
    rotate_and_cancel-TakenBack host client "secret" (λ s name. s) service-VaultLaws "db" "new"
      (first_version ∷ [])
