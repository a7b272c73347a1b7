-- ===== src/Provider/Vault/Cancelling.antt =====
-- What is served of a secret after a rotation that is cancelled.
use secret_rotation_kit.Prelude.{
  take, subst, ℕ, ◌≡◌, refl, ◌∙◌, ap, ◌<>◌, ◌⊎◌, inl, inr, Bool, true, false, none, some, List, ◌∷◌,
  String, Bool-cases,
}
use secret_rotation_kit.Effect.{
  Error, Eff, ◌>>=◌, thrown, Holds, on_return, on_throw, Outcome-cases, Holds-value, Holds-error,
}
use secret_rotation_kit.Types.{RotationSession}
use secret_rotation_kit.World.{SecretValue, pending}
use secret_rotation_kit.Workflow.{propagated_session}
use secret_rotation_kit.Workflow.Triples.{Holds-bind, Holds-mono, Holds-mono_thrown}
use secret_rotation_kit.Provider.{Host, non_empty, or_text, new_session}
use secret_rotation_kit.Provider.Vault.{
  VaultClient, has_separator, data_path, get_secret, store_secret_value, delete_version,
  begin_rotation, cancel_rotation,
}

pub record KvVersion : Type 0 where
  pub number : ℕ
  pub value : String
  pub deleted : Bool

abbrev pub written : ℕ → String → Bool → KvVersion
written n value deleted = record { number = n; value = value; deleted = deleted }

module _ {O : Type 0} (host : Host O) (client : VaultClient O) (mount_path : String)
    (versions : O → String → List KvVersion) where
  -- The versions once one has been written: of the former ones the latest, as many as the service keeps.
  abbrev pub WrittenOn : ℕ → String → Bool → List KvVersion → List KvVersion → Type 0
  WrittenOn n value deleted before after =
      (m : ℕ) × (after ≡ written n value deleted ∷ take m before)

  -- What is documented, the latest version first: a write adds a version, and drops the oldest ones where
  -- there are more than are kept; a DELETE of a data path marks the latest as deleted; and a read without
  -- a version gives the latest, if it is not deleted.
  pub record VaultLaws : Type 0 where
    pub writes :
        (name value : String) (s : O)
        → Holds
            (λ r t.
              (n : ℕ) × (r.version ≡ some n)
              × WrittenOn n value false (versions s name) (versions t name))
            (λ e t.
              (versions t name ≡ versions s name)
              ⊎ ((n : ℕ) × WrittenOn n value false (versions s name) (versions t name)))
            (client.write (data_path host client mount_path name) value s)
    pub deletes :
        (name version : String) (s : O) (n : ℕ) (value : String) (vs : List KvVersion)
        → versions s name ≡ written n value false ∷ vs
        → Holds
            (λ x t. versions t name ≡ written n value true ∷ vs)
            (λ e t. (d : Bool) × (versions t name ≡ written n value d ∷ vs))
            (client.delete (data_path host client mount_path name <> "?version=" <> version) s)
    pub reads :
        (name : String) (s : O) (v : KvVersion) (vs : List KvVersion)
        → versions s name ≡ v ∷ vs
        → Holds
            (λ r t. (v.deleted ≡ false) × (r.value ≡ some v.value))
            (λ e t. Unit {0})
            (client.read (data_path host client mount_path name) s)
    pub random_keeps :
        (name : String) (s : O)
        → Holds
            (λ x t. versions t name ≡ versions s name)
            (λ e t. versions t name ≡ versions s name)
            (host.random_hex s)
    pub prints : (n : ℕ) → non_empty (some (host.print n)) ≡ some (host.print n)

  -- The call that deletes the version with a number threw, and left `t`.
  abbrev pub DeleteFailed : String → ℕ → O → Type 0
  DeleteFailed name n t =
      (u : O) × (e : Error) × (client.delete
          (data_path host client mount_path name <> "?version=" <> host.print n) u
        ≡ thrown e t)

  -- The new version comes before the others. It is deleted, unless the call that deletes it threw.
  abbrev pub TakenBack : String → String → O → O → Type 0
  TakenBack name value s t =
      (n : ℕ) × (d : Bool) × WrittenOn n value d (versions s name) (versions t name)
      × ((d ≡ true) ⊎ DeleteFailed name n t)

  abbrev pub Failed : String → String → O → O → Type 0
  Failed name value s t =
      (versions t name ≡ versions s name)
      ⊎ ((n : ℕ) × WrittenOn n value false (versions s name) (versions t name))

  -- Without a version, nothing but `value` is read.
  abbrev pub ReadsOnly : String → String → O → Type 0
  ReadsOnly name value t =
      Holds (λ (r : SecretValue) u. r.value ≡ value) (λ e u. Unit {0})
        (get_secret host client mount_path name none t)

  -- A rotation that writes a value and is cancelled.
  abbrev pub rotate_and_cancel : String → String → Eff O (Unit {0})
  rotate_and_cancel name value = begin_rotation host client mount_path name >>= (λ session.
      store_secret_value host client mount_path name value pending
      >>= (λ v. cancel_rotation host client mount_path (propagated_session session v)))

  module _ (laws : VaultLaws) (name value : String) (s : O) where
    begun :
        Holds
          (λ session t. (session.secret_name ≡ name) × (versions t name ≡ versions s name))
          (λ x t. Failed name value s t)
          (begin_rotation host client mount_path name s)
    unfolding begin_rotation new_session
    begun =
        Holds-bind (Holds-mono_thrown (laws.random_keeps name s) (λ x t q. inl q))
          (λ hex t q. on_return (refl, q))

    abbrev Stored : SecretValue → O → Type 0
    Stored v u =
        (n : ℕ) × (v.version_id ≡ host.print n)
        × WrittenOn n value false (versions s name) (versions u name)

    stored :
        (t : O)
        → versions t name ≡ versions s name
        → has_separator name ≡ false
        → Holds Stored
            (λ x u. Failed name value s u)
            (store_secret_value host client mount_path name value pending t)
    unfolding store_secret_value
    stored t q valid = rw valid (
        Holds-bind (Holds-mono_thrown (laws.writes name value t) left)
          (λ r u (n, e, w). rw e (on_return (n, refl, on_former q w))))
      where
        on_former :
            {n : ℕ} {vs ws us : List KvVersion}
            → vs ≡ ws
            → WrittenOn n value false vs us
            → WrittenOn n value false ws us
        on_former {n} {us = us} e w = subst (λ z. WrittenOn n value false z us) e w

        left :
            (x : Error) (u : O)
            → (versions u name ≡ versions t name)
              ⊎ ((n : ℕ) × WrittenOn n value false (versions t name) (versions u name))
            → Failed name value s u
        left x u (inl r) = inl (r ∙ q)
        left x u (inr (n, r)) = inr (n, on_former q r)

    refused :
        (t : O)
        → versions t name ≡ versions s name
        → has_separator name ≡ true
        → Holds {A = SecretValue}
            (λ v u. ⊥)
            (λ x u. Failed name value s u)
            (store_secret_value host client mount_path name value pending t)
    unfolding store_secret_value
    refused t q invalid = rw invalid (on_throw (inl q))

    cancelled :
        (session : RotationSession) (v : SecretValue) (u : O)
        → session.secret_name ≡ name
        → has_separator name ≡ false
        → Stored v u
        → Holds
            (λ x w. TakenBack name value s w)
            (λ x w. ⊥)
            (cancel_rotation host client mount_path (propagated_session session v) u)
    unfolding cancel_rotation delete_version
    cancelled session v u same valid (n, i, (m, st)) =
        let path = data_path host client mount_path name <> "?version=" <> host.print n in
        let law = laws.deletes name (host.print n) u n value (take m (versions s name)) st in
        rw (i, laws.prints n, same, valid, same)
          (elim (Outcome-cases (client.delete path u)) [
            | inl (a, w, q) ↦ rw q (on_return (n, true, (m, Holds-value law q), inl refl))
            | inr (e, w, q) ↦
                let (d, r) = Holds-error law q in rw q (on_return (n, d, (m, r), inr (u, e, q)))
          ])

    only_new :
        (t : O) → has_separator name ≡ false → TakenBack name value s t → ReadsOnly name value t
    unfolding get_secret
    only_new t valid (n, d, (m, e), c) = rw valid (
        Holds-bind (laws.reads name t (written n value d) (take m (versions s name)) e)
          (λ r u (f, v). on_return (ap (λ o. or_text o "") v)))

    -- With the service as documented, a rotation that begins, writes a value and is cancelled, if it
    -- returns, leaves the new version before those of before that the service keeps, deleted, unless the call
    -- that deletes it threw; and a read without a version then gives the new value or throws: no former value
    -- is served. If it throws, the versions are as they were, or the new one stands before them, not deleted.
    pub rotate_and_cancel-TakenBack :
        Holds
          (λ x t. TakenBack name value s t × ReadsOnly name value t)
          (λ x t. Failed name value s t)
          (rotate_and_cancel name value s)
    rotate_and_cancel-TakenBack = Holds-bind begun (λ session t (n, q).
        elim (Bool-cases (has_separator name)) [
          | inl b ↦ Holds-bind (refused t q b) (λ v u f. absurd f)
          | inr b ↦ Holds-bind (stored t q b) (λ v u st.
              Holds-mono_thrown
                (Holds-mono (cancelled session v u n b st) (λ x w a. (a, only_new w b a)))
                (λ x w f. absurd f))
        ])
