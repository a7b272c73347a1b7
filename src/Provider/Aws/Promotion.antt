-- ===== src/Provider/Aws/Promotion.antt =====
-- What completing a rotation does to the stages of a secret.
use secret_rotation_kit.Prelude.{
  ◌≡◌, ◌≢◌, refl, ◌∙◌, sym, ap, subst, ◌⊎◌, inl, inr, not, none, some, List, [], ◌∷◌, ◌++◌, String,
  ◌==◌, string_eq, filter, map, filter-In, In, here, there,
}
use secret_rotation_kit.Effect.{Error, Eff, ◌>>=◌, Holds, on_return}
use secret_rotation_kit.Types.{RotationSession}
use secret_rotation_kit.World.{SecretValue, pending}
use secret_rotation_kit.Workflow.{propagated_session}
use secret_rotation_kit.Workflow.Triples.{Holds-bind, Holds-mono, Holds-mono_thrown}
use secret_rotation_kit.Provider.{Host, non_empty, new_session}
use secret_rotation_kit.Provider.Aws.{
  SecretsManagerClient, pending_label, current_label, begin_rotation, store_secret_value,
  complete_rotation,
}

pub record StagedVersion : Type 0 where
  pub id : String
  pub value : String
  pub stages : List String

abbrev pub without : String → StagedVersion → StagedVersion
without label v = record v { stages = filter (λ l. not (l == label)) v.stages }

-- A new version takes the label AWSPENDING.
abbrev pub with_pending : String → String → List StagedVersion → List StagedVersion
with_pending id value vs =
    map (without pending_label) vs
    ++ record { id = id; value = value; stages = pending_label ∷ [] } ∷ []

-- `label` is attached to a version other than `id`.
abbrev pub HeldByAnother : String → String → List StagedVersion → Type 0
HeldByAnother label id vs = (v : StagedVersion) × In v vs × In label v.stages × (v.id ≢ id)

In-map : {A B : Type 0} (f : A → B) {a : A} {xs : List A} → In a xs → In (f a) (map f xs)
In-map f (here e) = here (ap f e)
In-map f (there m) = there (In-map f m)

In-append_left : {A : Type 0} {a : A} {xs : List A} (ys : List A) → In a xs → In a (xs ++ ys)
In-append_left ys (here e) = here e
In-append_left ys (there m) = there (In-append_left ys m)

module _ {O : Type 0} (host : Host O) (client : SecretsManagerClient O)
    (staged : O → String → List StagedVersion) where
  -- What is documented: a version put with the stage AWSPENDING is new, and takes the label from
  -- another; and a label that is attached to another version is moved only if the version to remove it
  -- from is given as well.
  pub record AwsLaws : Type 0 where
    pub puts :
        (name value : String) (s : O)
        → Holds
            (λ r t.
              (id : String) × (r.version_id ≡ some id)
              × (non_empty (some id) ≡ some id)
              × ((v : StagedVersion) → In v (staged s name) → v.id ≢ id)
              × (staged t name ≡ with_pending id value (staged s name)))
            (λ e t.
              (staged t name ≡ staged s name)
              ⊎ ((id : String) × (staged t name ≡ with_pending id value (staged s name))))
            (client.put_secret_value name value (some (pending_label ∷ [])) s)
    pub moves :
        (name label id : String) (s : O)
        → Holds
            (λ r t. HeldByAnother label id (staged s name) → ⊥)
            (λ e t. staged t name ≡ staged s name)
            (client.update_secret_version_stage name label none (some id) s)
    pub random_keeps :
        (name : String) (s : O)
        → Holds
            (λ x t. staged t name ≡ staged s name)
            (λ e t. staged t name ≡ staged s name)
            (host.random_hex s)

  -- The versions are as they were, or the new one has been added, and the label AWSPENDING moved to it.
  abbrev pub Left : String → String → O → O → Type 0
  Left name value s t =
      (staged t name ≡ staged s name)
      ⊎ ((id : String) × (staged t name ≡ with_pending id value (staged s name)))

  -- A rotation that writes a value and is completed.
  abbrev pub rotate_and_complete : String → String → Eff O (Unit {0})
  rotate_and_complete name value = begin_rotation host client name >>= (λ session.
      store_secret_value host client name value pending
      >>= (λ v. complete_rotation host client (propagated_session session v)))

  module _ (laws : AwsLaws) (name value : String) (s : O) (old : StagedVersion)
      (here_is : In old (staged s name)) (is_current : In current_label old.stages) where
    begun :
        Holds
          (λ session t. (session.secret_name ≡ name) × (staged t name ≡ staged s name))
          (λ x t. Left name value s t)
          (begin_rotation host client name s)
    unfolding begin_rotation new_session
    begun =
        Holds-bind (Holds-mono_thrown (laws.random_keeps name s) (λ x t q. inl q))
          (λ hex t q. on_return (refl, q))

    -- The label of the old version stays where it is.
    still_held :
        (id : String)
        → ((v : StagedVersion) → In v (staged s name) → v.id ≢ id)
        → HeldByAnother current_label id (with_pending id value (staged s name))
    still_held id fresh = (
      without pending_label old,
      In-append_left _ (In-map (without pending_label) here_is),
      filter-In (λ l. not (l == pending_label)) old.stages current_label is_current refl,
      fresh old here_is,
    )

    abbrev Stored : SecretValue → O → Type 0
    Stored v u =
        (non_empty (some v.version_id) ≡ some v.version_id)
        × ((w : StagedVersion) → In w (staged s name) → w.id ≢ v.version_id)
        × (staged u name ≡ with_pending v.version_id value (staged s name))

    -- With the service as documented, and a version of the secret that has the label AWSCURRENT: a rotation
    -- that begins, writes a value and is completed throws. The versions are then as they were, or the new
    -- version has been added, with the label AWSPENDING moved to it.
    pub rotate_and_complete-throws :
        Holds (λ x t. ⊥) (λ x t. Left name value s t) (rotate_and_complete name value s)
    unfolding store_secret_value complete_rotation
    rotate_and_complete-throws = Holds-bind begun stores
      where
        stores :
            (session : RotationSession) (t : O)
            → (session.secret_name ≡ name) × (staged t name ≡ staged s name)
            → Holds
                (λ x u. ⊥)
                (λ x u. Left name value s u)
                ((store_secret_value host client name value pending
                    >>= (λ v. complete_rotation host client (propagated_session session v)))
                  t)
        stores session t (n, q) =
            Holds-bind
              (Holds-bind (Holds-mono_thrown (laws.puts name value t) left)
                (λ r u (id, e, ne, fr, st). rw e (
                  on_return (
                    ne,
                    (λ w m. fr w (subst (In w) (sym q) m)),
                    st ∙ ap (with_pending id value) q,
                  ))))
              given
          where
            left :
                (x : Error) (u : O)
                → (staged u name ≡ staged t name)
                  ⊎ ((id : String) × (staged u name ≡ with_pending id value (staged t name)))
                → Left name value s u
            left x u (inl r) = inl (r ∙ q)
            left x u (inr (id, r)) = inr (id, r ∙ ap (with_pending id value) q)

            given :
                (v : SecretValue) (u : O)
                → Stored v u
                → Holds
                    (λ x w. ⊥)
                    (λ x w. Left name value s w)
                    (complete_rotation host client (propagated_session session v) u)
            given v u (ne, fr, st) =
                rw (ne, n)
                  (Holds-mono_thrown
                    (Holds-mono (laws.moves name current_label v.version_id u) (λ x w free. free (
                      subst (HeldByAnother current_label v.version_id) (sym st)
                        (still_held v.version_id fr))))
                    (λ x w r. inr (v.version_id, r ∙ st)))
