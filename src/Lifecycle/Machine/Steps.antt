-- ===== src/Lifecycle/Machine/Steps.antt =====
-- The calls of the lifecycle as steps of a state machine on the status of a key.
use secret_rotation_kit.Prelude.{
  ℕ, ◌≡◌, refl, sym, ◌≢◌, ◌⊎◌, subst, inl, inr, Option, none, some, String,
}
use secret_rotation_kit.Types.{KeyStatus, SecretKey, pending, active, expired, revoked, failed}
use secret_rotation_kit.KeyStore.{KeyStore, KeyStoreLaws}
use secret_rotation_kit.Lifecycle.{activated_key}
use secret_rotation_kit.Lifecycle.Writes.{own_names, activated_store}
use secret_rotation_kit.Lifecycle.Machine.{Call, IsFresh, Change, handed-superseded}
use secret_rotation_kit.Lifecycle.Machine

-- The edges of the state machine, but for the creation of a pending key. A failed key can still be
-- revoked, and an expired or active key can fail.
pub data Edge : KeyStatus → KeyStatus → Type 0 where
  activates : Edge pending active
  supersedes : Edge active expired
  gives_up : Edge pending expired
  revokes : {t : KeyStatus} → t ≢ revoked → Edge t revoked
  fails : {t : KeyStatus} → t ≢ revoked → t ≢ failed → Edge t failed

module _ {S : Type 0} (ks : KeyStore S) where
  -- What a call may do to the store.
  pub data Step (s : S) : S → Type 0 where
    same : Step s s
    adds :
        (x : SecretKey)
        → ks.get s x.secret_name x.key_id ≡ none
        → x.status ≡ pending
        → Step s (ks.save x s)
    demotes :
        (k x : SecretKey)
        → ks.get s k.secret_name k.key_id ≡ some k
        → x.secret_name ≡ k.secret_name
        → x.key_id ≡ k.key_id
        → Edge k.status x.status
        → x.status ≢ active
        → Step s (ks.save x s)
    hands_on :
        (n i : String) (k : SecretKey) (overlap : Option ℕ) (t₁ t₂ : ℕ)
        → ks.get s n i ≡ some k
        → k.status ≡ pending
        → Step s (activated_store ks s n k overlap t₁ t₂)

module _ {S : Type 0} (ks : KeyStore S) {Valid : S → Type 0} (laws : KeyStoreLaws ks Valid) where
  pub Change-Step : {s t : S} {c : Call} → Valid s → IsFresh ks s c → Change ks s c t → Step ks s t
  Change-Step v f (Machine.refused r) = same
  Change-Step v f (Machine.adds o id now) = adds _ f refl
  Change-Step {s} v f (Machine.ends n i now k g p) =
      demotes k _ (own_names ks laws s n i k v g) refl refl (ends-Edge p) (λ q. cc)
    where
      ends-Edge : {t : KeyStatus} → (t ≡ pending) ⊎ (t ≡ active) → Edge t expired
      ends-Edge (inl e) = subst (λ z. Edge z expired) (sym e) gives_up
      ends-Edge (inr e) = subst (λ z. Edge z expired) (sym e) supersedes
  Change-Step {s} v f (Machine.takes_back n i reason t₁ t₂ k m g ne) =
      demotes k _ (own_names ks laws s n i k v g) refl refl (revokes ne) (λ q. cc)
  Change-Step {s} v f (Machine.gives_up n i error now k m g ne nf) =
      demotes k _ (own_names ks laws s n i k v g) refl refl (fails ne nf) (λ q. cc)
  Change-Step {s} v f (Machine.hands_on n i k overlap t₁ t₂ g p) =
      subst (λ u. Step ks s (ks.save (activated_key k t₂) u))
        (handed-superseded ks laws (ks.get_active s n) overlap t₁ s)
        (hands_on n i k overlap t₁ t₂ g p)
