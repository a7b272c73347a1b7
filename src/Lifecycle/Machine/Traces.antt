-- ===== src/Lifecycle/Machine/Traces.antt =====
-- What holds after any sequence of calls.
use secret_rotation_kit.Prelude.{
  ◌≡◌, refl, sym, ap, ◌∙◌, ◌≢◌, ◌⊎◌, subst, inl, inr, some, String, string_eq,
}
use secret_rotation_kit.Effect.{after}
use secret_rotation_kit.Types.{KeyStatus, SecretKey, revoked, failed}
use secret_rotation_kit.KeyStore.{KeyStore, KeyStoreLaws}
use secret_rotation_kit.Lifecycle.Machine.{
  Call, IsFresh, Reach, here, next, perform, perform-Change,
}
use secret_rotation_kit.Lifecycle.Machine.Steps.{
  Edge, activates, supersedes, gives_up, revokes, fails, Step, Change-Step,
}
use secret_rotation_kit.Lifecycle.Machine.Moves.{Inv, Step-Inv, Moved, Step-Moved}

no-Edge : {t u : KeyStatus} → Edge t u → t ≢ revoked
no-Edge activates e = cc
no-Edge supersedes e = cc
no-Edge gives_up e = cc
no-Edge (revokes ne) e = ne e
no-Edge (fails ne nf) e = ne e

from_failed : {t u : KeyStatus} → Edge t u → t ≡ failed → u ≡ revoked
from_failed activates e = cc
from_failed supersedes e = cc
from_failed gives_up e = cc
from_failed (revokes ne) e = refl
from_failed (fails ne nf) e = absurd (nf e)

module _ {S : Type 0} (ks : KeyStore S) {Valid : S → Type 0} (laws : KeyStoreLaws ks Valid) where
  perform-Step : (s : S) (c : Call) → Valid s → IsFresh ks s c → Step ks s (after (perform ks c s))
  perform-Step s c v f = Change-Step ks laws v f (perform-Change ks laws s c v)

  -- After any sequence of lifecycle calls with unused new ids, returned or thrown, from a well filed
  -- store with at most one active key for each secret, the store is again so.
  pub Reach-Inv : {s t : S} → Reach ks s t → Inv ks laws s → Inv ks laws t
  Reach-Inv here h = h
  Reach-Inv (next r c f) h =
      let i = Reach-Inv r h in Step-Inv ks laws (perform-Step _ c i.valid f) i

  -- One more call, on a key that stands in the store.
  last_Moved :
      {s t : S} (n i : String) (x : SecretKey) (c : Call)
      → Reach ks s t
      → IsFresh ks t c
      → Inv ks laws s
      → ks.get t n i ≡ some x
      → Moved ks laws (after (perform ks c t)) n i x
  last_Moved {s} {t} n i x c r f h g =
      let inv = Reach-Inv r h in Step-Moved ks laws n i x (perform-Step t c inv.valid f) inv g

  -- A revoked key is never touched again: from a well filed store with at most one active key for each
  -- secret, after any lifecycle calls with unused new ids, it stands in the store as it was.
  pub Reach-revoked :
      {s t : S} (n i : String) (k : SecretKey)
      → Reach ks s t
      → Inv ks laws s
      → ks.get s n i ≡ some k
      → k.status ≡ revoked
      → ks.get t n i ≡ some k
  Reach-revoked n i k here h g e = g
  Reach-revoked n i k (next r c f) h g e =
      let (x, gx, moved) = last_Moved n i k c r f h (Reach-revoked n i k r h g e) in
      elim moved [ inl q ↦ gx ∙ ap some q | inr d ↦ absurd (no-Edge d e) ]

  -- A failed key is never used again: from a well filed store with at most one active key for each
  -- secret, after any lifecycle calls with unused new ids, it is failed or revoked.
  pub Reach-failed :
      {s t : S} (n i : String) (k : SecretKey)
      → Reach ks s t
      → Inv ks laws s
      → ks.get s n i ≡ some k
      → k.status ≡ failed
      → (x : SecretKey) × (ks.get t n i ≡ some x) × ((x.status ≡ failed) ⊎ (x.status ≡ revoked))
  Reach-failed n i k here h g e = (k, g, inl e)
  Reach-failed n i k (next r c f) h g e =
      let (y, gy, dead) = Reach-failed n i k r h g e in
      let (x, gx, moved) = last_Moved n i y c r f h gy in (x, gx, still_dead moved dead)
    where
      still_dead :
          {x y : SecretKey}
          → (x ≡ y) ⊎ Edge y.status x.status
          → (y.status ≡ failed) ⊎ (y.status ≡ revoked)
          → (x.status ≡ failed) ⊎ (x.status ≡ revoked)
      still_dead (inl q) dead = subst (λ z. (z.status ≡ failed) ⊎ (z.status ≡ revoked)) (sym q) dead
      still_dead (inr d) (inl q) = inr (from_failed d q)
      still_dead (inr d) (inr q) = absurd (no-Edge d q)
