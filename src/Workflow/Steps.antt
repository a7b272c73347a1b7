-- ===== src/Workflow/Steps.antt =====
-- The steps of the `try` block of `execute` up to the hand-over.

use secret_rotation_kit.Prelude.{
  ℕ, ◌≡◌, refl, sym, ap, subst, inl, inr, Bool, true, false, Option, none, some, List, String,
  string_eq, ◌<>◌, if◌then◌else◌, not,
}
use secret_rotation_kit.Effect.{
  Error, Outcome, returned, thrown, throw, ◌>>=◌, Holds, on_return, on_throw,
}
use secret_rotation_kit.Types.{SecretKey, RotationSession, key_verified}
use secret_rotation_kit.KeyStore.{KeyStore, KeyStoreLaws}
use secret_rotation_kit.World.{
  Env, World, Frame, RollbackEntry, KeyGenerationOptions, PropagationStage, in_outside, now,
}
use secret_rotation_kit.Verification.{VerificationResult}
use secret_rotation_kit.Rollback.{get_entry, new_entry, start_rotation}
use secret_rotation_kit.Rollback.Entries.{get_entry-push_entry}
use secret_rotation_kit.Workflow.{
  no_rotation_support, coverage_failed, rotation_metadata, RotationRequest, RotationResult, Setup,
  emit, generate_key, begin_provider_rotation, propagate_to_provider, verify_propagation,
  record_attempt,
}
use secret_rotation_kit.Workflow.Triples.{
  Holds-bind, Holds-mono_thrown, On, emit_keeps, outside_keeps,
}
use secret_rotation_kit.Workflow.Stores.{Starts, IsNew, Rotated, saved-Contested}
use secret_rotation_kit.Workflow.Recovery.{Candidate, Entered, Contested}

-- The documented behaviour of the key generator and of the generated ids: a new key is pending, for
-- the secret that was asked for, under an id that its secret does not have; an entry's id is new.
abbrev pub GeneratesNew : {S O Ratio : Type 0} → KeyStore S → Env O Ratio → S → Type 0
GeneratesNew ks env s =
    (o : _) (options : KeyGenerationOptions)
    → Holds (λ k _. IsNew ks s options.secret_name k) (λ _ _. Unit {0}) (env.generate options o)

abbrev pub NewIds : {O Ratio : Type 0} → Env O Ratio → List RollbackEntry → Type 0
NewIds env es = (m : ℕ) → get_entry es ("rb-" <> env.random_id m) ≡ none

-- What a returned result says of the store, which was `s` before.
abbrev pub Succeeded :
    {S O Ratio : Type 0}
    → KeyStore S
    → (ℕ → ℕ)
    → RotationRequest Ratio
    → S
    → SecretKey
    → RotationResult
    → World S O
    → Type 0
Succeeded ks clock request s p r v =
    (r.success ≡ true)
    × ((k : SecretKey) × (r.new_key_id ≡ k.key_id)
        × Rotated ks s v.store request.secret_name p k request.overlap_period_ms clock)

module _ {S O Ratio : Type 0} (ks : KeyStore S) {Valid : S → Type 0} (laws : KeyStoreLaws ks Valid)
    (env : Env O Ratio) (u : Setup) (request : RotationRequest Ratio) (s : S)
    (es : List RollbackEntry) (p : SecretKey) (start : Starts ks Valid s request.secret_name p)
    (gen : GeneratesNew ks env s) (ids : NewIds env es) where
  -- After the generation of `k`, before the hand-over.
  abbrev pub Generated : SecretKey → S → Frame → List RollbackEntry → Type 0
  Generated k t f fs =
      (t ≡ ks.save k s)
      × (f.new_key ≡ some k)
      × (f.previous_active_key_id ≡ some p.key_id)
      × Entered request.secret_name p.key_id f fs

  -- What the cleanup starts from.
  abbrev pub Broken : S → Frame → List RollbackEntry → Type 0
  Broken t f fs =
      Candidate ks Valid request.secret_name p.key_id f.new_key t
      × (f.previous_active_key_id ≡ some p.key_id)
      × Entered request.secret_name p.key_id f fs

  pub Generated-Broken :
      (k : SecretKey) (t : S) (f : Frame) (fs : List RollbackEntry)
      → IsNew ks s request.secret_name k
      → Generated k t f fs
      → Broken t f fs
  Generated-Broken k t f fs new (e, fk, fp, en) = (
    subst (λ o. Candidate ks Valid request.secret_name p.key_id o t) (sym fk)
        (subst (Contested ks Valid request.secret_name p.key_id k.key_id) (sym e)
          (saved-Contested ks laws s request.secret_name p start k new)),
    fp,
    en,
  )

  -- `generateKey` saves what was generated, or throws before any write.
  pub generate_key-New :
      (id : String) (w : World S O)
      → w.store ≡ s
      → Holds
          (λ k v.
            IsNew ks s request.secret_name k
            × (v.store ≡ ks.save k s)
            × (v.frame ≡ w.frame)
            × (v.entries ≡ w.entries))
          (λ _ v. (v.store ≡ s) × (v.frame ≡ w.frame) × (v.entries ≡ w.entries))
          (generate_key ks env u request id w)
  unfolding generate_key
  generate_key-New id w e = Holds-bind (generated _ (gen w.outside _)) λ k v h.
      Holds-bind
        {P = λ _ x. (x.store ≡ ks.save k s) × (x.frame ≡ w.frame) × (x.entries ≡ w.entries)}
        (emit_keeps (λ t f fs. (t ≡ ks.save k s) × (f ≡ w.frame) × (fs ≡ w.entries)) u _ _
          (ap (ks.save k) h.1, h.2, h.3))
        λ a x r. on_return (h.0, r.0, r.1, r.2)
    where
      generated :
          (o : Outcome O SecretKey)
          → Holds (λ k _. IsNew ks s request.secret_name k) (λ _ _. Unit {0}) o
          → Holds
              (λ k v.
                IsNew ks s request.secret_name k
                × (v.store ≡ s)
                × (v.frame ≡ w.frame)
                × (v.entries ≡ w.entries))
              (λ _ v. (v.store ≡ s) × (v.frame ≡ w.frame) × (v.entries ≡ w.entries))
              (elim o [
                | returned a t ↦ returned a (record w { outside = t })
                | thrown x t ↦ thrown x (record w { outside = t })
              ])
      generated (returned a t) (on_return h) = on_return (h, e, refl, refl)
      generated (thrown x t) h = on_throw (e, refl, refl)

  -- A step that calls what is outside.
  pub outside_step :
      {A : Type 0} (k : SecretKey) (w : World S O) (o : Outcome O A)
      → IsNew ks s request.secret_name k
      → On (Generated k) w
      → Holds {A = A}
          (λ _. On (Generated k))
          (λ _. On Broken)
          (elim o [
            | returned a t ↦ returned a (record w { outside = t })
            | thrown e t ↦ thrown e (record w { outside = t })
          ])
  outside_step k w o new h =
      Holds-mono_thrown (outside_keeps (Generated k) w o h)
        λ e v b. Generated-Broken k v.store v.frame v.entries new b

  pub begin_step :
      (k : SecretKey) (w : World S O)
      → IsNew ks s request.secret_name k
      → On (Generated k) w
      → Holds
          (λ _. On (Generated k))
          (λ _. On Broken)
          (begin_provider_rotation ks env u request.secret_name w)
  unfolding begin_provider_rotation
  begin_step k w new h = begun env.supports_rotation
    where
      begun :
          (b : Bool)
          → Holds
              (λ _. On (Generated k))
              (λ _. On Broken)
              ((if not b
                  then throw (no_rotation_support env.provider_name)
                  else in_outside (env.begin_rotation request.secret_name))
                w)
      begun true = outside_step k w (env.begin_rotation request.secret_name w.outside) new h
      begun false = on_throw (Generated-Broken k w.store w.frame w.entries new h)

  pub propagate_step :
      (k : SecretKey) (session : RotationSession) (id : String) (w : World S O)
      → IsNew ks s request.secret_name k
      → On (Generated k) w
      → Holds
          (λ _. On (Generated k))
          (λ _. On Broken)
          (propagate_to_provider ks env u request.secret_name k session id w)
  unfolding propagate_to_provider
  propagate_step k session id w new h =
      Holds-bind
        (outside_step k w
          (env.store_secret_value request.secret_name k.encrypted_material PropagationStage.pending
            w.outside)
          new h)
        λ propagated v r. Holds-bind (emit_keeps (Generated k) u _ _ r) λ a x q. on_return q

  pub verify_step :
      (k : SecretKey) (session : RotationSession) (id : String) (w : World S O)
      → IsNew ks s request.secret_name k
      → On (Generated k) w
      → Holds
          (λ _. On (Generated k))
          (λ _. On Broken)
          (verify_propagation ks env u session k request id w)
  unfolding verify_propagation
  verify_step k session id w new h =
      Holds-bind (outside_step k w _ new h) λ result v r. verified result v r result.success
    where
      verified :
          (result : VerificationResult Ratio) (v : World S O)
          → On (Generated k) v
          → (b : Bool)
          → Holds
              (λ _. On (Generated k))
              (λ _. On Broken)
              ((if not b then throw (coverage_failed env result) else (do
                t ← now env
                emit u (
                    key_verified (record {
                      secret_name = session.secret_name;
                      key_id = k.key_id;
                      consumer_count = result.consumer_count;
                      verification_time = result.duration;
                      timestamp = t;
                      metadata = rotation_metadata id;
                    }))))
                v)
      verified result v r true = emit_keeps (Generated k) u _ _ r
      verified result v r false = on_throw (Generated-Broken k v.store v.frame v.entries new r)

  pub record_step :
      {Q : Error → World S O → Type 0} (m : Option ℕ) (k : SecretKey) (w : World S O)
      → (w.store ≡ ks.save k s)
        × (w.frame.new_key ≡ some k)
        × (w.frame.previous_active_key_id ≡ some p.key_id)
        × (w.frame.rollback_entry_id ≡ none)
        × (w.entries ≡ es)
      → Holds
          (λ _. On (Generated k))
          Q
          (record_attempt ks env u m request.secret_name k.key_id (some p.key_id) w)
  unfolding record_attempt start_rotation
  record_step none k w (a, b, c, d, e) = on_return (a, b, c, inl d)
  record_step (some m) k w (a, b, c, d, e) =
      let entry =
        new_entry ("rb-" <> env.random_id w.ids) request.secret_name (some p.key_id) k.key_id none
          (env.clock w.reads) in
      on_return (
        a,
        b,
        c,
        inr (
          k,
          entry.id,
          entry.started_at,
          b,
          refl,
          get_entry-push_entry m w.entries entry
              (subst (λ z. get_entry z entry.id ≡ none) (sym e) (ids w.ids)),
        ),
      )
