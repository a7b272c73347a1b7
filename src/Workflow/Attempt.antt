-- ===== src/Workflow/Attempt.antt =====
-- The `try` block of `execute`: what it leaves when it returns, and when it throws.
use mathlib.Core.Option
use secret_rotation_kit.Prelude.{
  ℕ, suc, ◌≡◌, refl, sym, ap, ◌∙◌, subst, inl, Option, none, some, List, String, string_eq, arith,
}
use secret_rotation_kit.Effect.{Error, returned, Holds, on_return}
use secret_rotation_kit.Types.{SecretKey, RotationSession}
use secret_rotation_kit.KeyStore.{KeyStore, KeyStoreLaws}
use secret_rotation_kit.Lifecycle.{activate, activated_key}
use secret_rotation_kit.Lifecycle.Writes.{activated_store}
use secret_rotation_kit.World.{Env, World, Frame, RollbackEntry, in_outside}
use secret_rotation_kit.Rollback.{mark_complete}
use secret_rotation_kit.Workflow.{
  RotationRequest, Setup, key_id_of, empty_frame, activate_new_key, record_attempt, record_success,
  attempt,
}
use secret_rotation_kit.Workflow.Triples.{
  Holds-bind, Holds-returned, Holds-mono_thrown, On, emit_keeps, outside_keeps,
}
use secret_rotation_kit.Workflow.Stores.{
  Starts, IsNew, Rotated, activated-Contested, activated-Rotated, activate_new, start-Restorable,
}
use secret_rotation_kit.Workflow.Steps.{
  GeneratesNew, NewIds, Succeeded, Generated, Broken, generate_key-New, begin_step, propagate_step,
  verify_step, record_step,
}
use secret_rotation_kit.Workflow.Recovery.{Candidate, Entered, Contested, Restorable}

module _ {S O Ratio : Type 0} (ks : KeyStore S) {Valid : S → Type 0} (laws : KeyStoreLaws ks Valid)
    (env : Env O Ratio) (u : Setup) (request : RotationRequest Ratio) (s : S)
    (es : List RollbackEntry) (p : SecretKey) (start : Starts ks Valid s request.secret_name p)
    (gen : GeneratesNew ks env s) (ids : NewIds env es) where
  -- After the hand-over.
  abbrev Activated : SecretKey → S → Frame → List RollbackEntry → Type 0
  Activated k t f fs =
      (i : ℕ) × (t
        ≡ activated_store ks (ks.save k s) request.secret_name k request.overlap_period_ms
            (env.clock i) (env.clock (suc i)))
      × (f.new_key ≡ some k)
      × (f.previous_active_key_id ≡ some p.key_id)
      × Entered request.secret_name p.key_id f fs

  Activated-Broken :
      (k : SecretKey) (t : S) (f : Frame) (fs : List RollbackEntry)
      → IsNew ks s request.secret_name k
      → Activated k t f fs
      → (Broken ks laws env u request s es p start gen ids) t f fs
  Activated-Broken k t f fs new (i, e, fk, fp, en) = (
    subst (λ o. Candidate ks Valid request.secret_name p.key_id o t) (sym fk)
        (subst (Contested ks Valid request.secret_name p.key_id k.key_id) (sym e) (
          activated-Contested ks laws s request.secret_name p start k new request.overlap_period_ms
            (env.clock i) (env.clock (suc i)))),
    fp,
    en,
  )

  activate_step :
      {Q : Error → World S O → Type 0} (k : SecretKey) (w : World S O)
      → IsNew ks s request.secret_name k
      → On ((Generated ks laws env u request s es p start gen ids) k) w
      → Holds
          (λ _. On (Activated k))
          Q
          (activate_new_key ks env u request.secret_name k.key_id request.overlap_period_ms w)
  unfolding activate_new_key
  activate_step k w new (e, fk, fp, en) =
      let t₁ = env.clock w.reads in
      let t₂ = env.clock (suc w.reads) in
      let t =
        activated_store ks (ks.save k s) request.secret_name k request.overlap_period_ms t₁ t₂ in
      let q : activate ks request.secret_name k.key_id request.overlap_period_ms t₁ t₂ w.store
          ≡ returned (activated_key k t₂) t =
        subst
          (λ z.
            activate ks request.secret_name k.key_id request.overlap_period_ms t₁ t₂ z
            ≡ returned (activated_key k t₂) t)
          (sym e)
          (activate_new ks laws s request.secret_name p start k new request.overlap_period_ms t₁
            t₂) in
      Holds-returned tt (record w { store = t; reads = suc (suc w.reads) }) (ground (arith, q))
        (w.reads, refl, fk, fp, en)

  -- A call of `completeRotation`, the last step that may fail.
  complete_step :
      (k : SecretKey) (session : RotationSession) (w : World S O)
      → IsNew ks s request.secret_name k
      → On (Activated k) w
      → Holds
          (λ _. On (Activated k))
          (λ _. On (Broken ks laws env u request s es p start gen ids))
          (in_outside (env.complete_rotation session) w)
  complete_step k session w new h =
      Holds-mono_thrown (outside_keeps (Activated k) w (env.complete_rotation session w.outside) h)
        λ e v b. Activated-Broken k v.store v.frame v.entries new b

  success_step :
      {Q : Error → World S O → Type 0} (P : S → Type 0) (m : Option ℕ) (id : Option String)
      (w : World S O)
      → P w.store
      → Holds (λ _ v. P v.store) Q (record_success ks env u m id w)
  unfolding record_success mark_complete
  success_step P none id w h = on_return h
  success_step P (some m) none w h = on_return h
  success_step P (some m) (some id) w h = on_return h

  -- The world in which `execute` enters the `try` block, with the previous key's id assigned.
  abbrev entered : World S O → Option String → World S O
  entered w previous = record w { frame = record empty_frame { previous_active_key_id = previous } }

  -- The generation failed, so that there is nothing to take back.
  Early-Broken :
      (w v : World S O) (previous : Option String)
      → previous ≡ some p.key_id
      → (v.store ≡ s) × (v.frame ≡ (entered w previous).frame) × (v.entries ≡ w.entries)
      → On (Broken ks laws env u request s es p start gen ids) v
  Early-Broken w v previous e (vs, vf, ve) =
      subst (λ f. (Broken ks laws env u request s es p start gen ids) v.store f v.entries) (sym vf)
        (
          subst (Restorable ks Valid request.secret_name p.key_id) (sym vs)
              (start-Restorable ks laws s request.secret_name p start),
          e,
          inl refl,
        )

  record_step' :
      {Q : Error → World S O → Type 0} (k : SecretKey) (previous : Option String) (w v : World S O)
      → previous ≡ some p.key_id
      → w.entries ≡ es
      → (v.store ≡ ks.save k s) × (v.frame ≡ (entered w previous).frame) × (v.entries ≡ w.entries)
      → Holds
          (λ _. On ((Generated ks laws env u request s es p start gen ids) k))
          Q
          (record_attempt ks env u u.rollback request.secret_name k.key_id previous
            (record v { frame = record v.frame { new_key = some k } }))
  record_step' {Q} k previous w v e we (vs, vf, ve) =
      let v' = record v { frame = record v.frame { new_key = some k } } in
      subst
        (λ z.
          Holds (λ _. On ((Generated ks laws env u request s es p start gen ids) k)) Q
            (record_attempt ks env u u.rollback request.secret_name k.key_id z v'))
        (sym e)
        ((record_step ks laws env u request s es p start gen ids) u.rollback k v' (
          vs,
          refl,
          ap (λ f. f.previous_active_key_id) vf ∙ e,
          ap (λ f. f.rollback_entry_id) vf,
          ve ∙ we,
        ))

  pub attempt_cases :
      (id : String) (begin : ℕ) (w : World S O)
      → w.store ≡ s
      → w.entries ≡ es
      → Holds
          (Succeeded ks env.clock request s p)
          (λ _. On (Broken ks laws env u request s es p start gen ids))
          (attempt ks env u request id begin (record w { frame = empty_frame }))
  unfolding attempt
  attempt_cases id begin w ws we =
      let previous = Option.map key_id_of (ks.get_active w.store request.secret_name) in
      let e : previous ≡ some p.key_id =
        ap (Option.map key_id_of)
          (ap (λ z. ks.get_active z request.secret_name) ws ∙ start.current) in
      Holds-bind
        (Holds-mono_thrown
          ((generate_key-New ks laws env u request s es p start gen ids) id (entered w previous) ws)
          (λ x v h. Early-Broken w v previous e h))
        λ key v h. Holds-bind (record_step' key previous w v e we (h.1, h.2, h.3)) λ _ v₁ h₁.
          Holds-bind ((begin_step ks laws env u request s es p start gen ids) key _ h.0 h₁)
            λ begun v₂ h₂.
              Holds-bind
                ((propagate_step ks laws env u request s es p start gen ids) key begun id _ h.0 h₂)
                λ session v₃ h₃.
                  Holds-bind
                    ((verify_step ks laws env u request s es p start gen ids) key session id _ h.0
                      h₃)
                    λ _ v₄ h₄. Holds-bind (activate_step key _ h.0 h₄) λ _ v₅ h₅.
                      Holds-bind (complete_step key session v₅ h.0 h₅) λ _ v₆ h₆.
                        Holds-bind
                          (success_step (Done key) u.rollback v₆.frame.rollback_entry_id _
                            (done key v₆.store v₆.frame v₆.entries h.0 h₆))
                          λ _ v₇ h₇.
                            Holds-bind (emit_keeps (λ t _ _. Done key t) u _ _ h₇)
                              λ _ v₈ h₈. on_return (refl, (key, refl, h₈))
    where
      Done : SecretKey → S → Type 0
      Done k t = Rotated ks s t request.secret_name p k request.overlap_period_ms env.clock

      done :
          (k : SecretKey) (t : S) (f : Frame) (fs : List RollbackEntry)
          → IsNew ks s request.secret_name k
          → Activated k t f fs
          → Done k t
      done k t f fs new h = subst (Done k) (sym h.1) (
          activated-Rotated ks laws s request.secret_name p start k new request.overlap_period_ms
            (env.clock h.0) (env.clock (suc h.0)) env.clock h.0 (suc h.0) refl refl)
