-- ===== src/Workflow/Failure.antt =====
-- The `catch` block of `execute` restores the previous key, on both of its branches.
use secret_rotation_kit.Prelude.{
  of_some, ℕ, suc, ◌≡◌, refl, sym, subst, ap, ◌∙◌, ◌≢◌, inl, inr, true, false, Option, none, some,
  String, ◌==◌, string_eq, arith, Bool-cases, eq_of_beq,
}
use secret_rotation_kit.Effect.{Error, returned, Holds, on_return}
use secret_rotation_kit.Types.{SecretKey, RotationSession}
use secret_rotation_kit.KeyStore.{KeyStore, KeyStoreLaws}
use secret_rotation_kit.World.{Env, World, Frame}
use secret_rotation_kit.Rollback.{
  truthy, reactivated_key, reactivate_key, try_mark_failed, try_reactivate, cancel_session,
  rollback, new_entry, get_entry,
}
use secret_rotation_kit.Workflow.{Setup}
use secret_rotation_kit.Workflow.Execute.{
  reactivate_previous_key, fail_new_key, restore_previous, cancel_begun, clean_up, recover,
  handle_failure, roll_back_entry,
}
use secret_rotation_kit.Workflow.Triples.{
  Holds-bind, Holds-returned, Holds-mono, Holds-catch, emit_keeps, outside_keeps,
}
use secret_rotation_kit.Workflow.Recovery.{
  IsLive, Restorable, Contested, Candidate, Entered, Restored, fail_new, reactivate,
}

truthy-some : (i : String) → i ≢ "" → truthy (some i) ≡ some i
truthy-some i ne = elim (Bool-cases (i == "")) [
  | inl e ↦ absurd (ne (eq_of_beq i "" e))
  | inr e ↦ rw e refl
]

module _ {S O Ratio : Type 0} (ks : KeyStore S) {Valid : S → Type 0} (laws : KeyStoreLaws ks Valid)
    (env : Env O Ratio) (u : Setup) (n i : String) where
  -- The previous key can be reactivated, or has been; what is outside the library is as in `o`.
  abbrev Waits : O → World S O → Type 0
  Waits o w = Restorable ks Valid n i w.store × (w.outside ≡ o)

  abbrev Safe : O → World S O → Type 0
  Safe o w = Restored ks Valid n i w.store × (w.outside ≡ o)

  -- A live key is written back as active.
  module _ (w : World S O) (p : SecretKey) (g : ks.get w.store n i ≡ some p)
      (live : IsLive p.status)
      (e : ks.update (reactivated_key p (env.clock w.reads)) w.store
        ≡ returned tt (ks.save (reactivated_key p (env.clock w.reads)) w.store)) where
    abbrev written : World S O
    written = record w {
      store = ks.save (reactivated_key p (env.clock w.reads)) w.store;
      reads = suc w.reads;
    }

    reactivate_key_lem : reactivate_key ks env n i w ≡ returned tt written
    unfolding reactivate_key
    reactivate_key_lem = ground (arith, g, live, e)

    reactivate_previous_key_lem : reactivate_previous_key ks env u n i w ≡ returned tt written
    unfolding reactivate_previous_key
    reactivate_previous_key_lem = ground (arith, g, live, e)

  try_mark_failed-Waits :
      {Q : Error → World S O → Type 0} (j message : String) (w : World S O)
      → Contested ks Valid n i j w.store
      → Holds (λ _. Waits w.outside) Q (try_mark_failed ks env n j message w)
  unfolding try_mark_failed
  try_mark_failed-Waits j message w c =
      let (k, s, e, r) = fail_new ks laws n i j message (env.clock w.reads) w.store c in
      Holds-returned tt (record w { store = s; reads = suc w.reads }) (ground (arith, e)) (r, refl)

  try_reactivate-Safe :
      {Q : Error → World S O → Type 0} (o : O) (w : World S O)
      → Waits o w
      → Holds (λ failed v. (failed ≡ false) × Safe o v) Q (try_reactivate ks env n (some i) w)
  unfolding try_reactivate
  try_reactivate-Safe o w (r, q) =
      let (p, g, live) = r.kept in
      let (e, back) = reactivate ks laws n i (env.clock w.reads) w.store p r g in
      Holds-returned false (written w p g live e) (ground (arith, reactivate_key_lem w p g live e))
        (refl, (back, q))

  fail_new_key-Waits :
      {Q : Error → World S O → Type 0} (o : Option SecretKey) (message : String) (w : World S O)
      → Candidate ks Valid n i o w.store
      → Holds (λ _. Waits w.outside) Q (fail_new_key ks env u o n message w)
  unfolding fail_new_key
  fail_new_key-Waits none message w c = on_return (c, refl)
  fail_new_key-Waits (some k) message w c =
      let (l, s, e, r) = fail_new ks laws n i k.key_id message (env.clock w.reads) w.store c in
      Holds-returned tt (record w { store = s; reads = suc w.reads }) (ground (arith, e)) (r, refl)

  restore_previous-Safe :
      {Q : Error → World S O → Type 0} (o : O) (w : World S O)
      → Waits o w
      → Holds (λ _. Safe o) Q (restore_previous ks env u (some i) n w)
  unfolding restore_previous
  restore_previous-Safe o w (r, q) =
      let (p, g, live) = r.kept in
      let (e, back) = reactivate ks laws n i (env.clock w.reads) w.store p r g in
      Holds-returned tt (written w p g live e)
        (ground (arith, reactivate_previous_key_lem w p g live e)) (back, q)

  -- Cancelling the session touches nothing but what is outside.
  cancelled-keeps :
      {Q : Error → World S O → Type 0} (P : S → Type 0) (session : Option RotationSession)
      (w : World S O)
      → P w.store
      → Holds (λ _ v. P v.store) Q (cancel_begun ks env u session w)
  unfolding cancel_begun
  cancelled-keeps P none w h = on_return h
  cancelled-keeps P (some session) w h =
      Holds-catch (outside_keeps (λ s _ _. P s) w (env.cancel_rotation session w.outside) h)
        λ e t q. on_return q

  -- Rolling back an entry without a session, whose new key and previous key, the latter under a non-empty
  -- id, are neither failed nor revoked and are the only ones that may be active: it returns a success and
  -- never throws, the previous key is then active without an end to its validity, and the only active key, and nothing
  -- outside the library has been called.
  pub rollback-Restored :
      {Q : Error → World S O → Type 0} (id j message : String) (started : ℕ) (w : World S O)
      → i ≢ ""
      → Contested ks Valid n i j w.store
      → Holds
          (λ result v.
            (result.success ≡ true) × Restored ks Valid n i v.store × (v.outside ≡ w.outside))
          Q
          (rollback ks env (new_entry id n (some i) j none started) message w)
  unfolding rollback cancel_session
  rollback-Restored id j message started w ne c =
      Holds-bind (try_mark_failed-Waits j message (record w { reads = suc w.reads }) c) λ a v h.
        Holds-bind (reactivated v h) λ failed x r. on_return (ground (arith, r.0), r.1.0, r.1.1)
    where
      reactivated :
          {Q : Error → World S O → Type 0} (v : World S O)
          → Waits w.outside v
          → Holds
              (λ failed x. (failed ≡ false) × Safe w.outside x)
              Q
              (try_reactivate ks env n (truthy (some i)) v)
      reactivated {Q} v h =
          subst
            (λ z.
              Holds (λ failed x. (failed ≡ false) × Safe w.outside x) Q
                (try_reactivate ks env n z v))
            (sym (truthy-some i ne)) (try_reactivate-Safe w.outside v h)

  -- The cleanup without a recorded attempt.
  clean_up-Safe :
      {Q : Error → World S O → Type 0} (f : Frame) (message : String) (w : World S O)
      → i ≢ ""
      → f.previous_active_key_id ≡ some i
      → Candidate ks Valid n i f.new_key w.store
      → Holds (λ _ v. Restored ks Valid n i v.store) Q (clean_up ks env u f n message w)
  unfolding clean_up
  clean_up-Safe {Q} f message w ne fp c =
      Holds-bind (cancelled-keeps (Candidate ks Valid n i f.new_key) f.session w c)
        λ a v h. Holds-bind (fail_new_key-Waits f.new_key message v h) λ b x r. restored x r
    where
      restored :
          (x : World S O) {o : O}
          → Waits o x
          → Holds
              (λ _ v. Restored ks Valid n i v.store)
              Q
              (restore_previous ks env u (truthy f.previous_active_key_id) n x)
      restored x {o} r =
          subst
            (λ z. Holds (λ _ v. Restored ks Valid n i v.store) Q (restore_previous ks env u z n x))
            (sym (ap truthy fp ∙ truthy-some i ne))
            (Holds-mono (restore_previous-Safe o x r) (λ _ _ h. h.0))

  roll_back_entry-Safe :
      {Q : Error → World S O → Type 0} (id j message : String) (started : ℕ) (w : World S O)
      → i ≢ ""
      → Contested ks Valid n i j w.store
      → Holds
          (λ _ v. Restored ks Valid n i v.store)
          Q
          (roll_back_entry ks env u (some (new_entry id n (some i) j none started)) message w)
  unfolding roll_back_entry
  roll_back_entry-Safe id j message started w ne c =
      Holds-catch {Q = λ _ _. ⊥}
        (Holds-bind (rollback-Restored id j message started w ne c) λ a v h. on_return (h.1))
        λ e t q. absurd q

  recover-Safe :
      {Q : Error → World S O → Type 0} (r : Option ℕ) (x : Option String) (f : Frame)
      (message : String) (w : World S O)
      → i ≢ ""
      → f.rollback_entry_id ≡ x
      → f.previous_active_key_id ≡ some i
      → Candidate ks Valid n i f.new_key w.store
      → Entered n i f w.entries
      → Holds (λ _ v. Restored ks Valid n i v.store) Q (recover ks env u r x f n message w)
  unfolding recover
  recover-Safe none none f message w ne fx fp c en = clean_up-Safe f message w ne fp c
  recover-Safe none (some id) f message w ne fx fp c en = clean_up-Safe f message w ne fp c
  recover-Safe (some m) none f message w ne fx fp c en = clean_up-Safe f message w ne fp c
  recover-Safe (some m) (some id) f message w ne fx fp c (inl e) = absurd (cc)
  recover-Safe {Q} (some m) (some id) f message w ne fx fp c (inr (k, id', started, fk, e, g)) =
      let same : id' ≡ id = of_some (sym e ∙ fx) in
      let g' =
        subst (λ z. get_entry w.entries z ≡ some (new_entry z n (some i) k.key_id none started))
          same g in
      subst
        (λ z. Holds (λ _ v. Restored ks Valid n i v.store) Q (roll_back_entry ks env u z message w))
        (sym g')
        (roll_back_entry-Safe id k.key_id message started w ne
          (subst (λ z. Candidate ks Valid n i z w.store) fk c))

  -- After the cleanup the previous key is active again, and the only one.
  pub handle_failure-Restored :
      {Q : Error → World S O → Type 0} (f : Frame) (e : Error) (id : String) (w : World S O)
      → i ≢ ""
      → f.previous_active_key_id ≡ some i
      → Candidate ks Valid n i f.new_key w.store
      → Entered n i f w.entries
      → Holds (λ _ v. Restored ks Valid n i v.store) Q (handle_failure ks env u f n e id w)
  unfolding handle_failure
  handle_failure-Restored f e id w ne fp c en =
      Holds-bind (recover-Safe u.rollback f.rollback_entry_id f e.message w ne refl fp c en)
        λ a v h.
          emit_keeps (λ s _ _. Restored ks Valid n i s) u _ (record v { reads = suc v.reads }) h
