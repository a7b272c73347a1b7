-- ===== src/Provider/Vercel/Restore.antt =====
-- What a cancelled rotation leaves in a project.
use secret_rotation_kit.Prelude.{
  ◌≡◌, refl, ◌∙◌, ap, ◌⊎◌, inl, inr, Option, none, some, List, String, string_eq, find, In,
}
use secret_rotation_kit.Effect.{
  Error, Eff, returned, thrown, ◌>>=◌, try_catch, Holds, Outcome-cases, Holds-value, Holds-error,
}
use secret_rotation_kit.Types.{RotationSession}
use secret_rotation_kit.World.{SecretValue, pending}
use secret_rotation_kit.Workflow.{propagated_session}
use secret_rotation_kit.Workflow.Triples.{Holds-bind, Holds-mono, Holds-mono_thrown}
use secret_rotation_kit.Provider.{Host, non_empty}
use secret_rotation_kit.Provider.Vercel.{
  VercelEnv, ApiCall, ApiResponse, Vercel, get_secret, comment_active, comment_pending, captured,
  is_env,
}
use secret_rotation_kit.Provider.Vercel.Secrets.{store_secret_value}
use secret_rotation_kit.Provider.Vercel.Rotation.{capture, begin_rotation, cancel_rotation}
use secret_rotation_kit.Provider.Vercel.Service.{
  patched, removed, patched-patched, removed-patched, patched_value, VercelLaws, IsConfigured,
}
use secret_rotation_kit.Provider.Vercel.Steps.{
  get_secret-Reads, begun, store-Upserts, cancelled, Reads, Captures, overwritten, Cancels,
}

module _ {O : Type 0} (host : Host O) (fetch : ApiCall → Eff O ApiResponse)
    (encode : String → String) (p : Vercel) (stored : O → List VercelEnv) where
  -- Only the comment of the variable differs; it has the new value; it is gone.
  abbrev pub Restored : String → O → O → Type 0
  Restored id s t = stored t ≡ patched id none comment_active (stored s)

  abbrev pub Overwritten : String → String → O → O → Type 0
  Overwritten id value s t = stored t ≡ patched id (some value) comment_pending (stored s)

  abbrev pub Deleted : String → O → O → Type 0
  Deleted id s t = stored t ≡ removed id (stored s)

  abbrev pub ReadFailed : String → O → Type 0
  ReadFailed name s =
      (x : Error) × (t : O) × (get_secret host fetch encode p name none s ≡ thrown x t)

  -- A rotation that writes a value and is cancelled.
  abbrev pub rotate_and_cancel : String → String → Eff O (Unit {0})
  rotate_and_cancel name value = begin_rotation host fetch encode p name >>= (λ session.
      store_secret_value host fetch encode p name value pending
      >>= (λ v. cancel_rotation host fetch encode p (propagated_session session v)))

  module _ (laws : VercelLaws host fetch encode p stored) (name value old : String) (e : VercelEnv)
      (named : non_empty (some e.id) ≡ some e.id) (valued : e.value ≡ some old)
      (configured : IsConfigured host fetch encode p stored e) (s : O)
      (found : find (is_env host fetch encode p name none) (stored s) ≡ some e)
      (unique : (x : VercelEnv) → In x (stored s) → x.id ≡ e.id → x ≡ e) where
    restored :
        (t : O)
        → stored t
          ≡ patched e.id (some old) comment_active (
              overwritten host fetch encode p stored laws name value old e named valued configured
                s)
        → Restored e.id s t
    restored t q =
        q
        ∙ patched-patched e.id old comment_active (some value) comment_pending (stored s)
        ∙ patched_value e.id old comment_active (stored s)
            (λ x m i. ap (λ (z : VercelEnv). z.value) (unique x m i) ∙ valued)

    -- With the service as documented, a project whose listing gives, for a name, a variable with a readable
    -- value, an id of its own, and the type and the targets of the configuration: a rotation of the name that
    -- begins, writes a new value and is cancelled, if it returns, leaves the variables as they were but for
    -- the comment of that one; or the read at its beginning had failed, and then it leaves the variable with
    -- the new value or deletes it. If it throws, the variables are as they were, or that one has the new
    -- value, or is restored.
    pub rotate_and_cancel-Restored :
        Holds
          (λ x t.
            Restored e.id s t
            ⊎ (ReadFailed name s × (Overwritten e.id value s t ⊎ Deleted e.id s t)))
          (λ x t. (stored t ≡ stored s) ⊎ Overwritten e.id value s t ⊎ Restored e.id s t)
          (rotate_and_cancel name value s)
    unfolding Cancels capture
    rotate_and_cancel-Restored = elim (Outcome-cases (get_secret host fetch encode p name none s)) [
      | inl (v, t, g) ↦
          let (q, r) = Holds-value reads g in
          elim_begun (some v) t (rw (capture, try_catch, ◌>>=◌, g) refl) q r
            (λ u c. inl (restored u c))
      | inr (x, t, g) ↦
          elim_begun none t (rw (capture, try_catch, ◌>>=◌, g) refl) (Holds-error reads g) tt
            (λ u c. inr (
              (x, t, g),
              elim c [
                | inl a ↦ inl a
                | inr b ↦ inr (b ∙ removed-patched e.id (some value) comment_pending (stored s))
              ],
            ))
    ]
      where
        reads :
            Holds
              (λ v t.
                (stored t ≡ stored s)
                × Reads host fetch encode p stored laws name value old e named valued configured v)
              (λ x t. stored t ≡ stored s)
              (get_secret host fetch encode p name none s)
        reads =
            get_secret-Reads host fetch encode p stored laws name value old e named valued
              configured s found

        elim_begun :
            (o : Option SecretValue) (t : O)
            → capture host fetch encode p name s ≡ returned o t
            → stored t ≡ stored s
            → Captures host fetch encode p stored laws name value old e named valued configured o
            → ((u : O)
                → Cancels host fetch encode p stored laws name value old e named valued configured o
                    s u
                → Restored e.id s u
                  ⊎ (ReadFailed name s × (Overwritten e.id value s u ⊎ Deleted e.id s u)))
            → Holds
                (λ x u.
                  Restored e.id s u
                  ⊎ (ReadFailed name s × (Overwritten e.id value s u ⊎ Deleted e.id s u)))
                (λ x u. (stored u ≡ stored s) ⊎ Overwritten e.id value s u ⊎ Restored e.id s u)
                (rotate_and_cancel name value s)
        elim_begun o t c q r k =
            Holds-bind
              (Holds-mono_thrown
                (begun host fetch encode p stored laws name value old e named valued configured o s
                  t c q)
                (λ x u w. inl w))
              writes
          where
            writes :
                (session : RotationSession) (u : O)
                → (stored u ≡ stored s) × (session.state.metadata ≡ some (captured o))
                → Holds
                    (λ x w.
                      Restored e.id s w
                      ⊎ (ReadFailed name s × (Overwritten e.id value s w ⊎ Deleted e.id s w)))
                    (λ x w. (stored w ≡ stored s) ⊎ Overwritten e.id value s w ⊎ Restored e.id s w)
                    ((store_secret_value host fetch encode p name value pending >>= (λ v.
                        cancel_rotation host fetch encode p (propagated_session session v)))
                      u)
            writes session u (w, m) =
                let same = ap (patched e.id (some value) comment_pending) w in
                Holds-bind
                  (Holds-mono_thrown
                    (store-Upserts host fetch encode p stored laws name value old e named valued
                      configured u (ap (find (is_env host fetch encode p name none)) w ∙ found))
                    (λ x y q. elim q [ inl a ↦ inl (a ∙ w) | inr b ↦ inr (inl (b ∙ same)) ]))
                  (λ v y q.
                    Holds-mono_thrown
                      (Holds-mono
                        (cancelled host fetch encode p stored laws name value old e named valued
                          configured o session v s y m r q.0 (q.1 ∙ same))
                        (λ z y' c'. k y' c'))
                      (λ z y' f. elim f [
                        | inl a ↦ inr (inl a)
                        | inr b ↦ inr (inr (restored y' b))
                      ]))
