-- ===== src/Provider/Vercel/Steps.antt =====
-- The steps of a rotation that is cancelled.
use secret_rotation_kit.Prelude.{
  ◌≡◌, refl, ◌∙◌, ap, ◌⊎◌, inl, inr, true, Option, none, some, List, [], ◌∷◌, String, string_eq,
  nat_beq, find, Bool-cases,
}
use secret_rotation_kit.Map
use secret_rotation_kit.Effect.{Error, Eff, returned, ◌>>=◌, Holds, on_return, on_throw}
use secret_rotation_kit.Types.{RotationSession}
use secret_rotation_kit.World.{SecretValue, pending}
use secret_rotation_kit.Workflow.{propagated_session}
use secret_rotation_kit.Workflow.Triples.{Holds-bind, Holds-mono_thrown, Holds-catch}
use secret_rotation_kit.Provider.{Host, non_empty, new_session}
use secret_rotation_kit.Provider.Vercel.{
  VercelEnv, Json, env_list, env_object, created_response, one_created, ApiCall, ApiResponse,
  Vercel, found_or, get_secret, find_env, list_envs, as_envs, comment_active, comment_pending,
  captured, env_body, is_env, answered, api,
}
use secret_rotation_kit.Provider.Vercel.Secrets.{created_of, stored_value, store_secret_value}
use secret_rotation_kit.Provider.Vercel.Rotation.{
  patch_body, capture, begin_rotation, cancel_rotation,
}
use secret_rotation_kit.Provider.Vercel.Service.{
  patched, removed, call_of, Upserts, stores, garbled, fails, refuses, VercelLaws, IsConfigured,
  api-Writes,
}

module _ {O : Type 0} (host : Host O) (fetch : ApiCall → Eff O ApiResponse)
    (encode : String → String) (p : Vercel) (stored : O → List VercelEnv) where
  module _ (laws : VercelLaws host fetch encode p stored) (name value old : String) (e : VercelEnv)
      (named : non_empty (some e.id) ≡ some e.id) (valued : e.value ≡ some old)
      (configured : IsConfigured host fetch encode p stored e) where
    abbrev Found : O → Type 0
    Found s = find (is_env host fetch encode p name none) (stored s) ≡ some e

    list_envs-stored :
        (s : O)
        → Holds
            (λ es t. (stored t ≡ stored s) × (es ≡ stored s))
            (λ x t. stored t ≡ stored s)
            (list_envs host fetch encode p true s)
    unfolding list_envs api
    list_envs-stored s = Holds-bind (Holds-bind (laws.reads s) read) parse
      where
        Read : Option Json → O → Type 0
        Read j t =
            (stored t ≡ stored s)
            × ((j ≡ none) ⊎ (j ≡ some (env_list (stored s))) ⊎ (j ≡ some (env_object (stored s))))

        read :
            (r : ApiResponse) (t : O)
            → (stored t ≡ stored s)
              × ((r.ok ≡ true)
                  → (r.json ≡ none)
                    ⊎ (r.json ≡ some (env_list (stored s)))
                    ⊎ (r.json ≡ some (env_object (stored s))))
            → Holds Read
                (λ x u. stored u ≡ stored s)
                (answered host fetch encode p
                  (call_of host fetch encode p stored "GET" none (("decrypt", "true") ∷ []) none)
                  r
                  t)
        read r t (q, j) = elim (Bool-cases r.ok) [
          | inr n ↦ rw n (on_throw q)
          | inl k ↦ elim (Bool-cases (nat_beq r.status 204)) [
            | inl z ↦ rw (k, z) (on_return (q, inl refl))
            | inr z ↦ elim (j k) [
              | inl m ↦ rw (k, z, m) (on_throw q)
              | inr (inl m) ↦ rw (k, z, m) (on_return (q, inr (inl refl)))
              | inr (inr m) ↦ rw (k, z, m) (on_return (q, inr (inr refl)))
            ]
          ]
        ]

        parse :
            (j : Option Json) (t : O)
            → Read j t
            → Holds
                (λ es u. (stored u ≡ stored s) × (es ≡ stored s))
                (λ x u. stored u ≡ stored s)
                (as_envs host fetch encode p j t)
        parse j t (q, inl m) = rw m (on_throw q)
        parse j t (q, inr (inl m)) = rw m (on_return (q, refl))
        parse j t (q, inr (inr m)) = rw m (on_return (q, refl))

    -- What is read of the variable.
    abbrev pub Reads : SecretValue → Type 0
    Reads v = (v.value ≡ old) × (v.version_id ≡ e.id)

    pub get_secret-Reads :
        (s : O)
        → Found s
        → Holds
            (λ v t. (stored t ≡ stored s) × Reads v)
            (λ x t. stored t ≡ stored s)
            (get_secret host fetch encode p name none s)
    unfolding get_secret find_env
    get_secret-Reads s f = Holds-bind (Holds-bind (list_envs-stored s) look) take
      where
        look :
            (es : List VercelEnv) (t : O)
            → (stored t ≡ stored s) × (es ≡ stored s)
            → Holds
                (λ o u. (stored u ≡ stored s) × (o ≡ some e))
                (λ x u. stored u ≡ stored s)
                (returned (find (is_env host fetch encode p name none) es) t)
        look es t (q, m) = on_return (q, ap (find (is_env host fetch encode p name none)) m ∙ f)

        take :
            (o : Option VercelEnv) (t : O)
            → (stored t ≡ stored s) × (o ≡ some e)
            → Holds
                (λ v u. (stored u ≡ stored s) × Reads v)
                (λ x u. stored u ≡ stored s)
                (found_or host fetch encode p name o t)
        take o t (q, m) = rw m (on_return (q, (rw valued refl, refl)))

    abbrev pub Captures : Option SecretValue → Type 0
    Captures none = Unit
    Captures (some v) = Reads v

    -- A session that begins, from what was captured.
    pub begun :
        (o : Option SecretValue) (s t : O)
        → capture host fetch encode p name s ≡ returned o t
        → stored t ≡ stored s
        → Holds
            (λ session u. (stored u ≡ stored s) × (session.state.metadata ≡ some (captured o)))
            (λ x u. stored u ≡ stored s)
            (begin_rotation host fetch encode p name s)
    unfolding begin_rotation new_session
    begun o s t c q =
        rw (begin_rotation, ◌>>=◌, c)
          (Holds-bind (Holds-mono_thrown (laws.random_keeps t) (λ x u r. r ∙ q))
            (λ x u r. on_return (r ∙ q, refl)))

    abbrev pub overwritten : O → List VercelEnv
    overwritten s = patched e.id (some value) comment_pending (stored s)

    pub store-Upserts :
        (s : O)
        → Found s
        → Holds
            (λ v t. (v.version_id ≡ e.id) × (stored t ≡ overwritten s))
            (λ x t. (stored t ≡ stored s) ⊎ (stored t ≡ overwritten s))
            (store_secret_value host fetch encode p name value pending s)
    unfolding store_secret_value api
    store-Upserts s f =
        Holds-bind
          (Holds-bind (Holds-bind (laws.upserts name value e s f configured) answer) created) given
      where
        Q : Error → O → Type 0
        Q x t = (stored t ≡ stored s) ⊎ (stored t ≡ overwritten s)

        Answer : Option Json → O → Type 0
        Answer j t =
            ((k : VercelEnv) × (j ≡ some (created_response (one_created k) []))
              × (k.id ≡ e.id)
              × (stored t ≡ overwritten s))
            ⊎ ((k : VercelEnv) × (m : String) × (ms : List String) × (j
                  ≡ some (created_response (one_created k) (m ∷ ms)))
                × (stored t ≡ stored s))

        answer :
            (r : ApiResponse) (t : O)
            → Upserts host fetch encode p stored
                (patched e.id (some value) comment_pending)
                e.id
                s
                r
                t
            → Holds Answer Q (
                answered host fetch encode p
                  (call_of host fetch encode p stored "POST" none
                    (("upsert", "true") ∷ [])
                    (some (env_body host fetch encode p name value comment_pending)))
                  r
                  t)
        answer r t (stores k a b c d w) = rw (a, b, c) (on_return (inl (k, refl, d, w)))
        answer r t (garbled a b c w) = rw (a, b, c) (on_throw (inr w))
        answer r t (fails k m ms a b c w) = rw (a, b, c) (on_return (inr (k, m, ms, refl, w)))
        answer r t (refuses a w) = rw a (on_throw (inl w))

        created :
            (j : Option Json) (t : O)
            → Answer j t
            → Holds
                (λ o u. (k : VercelEnv) × (o ≡ some k) × (k.id ≡ e.id) × (stored u ≡ overwritten s))
                Q
                (created_of host fetch encode p name j t)
        created j t (inl (k, m, d, w)) = rw m (on_return (k, refl, d, w))
        created j t (inr (k, n, ns, m, w)) = rw m (on_throw (inl w))

        given :
            (o : Option VercelEnv) (t : O)
            → (k : VercelEnv) × (o ≡ some k) × (k.id ≡ e.id) × (stored t ≡ overwritten s)
            → Holds
                (λ v u. (v.version_id ≡ e.id) × (stored u ≡ overwritten s))
                Q
                (stored_value host fetch encode p name value o t)
        given o t (k, m, d, w) = rw m (on_return (d, w))

    -- Cancelling after the write, from what was captured.
    unfoldable pub Cancels : Option SecretValue → O → O → Type 0
    Cancels none s t = (stored t ≡ overwritten s) ⊎ (stored t ≡ removed e.id (overwritten s))
    Cancels (some v) s t = stored t ≡ patched e.id (some old) comment_active (overwritten s)

    pub cancelled :
        (o : Option SecretValue) (session : RotationSession) (v : SecretValue) (s t : O)
        → session.state.metadata ≡ some (captured o)
        → Captures o
        → v.version_id ≡ e.id
        → stored t ≡ overwritten s
        → Holds
            (λ x u. Cancels o s u)
            (λ x u.
              (stored u ≡ overwritten s)
              ⊎ (stored u ≡ patched e.id (some old) comment_active (overwritten s)))
            (cancel_rotation host fetch encode p (propagated_session session v) t)
    unfolding cancel_rotation Cancels Map.get
    cancelled none session v s t m c i w =
        rw (m, i, named)
          (Holds-catch
            (Holds-bind
              (api-Writes host fetch encode p stored (removed e.id) t "DELETE" (some e.id) [] none
                (laws.deletes e.id t))
              (λ j u q. on_return (inr (q ∙ ap (removed e.id) w))))
            (λ x u q.
              on_return (elim q [ inl a ↦ inl (a ∙ w) | inr b ↦ inr (b ∙ ap (removed e.id) w) ])))
    cancelled (some x) session v s t m c i w =
        rw (m, i, named, c.0)
          (Holds-bind
            (Holds-mono_thrown
              (api-Writes host fetch encode p stored (patched e.id (some old) comment_active) t
                "PATCH" (some e.id) [] (some (patch_body host fetch encode p (some old)))
                (laws.patches e.id (some old) t))
              (λ y u q. elim q [
                | inl a ↦ inl (a ∙ w)
                | inr b ↦ inr (b ∙ ap (patched e.id (some old) comment_active) w)
              ]))
            (λ j u q. on_return (q ∙ ap (patched e.id (some old) comment_active) w)))
