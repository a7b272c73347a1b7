-- ===== src/Workflow/Correct.antt =====
-- A rotation as a whole: it hands the secret over, or it leaves the previous key in place.
use secret_rotation_kit.Prelude.{◌≢◌, refl, suc}
use secret_rotation_kit.Effect.{Holds, on_throw}
use secret_rotation_kit.Types.{SecretKey}
use secret_rotation_kit.KeyStore.{KeyStore, KeyStoreLaws}
use secret_rotation_kit.World.{Env, World}
use secret_rotation_kit.Workflow.{RotationRequest, Setup}
use secret_rotation_kit.Workflow.Execute.{execute}
use secret_rotation_kit.Workflow.Triples.{Holds-bind, Holds-catch}
use secret_rotation_kit.Workflow.Stores.{Starts}
use secret_rotation_kit.Workflow.Recovery.{Restored}
use secret_rotation_kit.Workflow.Failure.{handle_failure-Restored}
use secret_rotation_kit.Workflow.Steps.{GeneratesNew, NewIds, Succeeded}
use secret_rotation_kit.Workflow.Attempt.{attempt_cases}

module _ {S O Ratio : Type 0} (ks : KeyStore S) {Valid : S → Type 0} (laws : KeyStoreLaws ks Valid)
    (env : Env O Ratio) (u : Setup) (request : RotationRequest Ratio) (w : World S O)
    (p : SecretKey) where
  -- A rotation that starts with one active key `p`, under a non-empty id, either returns, and then the
  -- result names the new key, which was unused and is now active, rotated at a reading of the clock, and
  -- the only active one, while `p` is expired, valid until a reading of the clock and the overlap of the
  -- request together, and otherwise as it was, and no other key has changed; or it throws, at whatever
  -- step, and then `p` is active again, without an end to its validity, and is the only active key. The
  -- store is assumed to keep its laws, so that only `update` throws; the generator, to make pending keys
  -- under unused ids; and entry ids, to be new.
  pub execute-Rotated-or-Restored :
      Starts ks Valid w.store request.secret_name p
      → GeneratesNew ks env w.store
      → NewIds env w.entries
      → p.key_id ≢ ""
      → Holds
          (Succeeded ks env.clock request w.store p)
          (λ e v. Restored ks Valid request.secret_name p.key_id v.store)
          (execute ks env u request w)
  unfolding execute
  execute-Rotated-or-Restored start gen ids named =
      Holds-catch
        (attempt_cases ks laws env u request w.store w.entries p start gen ids _ _
          (record w { ids = suc w.ids; reads = suc w.reads }) refl refl)
        λ e v broken.
          Holds-bind
            (handle_failure-Restored ks laws env u request.secret_name p.key_id v.frame e _ v named
              broken.1 broken.0 broken.2)
            λ _ x restored. on_throw restored
