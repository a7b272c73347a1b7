-- ===== src/Provider/Vercel/Rotation.antt =====
-- packages/provider-vercel/src/provider.ts: the sessions of a rotation.
use secret_rotation_kit.Prelude.{Bool, true, Option, none, some, [], String, string_eq}
use secret_rotation_kit.Map
use secret_rotation_kit.Effect.{Eff, ◌>>=◌, ◌>>◌, pure, try_catch}
use secret_rotation_kit.Types.{RotationSession, Metadata, spread}
use secret_rotation_kit.World.{SecretValue}
use secret_rotation_kit.Provider.{Host, non_empty, new_session}
use secret_rotation_kit.Provider.Vercel.{
  EnvBody, ApiCall, ApiResponse, Vercel, comment_active, value_at, is_true, captured, or_option,
  env_path, api, get_secret,
}

module _ {O : Type 0} (host : Host O) (fetch : ApiCall → Eff O ApiResponse)
    (encode : String → String) (p : Vercel) where
  -- The current value, and none for every error.
  unfoldable pub capture : String → Eff O (Option SecretValue)
  capture name =
      try_catch (get_secret host fetch encode p name none >>= (λ v. pure (some v))) (λ e. pure none)

  unfoldable pub begin_rotation : String → Eff O RotationSession
  begin_rotation name = capture name >>= (λ v.
      new_session host "vercel-rot-" "vercel-env" name
        (record { version_id = none; version_stages = none; metadata = some (captured v) }))

  abbrev pub patch_body : Option String → EnvBody
  patch_body value = record {
    key = none;
    value = value;
    type = none;
    target = none;
    comment = comment_active;
  }

  abbrev pub patch : String → Option String → Eff O (Unit {0})
  patch id value =
      api host fetch encode p "PATCH" (env_path host fetch encode p (some id)) []
        (some (patch_body value))
      >> pure tt

  abbrev complete_version : Option String → Eff O (Unit {0})
  complete_version none = pure tt
  complete_version (some id) = patch id none

  unfoldable pub complete_rotation : RotationSession → Eff O (Unit {0})
  complete_rotation session = complete_version (non_empty session.state.version_id)

  abbrev pub remove_created : String → Eff O (Unit {0})
  remove_created id =
      try_catch
        (api host fetch encode p "DELETE" (env_path host fetch encode p (some id)) [] none
          >> pure tt)
        (λ e. pure tt)

  abbrev pub restore : String → Bool → Option String → Eff O (Unit {0})
  restore id true (some previous) = patch id (some previous)
  restore id existed previous = remove_created id

  abbrev pub cancel_version : Option String → Metadata → Eff O (Unit {0})
  cancel_version none meta = pure tt
  cancel_version (some id) meta =
      restore id (is_true (Map.get meta "existed")) (value_at (Map.get meta "previousValue"))

  unfoldable pub cancel_rotation : RotationSession → Eff O (Unit {0})
  cancel_rotation session =
      let meta = spread session.state.metadata in
      cancel_version
        (non_empty
          (or_option session.state.version_id (value_at (Map.get meta "previousVersionId"))))
        meta
