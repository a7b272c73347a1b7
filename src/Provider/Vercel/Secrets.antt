-- ===== src/Provider/Vercel/Secrets.antt =====
-- packages/provider-vercel/src/provider.ts: the values, the versions and the health of a project.
use secret_rotation_kit.Prelude.{
  ◌<>◌, false, Option, none, some, List, [], ◌∷◌, String, string_eq, filter, head?, map,
}
use secret_rotation_kit.Effect.{plain_error, Eff, returned, thrown, ◌>>=◌, ◌>>◌, pure, throw}
use secret_rotation_kit.World.{SecretValue, PropagationStage}
use secret_rotation_kit.Validation.{joined}
use secret_rotation_kit.Provider.{
  SecretVersion, ProviderHealth, unhealthy, Host, non_empty, or_now, probed,
}
use secret_rotation_kit.Provider.Vercel.{
  VercelEnv, CreatedEnv, Json, ApiCall, ApiResponse, Vercel, comment_active, normalized,
  comment_for, env_path, api, list_envs, is_env, find_env, to_secret_value, get_secret, env_body,
  one_created, all_created, created_response,
}

module _ {O : Type 0} (host : Host O) (fetch : ApiCall → Eff O ApiResponse)
    (encode : String → String) (p : Vercel) where
  -- `assertNoFailures`, and the created variable.
  abbrev pub first_created : CreatedEnv → Option VercelEnv
  first_created (one_created e) = some e
  first_created (all_created es) = head? es

  abbrev pub created_of : String → Option Json → Eff O (Option VercelEnv)
  created_of name none =
      throw (plain_error "Cannot read properties of undefined (reading 'failed')")
  created_of name (some (created_response c [])) = pure (first_created c)
  created_of name (some (created_response c (m ∷ ms))) =
      throw (plain_error ("Vercel failed to store \"" <> name <> "\": " <> joined (m ∷ ms)))
  created_of name (some j) = pure none

  unfoldable pub create_secret : String → String → Eff O (Unit {0})
  create_secret name value =
      api host fetch encode p "POST" (env_path host fetch encode p none) []
        (some (env_body host fetch encode p name value comment_active))
      >>= created_of name
      >> pure tt

  abbrev pub stored_value : String → String → Option VercelEnv → Eff O SecretValue
  stored_value name value none s =
      thrown (plain_error ("Vercel did not return the stored env var for \"" <> name <> "\"")) s
  stored_value name value (some e) s = returned (to_secret_value host fetch encode p e value s) s

  unfoldable pub store_secret_value : String → String → PropagationStage → Eff O SecretValue
  store_secret_value name value stage =
      api host fetch encode p "POST" (env_path host fetch encode p none) (("upsert", "true") ∷ [])
        (some (env_body host fetch encode p name value (comment_for stage)))
      >>= created_of name
      >>= stored_value name value

  abbrev delete_found : Option VercelEnv → Eff O (Unit {0})
  delete_found none = pure tt
  delete_found (some e) =
      api host fetch encode p "DELETE" (env_path host fetch encode p (non_empty (some e.id))) []
        none
      >> pure tt

  unfoldable pub delete_secret : String → Eff O (Unit {0})
  delete_secret name = find_env host fetch encode p name none >>= delete_found

  abbrev version_of : O → VercelEnv → SecretVersion
  version_of s e = record {
    version_id = e.id;
    created_at = or_now e.created_at (host.clock s);
    stages = some (normalized e.target);
  }

  unfoldable pub list_versions : String → Eff O (List SecretVersion)
  list_versions name = list_envs host fetch encode p false >>= (λ es s.
      returned (map (version_of s) (filter (is_env host fetch encode p name none) es)) s)

  unfoldable pub get_version : String → String → Eff O SecretValue
  get_version name version = get_secret host fetch encode p name (some version)

  unfoldable pub delete_version : String → Eff O (Unit {0})
  delete_version version =
      api host fetch encode p "DELETE" (env_path host fetch encode p (non_empty (some version))) []
        none
      >> pure tt

  unfoldable pub health : Eff O ProviderHealth
  health s =
      probed host (λ e elapsed. (unhealthy, elapsed, some e.message)) (host.clock s)
        (list_envs host fetch encode p false s)
