-- ===== src/Provider.antt =====
-- packages/types/src/provider.ts: what providers report, and the surroundings of an adapter.
pub mod Vercel
pub mod Aws
pub mod Gcp
pub mod Vault
use secret_rotation_kit.Prelude.{
  ℕ, ◌-◌, ◌<>◌, Bool, true, false, Option, none, some, List, [], ◌∷◌, String, if◌then◌else◌,
  nat_beq,
}
use secret_rotation_kit.Effect.{Error, Eff, Outcome, returned, thrown, ◌>>=◌, pure}
use secret_rotation_kit.Types.{RotationSession, ProviderState}

pub record SecretVersion : Type 0 where
  pub version_id : String
  pub created_at : ℕ
  pub stages : Option (List String)

pub data HealthStatus : Type 0 where
  healthy degraded unhealthy : HealthStatus

pub record ProviderHealth : Type 0 where
  pub status : HealthStatus
  pub latency : ℕ
  pub last_checked : ℕ
  pub message : Option String

pub record ProviderCapabilities : Type 0 where
  pub supports_rotation : Bool
  pub supports_versioning : Bool
  pub supports_labels : Bool
  pub max_versions : Option ℕ

-- The clock, `randomBytes(16).toString('hex')`, and the printing of numbers, in base 36 and in base 10.
pub record Host (O : Type 0) : Type 0 where
  pub clock : O → ℕ
  pub random_hex : Eff O String
  pub base36 : ℕ → String
  pub print : ℕ → String

-- `if (text)`, for a text that may be missing.
abbrev pub non_empty : Option String → Option String
non_empty none = none
non_empty (some String.[]) = none
non_empty (some s) = some s

abbrev pub or_text : Option String → String → String
or_text none d = d
or_text (some s) d = s

abbrev pub or_now : Option ℕ → ℕ → ℕ
or_now none now = now
or_now (some t) now = t

-- `includes` on the codes of texts.
abbrev starts : List ℕ → List ℕ → Bool
starts [] cs = true
starts (d ∷ ds) [] = false
starts (d ∷ ds) (c ∷ cs) = let rest = starts ds cs in if nat_beq d c then rest else false

abbrev pub contains : List ℕ → List ℕ → Bool
contains ds [] = starts ds []
contains ds (c ∷ cs) = let rest = contains ds cs in if starts ds (c ∷ cs) then true else rest

module _ {O : Type 0} (host : Host O) where
  -- A session that begins now, under a new id with the prefix of the provider.
  unfoldable pub new_session : String → String → String → ProviderState → Eff O RotationSession
  new_session prefix provider name state s =
      (host.random_hex >>= (λ hex t.
          returned
            (record {
              session_id = prefix <> host.base36 (host.clock s) <> "-" <> hex;
              secret_name = name;
              provider = provider;
              state = state;
              started_at = host.clock t;
            })
            t))
        s

  -- A call made to see whether the service answers.
  abbrev pub probed :
      {A : Type 0}
      → (Error → ℕ → HealthStatus × ℕ × Option String)
      → ℕ
      → Outcome O A
      → Outcome O ProviderHealth
  probed judge start (returned a t) =
      returned
        (record {
          status = healthy;
          latency = host.clock t - start;
          last_checked = host.clock t;
          message = none;
        })
        t
  probed judge start (thrown e t) =
      let (status, latency, message) = judge e (host.clock t - start) in
      returned
        (record {
          status = status;
          latency = latency;
          last_checked = host.clock t;
          message = message;
        })
        t
