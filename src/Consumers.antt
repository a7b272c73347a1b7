-- ===== src/Consumers.antt =====
-- packages/core/src/consumer-registry.ts. A set is a list without repetitions; the getters return
-- the maps' entries. Logging is left out.
pub mod Health
use secret_rotation_kit.Prelude.{
  ℕ, zero, suc, ◌+◌, ◌*◌, Bool, true, false, not, Option, none, some, List, [], ◌∷◌, ◌++◌, String,
  ◌==◌, string_eq, if◌then◌else◌, filter, length, leb, ltb, nat_beq, map,
}
use secret_rotation_kit.Map
use secret_rotation_kit.Map.{Map}
use secret_rotation_kit.Verification.{Consumer}

pub data HealthState : Type 0 where
  healthy degraded unhealthy : HealthState

pub record ConsumerHealthStatus : Type 0 where
  pub consumer_id : String
  pub status : HealthState
  pub last_check : ℕ
  pub last_healthy : ℕ
  pub failures : ℕ
  pub latency_ms : ℕ

-- packages/types/src/interfaces.ts.
pub record ConsumerGroup : Type 0 where
  pub name : String
  pub members : List Consumer
  pub health : HealthState

pub record ConsumerRegistry : Type 0 where
  pub consumers : Map String Consumer
  pub health : Map String ConsumerHealthStatus
  pub groups : Map String (List String)

-- The options that are given or have defaults.
pub record RegistryOptions : Type 0 where
  pub max_failures : ℕ
  pub unhealthy_retry_interval_ms : ℕ

abbrev pub empty_registry : ConsumerRegistry
empty_registry = record { consumers = []; health = []; groups = [] }

abbrev includes : List String → String → Bool
includes [] x = false
includes (y ∷ ys) x = let rest = includes ys x in if y == x then true else rest

-- `Set.prototype.add` and `delete`.
abbrev add_member : String → List String → List String
add_member x xs = if includes xs x then xs else xs ++ x ∷ []

abbrev remove_member : String → List String → List String
remove_member x xs = filter (λ y. not (y == x)) xs

abbrev members_of : Option (List String) → List String
members_of none = []
members_of (some xs) = xs

abbrev join_groups : String → List String → Map String (List String) → Map String (List String)
join_groups id [] groups = groups
join_groups id (g ∷ gs) groups =
    join_groups id gs (Map.set groups g (add_member id (members_of (Map.get groups g))))

-- Two readings of the clock.
abbrev pub new_health : String → ℕ → ℕ → ConsumerHealthStatus
new_health id t₁ t₂ = record {
  consumer_id = id;
  status = healthy;
  last_check = t₁;
  last_healthy = t₂;
  failures = 0;
  latency_ms = 0;
}

unfoldable pub register : Consumer → ℕ → ℕ → ConsumerRegistry → ConsumerRegistry
register c t₁ t₂ r = record {
  consumers = Map.set r.consumers c.id c;
  groups = join_groups c.id (members_of c.groups) r.groups;
  health = Map.set r.health c.id (new_health c.id t₁ t₂);
}

-- The member leaves each group, and a group left empty is deleted.
abbrev leave_groups : String → Map String (List String) → Map String (List String)
leave_groups id groups =
    filter (λ e. not (nat_beq (length e.1) 0)) (map (λ e. (e.0, remove_member id e.1)) groups)

unfoldable pub deregister : String → ConsumerRegistry → ConsumerRegistry
deregister id r = record {
  consumers = Map.delete r.consumers id;
  health = Map.delete r.health id;
  groups = leave_groups id r.groups;
}

abbrev succeeded : ConsumerHealthStatus → ℕ → ℕ → ℕ → ConsumerHealthStatus
succeeded h latency t₁ t₂ = record h {
  status = healthy;
  last_check = t₁;
  last_healthy = t₂;
  failures = 0;
  latency_ms = latency;
}

abbrev pub failed_check : RegistryOptions → ConsumerHealthStatus → ℕ → ConsumerHealthStatus
failed_check o h t = record h {
  failures = suc h.failures;
  last_check = t;
  status = if leb o.max_failures (suc h.failures) then unhealthy else degraded;
}

-- The entry of the map, changed in place if it is there.
abbrev change_health :
    (ConsumerHealthStatus → ConsumerHealthStatus)
    → String
    → Option ConsumerHealthStatus
    → ConsumerRegistry
    → ConsumerRegistry
change_health f id none r = r
change_health f id (some h) r = record r { health = Map.set r.health id (f h) }

unfoldable pub record_success : String → ℕ → ℕ → ℕ → ConsumerRegistry → ConsumerRegistry
record_success id latency t₁ t₂ r =
    change_health (λ h. succeeded h latency t₁ t₂) id (Map.get r.health id) r

unfoldable pub record_failure : RegistryOptions → String → ℕ → ConsumerRegistry → ConsumerRegistry
record_failure o id t r = change_health (λ h. failed_check o h t) id (Map.get r.health id) r

-- Whether a consumer is worth polling.
abbrev pub is_worth : RegistryOptions → ℕ → Option ConsumerHealthStatus → Bool
is_worth o now none = true
is_worth o now (some h) = elim h.status [
  | unhealthy ↦ leb (h.last_healthy + o.unhealthy_retry_interval_ms) now
  | _ ↦ true
]

abbrev all_consumers : ConsumerRegistry → List Consumer
all_consumers r = map (λ e. e.1) r.consumers

unfoldable pub get_consumers : RegistryOptions → ConsumerRegistry → String → ℕ → List Consumer
get_consumers o r name now =
    filter (λ c. is_worth o now (Map.get r.health c.id))
      (filter (λ c. includes c.interested_secrets name) (all_consumers r))

abbrev status_of : Option ConsumerHealthStatus → HealthState
status_of none = healthy
status_of (some h) = h.status

abbrev is_unhealthy : HealthState → Bool
is_unhealthy unhealthy = true
is_unhealthy _ = false

abbrev is_degraded : HealthState → Bool
is_degraded degraded = true
is_degraded _ = false

abbrev pub health_of_all : List HealthState → HealthState
health_of_all statuses =
    let n = length statuses in
    let bad = length (filter is_unhealthy statuses) in
    let weak = length (filter is_degraded statuses) in
    if nat_beq n 0
    then healthy
    else if nat_beq bad n
    then unhealthy
    else if ltb 0 bad
    then degraded
    else (if ltb n (2 * weak) then degraded else healthy)

unfoldable pub calculate_group_health : ConsumerRegistry → List Consumer → HealthState
calculate_group_health r members =
    health_of_all (map (λ c. status_of (Map.get r.health c.id)) members)

-- `new Map(consumers.map((c) => [c.id, c]))`.
abbrev by_id : Map String Consumer → List Consumer → Map String Consumer
by_id m [] = m
by_id m (c ∷ cs) = by_id (Map.set m c.id c) cs

abbrev found_members : Map String Consumer → List String → List Consumer
found_members m [] = []
found_members m (id ∷ ids) =
    let rest = found_members m ids in elim (Map.get m id) [ none ↦ rest | some c ↦ c ∷ rest ]

abbrev groups_in :
    ConsumerRegistry → Map String Consumer → Map String (List String) → List ConsumerGroup
groups_in r m [] = []
groups_in r m ((name, ids) ∷ groups) =
    let rest = groups_in r m groups in
    let members = found_members m ids in
    if nat_beq (length members) 0
    then rest
    else record { name = name; members = members; health = calculate_group_health r members } ∷ rest

unfoldable pub get_consumer_groups :
    RegistryOptions → ConsumerRegistry → String → ℕ → List ConsumerGroup
get_consumer_groups o r name now = groups_in r (by_id [] (get_consumers o r name now)) r.groups

unfoldable pub clear_registry : ConsumerRegistry → ConsumerRegistry
clear_registry r = empty_registry
