-- ===== src/Lock.antt =====
-- packages/core/src/per-key-lock.ts. A waiting call is known by a number; to resolve its promise is to
-- grant it the lock.
pub mod Fairness
use secret_rotation_kit.Prelude.{
  ℕ, Option, none, some, List, [], ◌∷◌, ◌++◌, String, string_eq, if◌then◌else◌, length, nat_beq,
  take,
}
use secret_rotation_kit.Map
use secret_rotation_kit.Map.{Map}

abbrev pub Queues : Type 0
Queues = Map String (List ℕ)

abbrev pub queue_of : Option (List ℕ) → List ℕ
queue_of none = []
queue_of (some q) = q

-- The queues, and the calls that are granted the lock now.
unfoldable pub acquire : String → ℕ → Queues → Queues × List ℕ
acquire name i s =
    let queue = queue_of (Map.get s name) ++ i ∷ [] in
    (Map.set s name queue, if nat_beq (length queue) 1 then i ∷ [] else [])

-- `queue.shift()`.
abbrev pub shift : List ℕ → List ℕ
shift [] = []
shift (i ∷ rest) = rest

abbrev pub release_found : String → Option (List ℕ) → Queues → Queues × List ℕ
release_found name none s = (s, [])
release_found name (some queue) s = (Map.set s name (shift queue), take 1 (shift queue))

unfoldable pub release : String → Queues → Queues × List ℕ
release name s = release_found name (Map.get s name) s
