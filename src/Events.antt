-- ===== src/Events.antt =====
-- packages/core/src/in-memory-event-emitter.ts. A handler is known by a number; what a handler does,
-- and whether it fails, does not come back to the emitter. An event type is its text.
pub mod History
use secret_rotation_kit.Prelude.{
  ℕ, ◌-◌, Bool, true, false, not, ◌&&◌, ◌||◌, Option, none, some, List, [], ◌∷◌, ◌++◌, String, ◌==◌,
  string_eq, if◌then◌else◌, filter, length, leb, ltb, nat_beq, drop,
}
use secret_rotation_kit.Map
use secret_rotation_kit.Map.{Map}
use secret_rotation_kit.Types.{
  RotationEvent, key_generated, key_propagated, key_verified, key_activated, key_revoked,
  rotation_failed,
}

-- The fields `type`, `secretName` and `timestamp` of an event.
abbrev pub type_of : RotationEvent → String
type_of (key_generated e) = "key_generated"
type_of (key_propagated e) = "key_propagated"
type_of (key_verified e) = "key_verified"
type_of (key_activated e) = "key_activated"
type_of (key_revoked e) = "key_revoked"
type_of (rotation_failed e) = "rotation_failed"

abbrev pub secret_of : RotationEvent → String
secret_of (key_generated e) = e.secret_name
secret_of (key_propagated e) = e.secret_name
secret_of (key_verified e) = e.secret_name
secret_of (key_activated e) = e.secret_name
secret_of (key_revoked e) = e.secret_name
secret_of (rotation_failed e) = e.secret_name

abbrev pub time_of : RotationEvent → ℕ
time_of (key_generated e) = e.timestamp
time_of (key_propagated e) = e.timestamp
time_of (key_verified e) = e.timestamp
time_of (key_activated e) = e.timestamp
time_of (key_revoked e) = e.timestamp
time_of (rotation_failed e) = e.timestamp

pub data Severity : Type 0 where
  debug info warn error : Severity

-- No replay reads the severity.
pub record EventFilters : Type 0 where
  pub event_type : Option String
  pub secret_name : Option String
  pub severity : Option Severity

-- `calls` lists the calls of handlers with their events.
pub record Emitter : Type 0 where
  pub handlers : Map String (List ℕ)
  pub history : List RotationEvent
  pub calls : List (ℕ × RotationEvent)

-- `splice(0, length - maxHistory)` where the history is longer.
abbrev pub bounded : ℕ → List RotationEvent → List RotationEvent
bounded m xs = if ltb m (length xs) then drop (length xs - m) xs else xs

abbrev pub handlers_of : Option (List ℕ) → List ℕ
handlers_of none = []
handlers_of (some hs) = hs

abbrev pub call_all : List ℕ → RotationEvent → List (ℕ × RotationEvent)
call_all [] e = []
call_all (h ∷ hs) e = (h, e) ∷ call_all hs e

unfoldable pub emit : ℕ → RotationEvent → Emitter → Emitter
emit max_history e s = record s {
  history = bounded max_history (s.history ++ e ∷ []);
  calls = s.calls ++ call_all (handlers_of (Map.get s.handlers (type_of e))) e;
}

abbrev has_handler : List ℕ → ℕ → Bool
has_handler [] h = false
has_handler (g ∷ gs) h = let rest = has_handler gs h in nat_beq g h || rest

abbrev add_handler : ℕ → List ℕ → List ℕ
add_handler h hs = if has_handler hs h then hs else hs ++ h ∷ []

unfoldable pub on : String → ℕ → Emitter → Emitter
on event_type h s = record s {
  handlers =
      Map.set s.handlers event_type (add_handler h (handlers_of (Map.get s.handlers event_type)));
}

abbrev off_found : String → ℕ → Option (List ℕ) → Emitter → Emitter
off_found event_type h none s = s
off_found event_type h (some hs) s = record s {
  handlers = Map.set s.handlers event_type (filter (λ g. not (nat_beq g h)) hs);
}

unfoldable pub off : String → ℕ → Emitter → Emitter
off event_type h s = off_found event_type h (Map.get s.handlers event_type) s

-- An absent filter and the empty text let every event pass.
abbrev pub passes : Option String → String → Bool
passes none x = true
passes (some f) x = f == "" || x == f

abbrev pub passes_all : ℕ → EventFilters → RotationEvent → Bool
passes_all from_time f e =
    leb from_time (time_of e)
    && (passes f.event_type (type_of e) && passes f.secret_name (secret_of e))

unfoldable pub replay : ℕ → EventFilters → Emitter → List RotationEvent
replay from_time f s = filter (passes_all from_time f) s.history

unfoldable pub clear_emitter : Emitter → Emitter
clear_emitter s = record s { handlers = []; history = [] }
