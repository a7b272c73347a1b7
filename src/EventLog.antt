-- ===== src/EventLog.antt =====
-- packages/core/src/event-store.ts. Its `on`, `off` and `replay` are the code of the emitter in memory,
-- `Events`. `writeQueue` is the list of the writes that have not begun; a file is the list of its lines.
-- Logging is left out.
pub mod Order
use secret_rotation_kit.Prelude.{
  ℕ, Bool, true, false, not, ◌&&◌, ◌||◌, Option, none, some, List, [], ◌∷◌, ◌++◌, String, ◌==◌,
  string_eq, if◌then◌else◌, length, nat_beq, ltb, slice_last, map,
}
use secret_rotation_kit.Map
use secret_rotation_kit.Map.{Map}
use secret_rotation_kit.Types.{RotationEvent}
use secret_rotation_kit.Events
use secret_rotation_kit.Events.{Emitter, EventFilters, type_of, handlers_of, call_all}

-- What `persistEvent` and `persistBatch` put into the queue.
pub data WriteTask : Type 0 where
  one : RotationEvent → WriteTask
  many : List RotationEvent → WriteTask

abbrev pub events_of : WriteTask → List RotationEvent
events_of (one e) = e ∷ []
events_of (many es) = es

-- `begun` lists the events of the writes that have begun.
pub record EventStore : Type 0 where
  pub memory : Emitter
  pub write_buffer : List RotationEvent
  pub write_timer : Bool
  pub write_queue : List WriteTask
  pub begun : List RotationEvent
  pub files : Map String (List String)

abbrev pub keep_last : ℕ → List RotationEvent → List RotationEvent
keep_last m es = if ltb m (length es) then slice_last m es else es

abbrev pub remember : ℕ → RotationEvent → Emitter → Emitter
remember max_in_memory e m = record m { history = keep_last max_in_memory (m.history ++ e ∷ []) }

-- The handlers of the event are called.
abbrev pub notify : RotationEvent → Emitter → Emitter
notify e m = record m {
  calls = m.calls ++ call_all (handlers_of (Map.get m.handlers (type_of e))) e;
}

abbrev pub is_empty : List RotationEvent → Bool
is_empty [] = true
is_empty (e ∷ es) = false

unfoldable pub schedule_flush : EventStore → EventStore
schedule_flush s =
    if s.write_timer || is_empty s.write_buffer then s else record s { write_timer = true }

-- `emit`. An event that is written at once is given to its handlers when its write is over.
unfoldable pub emit : Bool → ℕ → RotationEvent → EventStore → EventStore
emit persist_on_write max_in_memory e s =
    let t = record s { memory = remember max_in_memory e s.memory } in
    if persist_on_write
    then record t { write_queue = t.write_queue ++ one e ∷ [] }
    else (let u = schedule_flush (record t { write_buffer = t.write_buffer ++ e ∷ [] }) in
        record u { memory = notify e u.memory })

-- The callback of the timer.
unfoldable pub timer_fires : EventStore → EventStore
timer_fires s = record s {
  write_buffer = [];
  write_timer = false;
  write_queue = s.write_queue ++ many s.write_buffer ∷ [];
}

unfoldable pub flush : EventStore → EventStore
flush s = if is_empty s.write_buffer then record s { write_timer = false } else record s {
  write_timer = false;
  write_buffer = [];
  write_queue = s.write_queue ++ many s.write_buffer ∷ [];
}

-- `clear` and `destroy` forget the buffer.
unfoldable pub clear : EventStore → EventStore
clear s = record s { memory = record s.memory { handlers = []; history = [] }; write_buffer = [] }

unfoldable pub destroy : EventStore → EventStore
destroy s = record (clear s) { write_timer = false }

unfoldable pub on : String → ℕ → EventStore → EventStore
on event_type h s = record s { memory = Events.on event_type h s.memory }

unfoldable pub off : String → ℕ → EventStore → EventStore
off event_type h s = record s { memory = Events.off event_type h s.memory }

unfoldable pub replay : ℕ → EventFilters → EventStore → List RotationEvent
replay from_time f s = Events.replay from_time f s.memory

abbrev lines_of : Option (List String) → List String
lines_of none = []
lines_of (some ls) = ls

module _ (stringify : RotationEvent → String) (parse : String → Option RotationEvent) where
  -- The lines of no event at all are one empty line.
  abbrev pub lines_to_write : WriteTask → List String
  lines_to_write (one e) = stringify e ∷ []
  lines_to_write (many []) = "" ∷ []
  lines_to_write (many (e ∷ es)) = map stringify (e ∷ es)

  -- `persistEventInternal` and `persistBatchInternal`: whether `mkdir` and `writeFile` succeed.
  abbrev pub append_lines :
      Bool → Bool → String → WriteTask → Map String (List String) → Map String (List String)
  append_lines made appended file task files =
      if made && appended
      then Map.set files file (lines_of (Map.get files file) ++ lines_to_write task)
      else files

  abbrev pub finish_task : Bool → WriteTask → Emitter → Emitter
  finish_task made (one e) m = if made then notify e m else m
  finish_task made (many es) m = m

  -- The next write of the queue, to the file of a date.
  abbrev pub run_task : Bool → Bool → String → List WriteTask → EventStore → EventStore
  run_task made appended file [] s = s
  run_task made appended file (task ∷ rest) s = record s {
    memory = finish_task made task s.memory;
    write_queue = rest;
    begun = s.begun ++ events_of task;
    files = append_lines made appended file task s.files;
  }

  unfoldable pub write_next : Bool → Bool → String → EventStore → EventStore
  write_next made appended file s = run_task made appended file s.write_queue s

  -- Empty lines and lines that do not parse are skipped.
  abbrev parsed_line : Option RotationEvent → List RotationEvent → List RotationEvent
  parsed_line none es = es
  parsed_line (some e) es = e ∷ es

  abbrev pub parsed_lines : List String → List RotationEvent
  parsed_lines [] = []
  parsed_lines (l ∷ ls) =
      let rest = parsed_lines ls in if l == "" then rest else parsed_line (parse l) rest

  unfoldable pub load_for_date : String → EventStore → List RotationEvent
  load_for_date file s = parsed_lines (lines_of (Map.get s.files file))
