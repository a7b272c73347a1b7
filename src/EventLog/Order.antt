-- ===== src/EventLog/Order.antt =====
-- Which events are written, and in which order.
use secret_rotation_kit.Prelude.{
  ℕ, ◌≡◌, refl, ◌∙◌, sym, ap, Bool, true, false, ◌||◌, Option, List, [], ◌∷◌, ◌++◌, String,
  append_nil, append_assoc, Bool-cases, inl, inr,
}
use secret_rotation_kit.Types.{RotationEvent}
use secret_rotation_kit.EventLog.{
  WriteTask, one, many, events_of, EventStore, is_empty, schedule_flush, emit, timer_fires, flush,
  on, off, run_task, write_next,
}

-- What happens to a store that is not cleared.
pub data Happening : Type 0 where
  emits : RotationEvent → Happening
  fires : Happening
  flushes : Happening
  listens : String → ℕ → Happening
  unlistens : String → ℕ → Happening
  writes : (made appended : Bool) (file : String) → Happening

abbrev pub emitted_by : List Happening → List RotationEvent
emitted_by [] = []
emitted_by (emits e ∷ hs) = e ∷ emitted_by hs
emitted_by (h ∷ hs) = emitted_by hs

abbrev pub queued : List WriteTask → List RotationEvent
queued [] = []
queued (t ∷ ts) = events_of t ++ queued ts

-- The events whose writes have begun, those in the queue, and those in the buffer.
unfoldable pub all_events : EventStore → List RotationEvent
all_events s = s.begun ++ (queued s.write_queue ++ s.write_buffer)

queued-append : (ts us : List WriteTask) → queued (ts ++ us) ≡ queued ts ++ queued us
queued-append [] us = refl
queued-append (t ∷ ts) us =
    ap (λ z. events_of t ++ z) (queued-append ts us)
    ∙ sym (append_assoc (events_of t) (queued ts) (queued us))

module _ (stringify : RotationEvent → String) (parse : String → Option RotationEvent)
    (persist_on_write : Bool) (max_in_memory : ℕ) where
  unfoldable pub happens : Happening → EventStore → EventStore
  happens (emits e) s = emit persist_on_write max_in_memory e s
  happens fires s = timer_fires s
  happens flushes s = flush s
  happens (listens event_type h) s = on event_type h s
  happens (unlistens event_type h) s = off event_type h s
  happens (writes made appended file) s = write_next stringify parse made appended file s

  unfoldable pub happen : List Happening → EventStore → EventStore
  happen [] s = s
  happen (h ∷ hs) s = happen hs (happens h s)

  -- Moving the buffer to the end of the queue, and the head of the queue to what has begun.
  moved :
      (begun buffer : List RotationEvent) (queue : List WriteTask)
      → begun ++ (queued (queue ++ many buffer ∷ []) ++ []) ≡ begun ++ (queued queue ++ buffer)
  moved begun buffer queue =
      ap (λ z. begun ++ z)
        (append_nil (queued (queue ++ many buffer ∷ []))
          ∙ queued-append queue (many buffer ∷ [])
          ∙ ap (λ z. queued queue ++ z) (append_nil buffer))

  added :
      (begun queue buffer : List RotationEvent) (e : RotationEvent)
      → begun ++ (queue ++ (buffer ++ e ∷ [])) ≡ (begun ++ (queue ++ buffer)) ++ e ∷ []
  added begun queue buffer e =
      ap (λ z. begun ++ z) (sym (append_assoc queue buffer (e ∷ [])))
      ∙ sym (append_assoc begun (queue ++ buffer) (e ∷ []))

  -- Where every event is written at once, nothing stands in the buffer.
  abbrev pub IsDirect : EventStore → Type 0
  IsDirect s = persist_on_write ≡ true → s.write_buffer ≡ []

  -- One happening adds its event at the end, if it is one of an event, and loses none.
  Keeps : List RotationEvent → EventStore → EventStore → Type 0
  Keeps es s t = (all_events t ≡ all_events s ++ es) × IsDirect t

  unchanged : (s t : EventStore) → all_events t ≡ all_events s → IsDirect t → Keeps [] s t
  unfolding Keeps
  unchanged s t q d = (q ∙ sym (append_nil (all_events s)), d)

  -- The two branches of `emit`.
  emits-Keeps :
      (e : RotationEvent) (s : EventStore)
      → IsDirect s
      → Keeps (e ∷ []) s (emit persist_on_write max_in_memory e s)
  unfolding Keeps emit all_events schedule_flush
  emits-Keeps e s d = elim (Bool-cases persist_on_write) [
    | inl p ↦ (rw (emit, p) (directly (d p)), λ q. rw (emit, p) (d p))
    | inr p ↦ (buffered p, λ q. absurd (let r = sym q ∙ p in cc))
  ]
    where
      directly :
          s.write_buffer ≡ []
          → s.begun ++ (queued (s.write_queue ++ one e ∷ []) ++ s.write_buffer)
            ≡ (s.begun ++ (queued s.write_queue ++ s.write_buffer)) ++ e ∷ []
      directly n =
          rw
            (
              n,
              queued-append s.write_queue (one e ∷ []),
              append_nil (queued s.write_queue),
              append_nil (queued s.write_queue ++ e ∷ []),
            )
            (sym (append_assoc s.begun (queued s.write_queue) (e ∷ [])))

      buffered :
          persist_on_write ≡ false
          → all_events (emit persist_on_write max_in_memory e s) ≡ all_events s ++ e ∷ []
      buffered p = elim (Bool-cases (s.write_timer || is_empty (s.write_buffer ++ e ∷ []))) [
        | inl t ↦
            rw (emit, p, schedule_flush, t) (added s.begun (queued s.write_queue) s.write_buffer e)
        | inr t ↦
            rw (emit, p, schedule_flush, t) (added s.begun (queued s.write_queue) s.write_buffer e)
      ]

  fires-Keeps : (s : EventStore) → Keeps [] s (timer_fires s)
  unfolding timer_fires all_events
  fires-Keeps s =
      unchanged s (timer_fires s) (moved s.begun s.write_buffer s.write_queue) (λ p. refl)

  flushes-Keeps : (s : EventStore) → IsDirect s → Keeps [] s (flush s)
  unfolding flush all_events timer_fires
  flushes-Keeps s d = elim (Bool-cases (is_empty s.write_buffer)) [
    | inl e ↦ rw (flush, e) (unchanged s (record s { write_timer = false }) refl d)
    | inr e ↦
        rw (flush, e)
          (unchanged s (timer_fires s) (moved s.begun s.write_buffer s.write_queue) (λ p. refl))
  ]

  runs-Keeps :
      (made appended : Bool) (file : String) (s : EventStore)
      → IsDirect s
      → (ts : List WriteTask) → s.write_queue ≡ ts
      → Keeps [] s (run_task stringify parse made appended file ts s)
  unfolding all_events
  runs-Keeps made appended file s d [] q = unchanged s s refl d
  runs-Keeps made appended file s d (t ∷ ts) q =
      unchanged s (run_task stringify parse made appended file (t ∷ ts) s) begins d
    where
      begins :
          (s.begun ++ events_of t) ++ (queued ts ++ s.write_buffer)
          ≡ s.begun ++ (queued s.write_queue ++ s.write_buffer)
      begins = rw (q) (
          append_assoc s.begun (events_of t) (queued ts ++ s.write_buffer)
          ∙ ap (λ z. s.begun ++ z) (sym (append_assoc (events_of t) (queued ts) s.write_buffer)))

  happens-Keeps :
      (h : Happening) (s : EventStore) → IsDirect s → Keeps (emitted_by (h ∷ [])) s (happens h s)
  unfolding happens write_next on off all_events
  happens-Keeps (emits e) s d = emits-Keeps e s d
  happens-Keeps fires s d = fires-Keeps s
  happens-Keeps flushes s d = flushes-Keeps s d
  happens-Keeps (listens event_type h) s d = unchanged s (on event_type h s) refl d
  happens-Keeps (unlistens event_type h) s d = unchanged s (off event_type h s) refl d
  happens-Keeps (writes made appended file) s d =
      runs-Keeps made appended file s d s.write_queue refl

  emitted_by-cons :
      (h : Happening) (hs : List Happening)
      → emitted_by (h ∷ []) ++ emitted_by hs ≡ emitted_by (h ∷ hs)
  emitted_by-cons (emits e) hs = refl
  emitted_by-cons fires hs = refl
  emitted_by-cons flushes hs = refl
  emitted_by-cons (listens event_type h) hs = refl
  emitted_by-cons (unlistens event_type h) hs = refl
  emitted_by-cons (writes made appended file) hs = refl

  -- Whatever emits, timers, flushes, subscriptions and writes follow each other, in whatever order, and whether or not the
  -- file system lets a write through: the events whose writes have begun, those in the queue of the writes and
  -- those in the buffer are, in this order, those there were at the start and each emitted event once, in the
  -- order of the emits. The buffer is empty at the start where events are written at once.
  pub happen_keeps_order :
      (hs : List Happening) (s : EventStore)
      → IsDirect s
      → all_events (happen hs s) ≡ all_events s ++ emitted_by hs
  unfolding happen Keeps
  happen_keeps_order [] s d = sym (append_nil (all_events s))
  happen_keeps_order (h ∷ hs) s d =
      let k = happens-Keeps h s d in
      happen_keeps_order hs (happens h s) k.1
      ∙ ap (λ z. z ++ emitted_by hs) k.0
      ∙ append_assoc (all_events s) (emitted_by (h ∷ [])) (emitted_by hs)
      ∙ ap (λ z. all_events s ++ z) (emitted_by-cons h hs)
