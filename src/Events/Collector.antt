-- ===== src/Events/Collector.antt =====
-- internal/server/events.go: the callback of StartEventCollector, the queue between it and
-- flushEventsLoop, and the batches that the loop writes. The two goroutines meet in the queue only,
-- so a run is a sequence of their steps.
pub mod Flush
use opencode_backend.Base.{
  ℕ, zero, suc, ◌+◌, ◌-◌, ◌*◌, Bool, true, false, Option, none, some, List, [], ◌∷◌, ◌++◌,
  if◌then◌else◌, ltb, leb, length, ◌==◌, ◌&&◌, ◌||◌, not,
}
use opencode_backend.Automation.Text.{Text, codes, trim_space}
use opencode_backend.Store.Db.{second}
use opencode_backend.Stt.Runes.{equal_runes}
use opencode_backend.Records.Site.{Site, SessionEvent}
use opencode_backend.Records.Events.{
  insert_events, set_sessions_unread, delete_events_older_than, holds,
}
use opencode_backend.Events.Frames.{
  Frame, parse_session_event, is_high_frequency_event, is_message_activity_event,
  is_unread_trigger_event,
}

abbrev pub event_queue_size : ℕ
event_queue_size = 512

abbrev pub event_flush_batch : ℕ
event_flush_batch = 100

-- `pushed` holds the events that went to the hub, the last one at the end.
pub record Collector : Type 0 where
  pub site : Site
  pub queue : List SessionEvent
  pub batch : List SessionEvent
  pub statuses : List (Text × Text)
  pub activity : List (Text × ℕ)
  pub pushed : List SessionEvent

-- `sync.Map.Store`
unfoldable pub store_entry {ℓ} : {A : Type ℓ} → Text → A → List (Text × A) → List (Text × A)
unfolding equal_runes
store_entry k v [] = (k, v) ∷ []
store_entry k v ((q, u) ∷ rows) =
    let rest = store_entry k v rows in if equal_runes q k then (k, v) ∷ rows else (q, u) ∷ rest

-- What a status event says; `status_in` decodes the path payload.properties.status.type.
unfoldable pub parse_status_from_payload : (Text → Option Text) → Text → Text
unfolding trim_space
parse_status_from_payload status_in payload = elim (status_in payload) [
  | none ↦ []
  | some t ↦ trim_space t
]

abbrev pub store_status : Text → Text → List (Text × Text) → List (Text × Text)
store_status id [] rows = rows
store_status id (c ∷ cs) rows = store_entry id (c ∷ cs) rows

unfoldable pub note_status :
    (Text → Option Text) → SessionEvent → List (Text × Text) → List (Text × Text)
unfolding parse_status_from_payload store_entry equal_runes
note_status status_in e rows =
    if equal_runes e.event_type (codes "session.status")
    then store_status e.session_id (parse_status_from_payload status_in e.payload) rows
    else if equal_runes e.event_type (codes "session.idle")
    then store_entry e.session_id (codes "idle") rows
    else rows

unfoldable pub note_activity : SessionEvent → ℕ → List (Text × ℕ) → List (Text × ℕ)
unfolding is_message_activity_event store_entry
note_activity e now rows =
    if is_message_activity_event e.event_type then store_entry e.session_id now rows else rows

-- The `select` with a `default`: a full queue drops the event.
unfoldable pub enqueue : SessionEvent → List SessionEvent → List SessionEvent
enqueue e queue = if ltb (length queue) event_queue_size then queue ++ e ∷ [] else queue

unfoldable pub on_event : (Text → Option Text) → ℕ → SessionEvent → Collector → Collector
unfolding note_status note_activity enqueue is_high_frequency_event
on_event status_in now e c = record c {
  statuses = note_status status_in e c.statuses;
  activity = note_activity e now c.activity;
  queue = enqueue e c.queue;
  pushed = if is_high_frequency_event e.event_type then c.pushed else c.pushed ++ e ∷ [];
}

-- The callback, on one frame of the stream.
unfoldable pub on_frame :
    (Text → Option Frame) → (Text → Option Text) → ℕ → Text → Collector → Collector
unfolding parse_session_event on_event
on_frame decode status_in now raw c = elim (parse_session_event decode now raw) [
  | none ↦ c
  | some e ↦ on_event status_in now e c
]

-- `unreadIDs`, with what `seen` holds.
unfoldable pub unread_ids : List Text → List SessionEvent → List Text
unfolding is_unread_trigger_event equal_runes
unread_ids seen [] = []
unread_ids seen (e ∷ es) =
    elim ((is_unread_trigger_event e.event_type && not (equal_runes e.session_id []))
      && not (holds e.session_id seen)) [
        | true ↦ e.session_id ∷ unread_ids (e.session_id ∷ seen) es
        | false ↦ unread_ids seen es
      ]

-- A failed statement is logged and passed over.
unfoldable pub write_batch : List SessionEvent → Site → Site
unfolding insert_events set_sessions_unread unread_ids
write_batch batch s = (set_sessions_unread (unread_ids [] batch) (insert_events batch s).1).1

unfoldable pub flush_batch : List SessionEvent → Collector → Collector
unfolding write_batch
flush_batch [] c = c
flush_batch (e ∷ es) c = record c { site = write_batch (e ∷ es) c.site; batch = [] }

unfoldable pub flush : Collector → Collector
unfolding flush_batch
flush c = flush_batch c.batch c

unfoldable pub flush_if_full : Collector → Collector
unfolding flush
flush_if_full c = if leb event_flush_batch (length c.batch) then flush c else c

unfoldable pub take_from : List SessionEvent → Collector → Collector
unfolding flush_if_full
take_from [] c = c
take_from (e ∷ es) c = flush_if_full (record c { queue = es; batch = c.batch ++ e ∷ [] })

-- `case se := <-queue` of flushEventsLoop.
unfoldable pub take_one : Collector → Collector
unfolding take_from
take_one c = take_from c.queue c

pub data Step : Type 0 where
  frame : Text → Step
  taken : Step
  ticked : Step

-- A step at a time.
unfoldable pub step_at :
    (Text → Option Frame) → (Text → Option Text) → ℕ → Step → Collector → Collector
unfolding on_frame take_one flush
step_at decode status_in now (frame raw) c = on_frame decode status_in now raw c
step_at decode status_in now taken c = take_one c
step_at decode status_in now ticked c = flush c

abbrev pub clocked : ℕ → Collector → Collector
clocked now c = record c { site = record c.site { now = now } }

unfoldable pub run_steps :
    (Text → Option Frame) → (Text → Option Text) → List (ℕ × Step) → Collector → Collector
unfolding step_at
run_steps decode status_in [] c = c
run_steps decode status_in ((now, st) ∷ steps) c =
    run_steps decode status_in steps (step_at decode status_in now st (clocked now c))

-- `case <-ctx.Done()` when no frame arrives any more: the rest of the queue, an event a turn, and the
-- last flush.
unfoldable pub drain : List SessionEvent → Collector → Collector
unfolding flush_if_full flush
drain [] c = flush (record c { queue = [] })
drain (e ∷ es) c = drain es (flush_if_full (record c { queue = es; batch = c.batch ++ e ∷ [] }))

-- What may happen once the context is done: the callback still gets a frame that the stream has
-- buffered, or flushEventsLoop makes a turn of its inner loop.
pub data LateStep : Type 0 where
  late_frame : Text → LateStep
  turn : LateStep

-- flushEventsLoop has returned: frames still go to the queue, which nobody reads.
unfoldable pub after_return :
    (Text → Option Frame) → (Text → Option Text) → List (ℕ × LateStep) → Collector → Collector
unfolding on_frame
after_return decode status_in [] c = c
after_return decode status_in ((now, late_frame raw) ∷ steps) c =
    after_return decode status_in steps (on_frame decode status_in now raw (clocked now c))
after_return decode status_in ((now, turn) ∷ steps) c = after_return decode status_in steps c

-- The inner loop: a turn takes an event, or finds the queue empty, flushes and returns. Where
-- `steps` ends, the loop goes on with no frame in between.
unfoldable pub drain_with :
    (Text → Option Frame) → (Text → Option Text) → List (ℕ × LateStep) → Collector → Collector
unfolding on_frame take_from flush drain after_return
drain_with decode status_in [] c = drain c.queue c
drain_with decode status_in ((now, late_frame raw) ∷ steps) c =
    drain_with decode status_in steps (on_frame decode status_in now raw (clocked now c))
drain_with decode status_in ((now, turn) ∷ steps) c = elim c.queue [
  | [] ↦ after_return decode status_in steps (flush (clocked now c))
  | e ∷ es ↦ drain_with decode status_in steps (take_from (e ∷ es) (clocked now c))
]

-- A whole run: the steps until the context is done, then the late ones.
unfoldable pub collect :
    (Text → Option Frame)
    → (Text → Option Text)
    → List (ℕ × Step)
    → List (ℕ × LateStep)
    → Collector
    → Collector
unfolding run_steps drain_with
collect decode status_in steps late c =
    drain_with decode status_in late (run_steps decode status_in steps c)

-- The pause before the next connection, in nanoseconds, after one of `backoff`.
unfoldable pub next_backoff : ℕ → ℕ
next_backoff backoff = if ltb backoff (30 * second) then backoff * 2 else second

abbrev pub event_retention : ℕ
event_retention = 7 * 24 * 3600 * second

unfoldable pub cleanup_events : Site → Site
unfolding delete_events_older_than
cleanup_events s = (delete_events_older_than (s.now - event_retention) s).1
