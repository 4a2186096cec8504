-- ===== src/Events/Conserves.antt =====
-- internal/server/events.go: between the stream and the table no event is lost but by a full queue,
-- none is written twice, and their order stays.
use opencode_backend.Base.{
  ℕ, Option, none, some, List, [], ◌∷◌, ◌++◌, map, append-nil, append_assoc, ◌≡◌, refl, sym, ap,
  ◌∙◌, Bool-cases, Option-cases, inl, inr, if◌then◌else◌, ltb, length,
}
use opencode_backend.Automation.Text.{Text}
use opencode_backend.Records.Site.{Site, SessionEvent}
use opencode_backend.Events.Frames.{Frame, parse_session_event}
use opencode_backend.Events.Collector.{
  turn, late_frame, LateStep, after_return, drain_with, late_frame, drain_with, after_return,
  LateStep, Collector, Step, frame, taken, ticked, on_event, on_frame, enqueue, take_from, take_one,
  flush, flush_if_full, step_at, run_steps, drain, collect, clocked, event_queue_size,
}
use opencode_backend.Events.Collector.Flush.{
  flush_if_full-queue, held-done, unnumbered, as_row, held, IsCalm, map-append, flush-held,
  flush_if_full-held, flush-queue,
}

-- The event of a frame that a step puts in the queue, if any: the queue has room for it.
unfoldable pub accepted : (Text → Option Frame) → ℕ → Step → Collector → List SessionEvent
accepted decode now (frame raw) c = elim (parse_session_event decode now raw) [
  | none ↦ []
  | some e ↦ if ltb (length c.queue) event_queue_size then e ∷ [] else []
]
accepted decode now taken c = []
accepted decode now ticked c = []

unfoldable pub all_accepted :
    (Text → Option Frame) → (Text → Option Text) → List (ℕ × Step) → Collector → List SessionEvent
unfolding accepted
all_accepted decode status_in [] c = []
all_accepted decode status_in ((now, st) ∷ steps) c =
    accepted decode now st (clocked now c)
    ++ all_accepted decode status_in steps (step_at decode status_in now st (clocked now c))

moved-held :
    (e : SessionEvent) (es : List SessionEvent) (c : Collector)
    → c.queue ≡ e ∷ es
    → held (record c { queue = es; batch = c.batch ++ e ∷ [] }) ≡ held c
unfolding held
moved-held e es c same =
    ap (λ r. map unnumbered c.site.events ++ map as_row r)
      (append_assoc c.batch (e ∷ []) es ∙ ap (λ q. c.batch ++ q) (sym same))

take_from-held :
    (q : List SessionEvent) (c : Collector)
    → c.queue ≡ q
    → IsCalm c
    → (held (take_from q c) ≡ held c) × IsCalm (take_from q c)
unfolding take_from
take_from-held [] c same calm = (refl, calm)
take_from-held (e ∷ es) c same calm =
    let moved = record c { queue = es; batch = c.batch ++ e ∷ [] } in
    let kept = flush_if_full-held moved calm in (kept.0 ∙ moved-held e es c same, kept.1)

enqueue-eq :
    (e : SessionEvent) (q : List SessionEvent)
    → enqueue e q ≡ q ++ (if ltb (length q) event_queue_size then e ∷ [] else [])
unfolding enqueue
enqueue-eq e q = elim (Bool-cases (ltb (length q) event_queue_size)) [
  | inl h ↦ rw h refl
  | inr h ↦ rw h (sym (append-nil q))
]

held-queued :
    (c : Collector) (more : List SessionEvent)
    → held (record c { queue = c.queue ++ more }) ≡ held c ++ map as_row more
unfolding held
held-queued c more =
    ap (λ r. map unnumbered c.site.events ++ map as_row r) (sym (append_assoc c.batch c.queue more))
    ∙ ap (λ r. map unnumbered c.site.events ++ r) (map-append as_row (c.batch ++ c.queue) more)
    ∙ sym (
        append_assoc (map unnumbered c.site.events) (map as_row (c.batch ++ c.queue))
          (map as_row more))

on_event-held :
    (status_in : Text → Option Text) (now : ℕ) (e : SessionEvent) (c : Collector)
    → held (on_event status_in now e c)
      ≡ held c ++ map as_row (if ltb (length c.queue) event_queue_size then e ∷ [] else [])
unfolding on_event held
on_event-held status_in now e c =
    ap (λ q. map unnumbered c.site.events ++ map as_row (c.batch ++ q)) (enqueue-eq e c.queue)
    ∙ held-queued c (if ltb (length c.queue) event_queue_size then e ∷ [] else [])

step-held :
    (decode : Text → Option Frame) (status_in : Text → Option Text) (now : ℕ) (st : Step)
    (c : Collector)
    → IsCalm c
    → (held (step_at decode status_in now st c) ≡ held c ++ map as_row (accepted decode now st c))
      × IsCalm (step_at decode status_in now st c)
unfolding step_at take_one accepted on_frame
step-held decode status_in now (frame raw) c calm =
    elim (Option-cases (parse_session_event decode now raw)) [
      | inl e ↦ rw (e, on_frame, accepted) (sym (append-nil (held c)), calm)
      | inr (ev, e) ↦ rw (e, on_frame, accepted) (on_event-held status_in now ev c, calm)
    ]
step-held decode status_in now taken c calm =
    let kept = take_from-held c.queue c refl calm in (kept.0 ∙ sym (append-nil (held c)), kept.1)
step-held decode status_in now ticked c calm =
    let kept = flush-held c calm in (kept.0 ∙ sym (append-nil (held c)), kept.1)

run-held :
    (decode : Text → Option Frame) (status_in : Text → Option Text) (steps : List (ℕ × Step))
    (c : Collector)
    → IsCalm c
    → (held (run_steps decode status_in steps c)
        ≡ held c ++ map as_row (all_accepted decode status_in steps c))
      × IsCalm (run_steps decode status_in steps c)
unfolding run_steps all_accepted held accepted
run-held decode status_in [] c calm = (sym (append-nil (held c)), calm)
run-held decode status_in ((now, st) ∷ steps) c calm =
    let once = step-held decode status_in now st (clocked now c) calm in
    let later = step_at decode status_in now st (clocked now c) in
    let rest = run-held decode status_in steps later once.1 in
    (
      rest.0
          ∙ ap (λ r. r ++ map as_row (all_accepted decode status_in steps later)) once.0
          ∙ append_assoc (held c) (map as_row (accepted decode now st (clocked now c)))
              (map as_row (all_accepted decode status_in steps later))
          ∙ ap (λ r. held c ++ r)
              (sym (
                map-append as_row (accepted decode now st (clocked now c))
                  (all_accepted decode status_in steps later))),
      rest.1,
    )

-- The drained collector holds nothing but rows.
drain-held :
    (q : List SessionEvent) (c : Collector)
    → c.queue ≡ q
    → IsCalm c
    → map unnumbered (Site.events (Collector.site (drain q c))) ≡ held c
unfolding drain held
drain-held [] c same calm =
    let end = record c { queue = [] } in
    let empty = flush-queue end in
    sym (held-done (flush end) empty.0 empty.1)
    ∙ (flush-held end calm).0
    ∙ ap (λ q. map unnumbered c.site.events ++ map as_row (c.batch ++ q)) (sym same)
drain-held (e ∷ es) c same calm =
    let moved = record c { queue = es; batch = c.batch ++ e ∷ [] } in
    let kept = flush_if_full-held moved calm in
    drain-held es (flush_if_full moved) (flush_if_full-queue moved) kept.1
    ∙ kept.0
    ∙ moved-held e es c same

-- The events that find room in the queue while flushEventsLoop still drains it.
unfoldable pub late_accepted :
    (Text → Option Frame)
    → (Text → Option Text)
    → List (ℕ × LateStep)
    → Collector
    → List SessionEvent
unfolding accepted
late_accepted decode status_in [] c = []
late_accepted decode status_in ((now, late_frame raw) ∷ steps) c =
    accepted decode now (frame raw) (clocked now c)
    ++ late_accepted decode status_in steps (on_frame decode status_in now raw (clocked now c))
late_accepted decode status_in ((now, turn) ∷ steps) c = elim c.queue [
  | [] ↦ []
  | e ∷ es ↦ late_accepted decode status_in steps (take_from (e ∷ es) (clocked now c))
]

on_frame-site :
    (decode : Text → Option Frame) (status_in : Text → Option Text) (now : ℕ) (raw : Text)
    (c : Collector)
    → Site.events (Collector.site (on_frame decode status_in now raw c)) ≡ c.site.events
unfolding on_frame on_event
on_frame-site decode status_in now raw c =
    elim (Option-cases (parse_session_event decode now raw)) [
      | inl e ↦ rw (e, on_frame) refl
      | inr (ev, e) ↦ rw (e, on_frame) refl
    ]

-- Once flushEventsLoop has returned, the table stays.
after_return-events :
    (decode : Text → Option Frame) (status_in : Text → Option Text) (steps : List (ℕ × LateStep))
    (c : Collector)
    → Site.events (Collector.site (after_return decode status_in steps c)) ≡ c.site.events
unfolding after_return
after_return-events decode status_in [] c = refl
after_return-events decode status_in ((now, late_frame raw) ∷ steps) c =
    after_return-events decode status_in steps (on_frame decode status_in now raw (clocked now c))
    ∙ on_frame-site decode status_in now raw (clocked now c)
after_return-events decode status_in ((now, turn) ∷ steps) c =
    after_return-events decode status_in steps c

abbrev rows_of : Collector → List SessionEvent
rows_of c = map unnumbered (Site.events c.site)

last_flush-rows : (c : Collector) → c.queue ≡ [] → IsCalm c → rows_of (flush c) ≡ held c
last_flush-rows c empty calm =
    let done = flush-queue c in
    sym (held-done (flush c) (done.0 ∙ empty) done.1) ∙ (flush-held c calm).0

drain_with-rows :
    (decode : Text → Option Frame) (status_in : Text → Option Text) (steps : List (ℕ × LateStep))
    (c : Collector)
    → IsCalm c
    → rows_of (drain_with decode status_in steps c)
      ≡ held c ++ map as_row (late_accepted decode status_in steps c)
unfolding drain_with late_accepted held step_at
drain_with-rows decode status_in [] c calm =
    drain-held c.queue c refl calm ∙ sym (append-nil (held c))
drain_with-rows decode status_in ((now, late_frame raw) ∷ steps) c calm =
    let once = step-held decode status_in now (frame raw) (clocked now c) calm in
    let next = on_frame decode status_in now raw (clocked now c) in
    let here = accepted decode now (frame raw) (clocked now c) in
    let rest = late_accepted decode status_in steps next in
    drain_with-rows decode status_in steps next once.1
    ∙ ap (λ r. r ++ map as_row rest) once.0
    ∙ append_assoc (held c) (map as_row here) (map as_row rest)
    ∙ ap (λ r. held c ++ r) (sym (map-append as_row here rest))
drain_with-rows decode status_in ((now, turn) ∷ steps) c calm =
    by_queue (drain_with-rows decode status_in steps) c.queue refl
  where
    by_queue :
        ((d : Collector)
          → IsCalm d
          → rows_of (drain_with decode status_in steps d)
            ≡ held d ++ map as_row (late_accepted decode status_in steps d))
        → (q : List SessionEvent) → c.queue ≡ q
        → rows_of (drain_with decode status_in ((now, turn) ∷ steps) c)
          ≡ held c ++ map as_row (late_accepted decode status_in ((now, turn) ∷ steps) c)
    by_queue rest [] same =
        let c0 = record c { queue = [] } in
        rw same (
          ap (map unnumbered) (after_return-events decode status_in steps (flush (clocked now c0)))
          ∙ last_flush-rows (clocked now c0) refl calm
          ∙ sym (append-nil (held c0)))
    by_queue rest (e ∷ es) same =
        let c1 = clocked now (record c { queue = e ∷ es }) in
        let moved = take_from (e ∷ es) c1 in
        let kept = take_from-held (e ∷ es) c1 refl calm in
        rw same (
          rest moved kept.1
          ∙ ap (λ r. r ++ map as_row (late_accepted decode status_in steps moved)) kept.0)

-- The events table refines the stream: from an empty queue and batch, whatever the order in which
-- frames arrive, events are taken from the queue and the ticker fires, before and after the context
-- is done, on a database that refuses nothing, the rows added at the end are the events that found
-- room in the queue before flushEventsLoop found it empty and returned, each once and in their
-- order. An event that is queued after that is in no row.
pub collect-rows :
    (decode : Text → Option Frame) (status_in : Text → Option Text) (steps : List (ℕ × Step))
    (late : List (ℕ × LateStep)) (c : Collector)
    → c.site.faults ≡ []
    → c.queue ≡ []
    → c.batch ≡ []
    → map unnumbered (Site.events (Collector.site (collect decode status_in steps late c)))
      ≡ map unnumbered c.site.events
        ++ map as_row (
            all_accepted decode status_in steps c
            ++ late_accepted decode status_in late (run_steps decode status_in steps c))
unfolding collect held
collect-rows decode status_in steps late c calm no_queue no_batch =
    let end = run-held decode status_in steps c calm in
    let stopped = run_steps decode status_in steps c in
    let soon = all_accepted decode status_in steps c in
    let later = late_accepted decode status_in late stopped in
    drain_with-rows decode status_in late stopped end.1
    ∙ ap (λ r. r ++ map as_row later)
        (end.0 ∙ ap (λ r. r ++ map as_row soon) (held-done c no_queue no_batch))
    ∙ append_assoc (map unnumbered c.site.events) (map as_row soon) (map as_row later)
    ∙ ap (λ r. map unnumbered c.site.events ++ r) (sym (map-append as_row soon later))
