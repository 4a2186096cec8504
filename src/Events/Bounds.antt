-- ===== src/Events/Bounds.antt =====
-- internal/server/events.go: the sizes of the queue and the batch, and the ids of a batch's unread
-- sessions.
use opencode_backend.Base.{
  ℕ, ◌≤◌, ◌<◌, Bool, true, false, Option, List, [], ◌∷◌, ◌++◌, ◌≡◌, refl, arith, Bool-cases,
  Option-cases, inl, inr, ltb, leb, length, length-append, ltb→lt, ◌&&◌, not,
}
use opencode_backend.Automation.Text.{Text}
use opencode_backend.Stt.Runes.{equal_runes, equal_runes-eq, equal_runes_refl}
use opencode_backend.Records.Site.{SessionEvent}
use opencode_backend.Records.Events.{holds, repeats_id}
use opencode_backend.Events.Frames.{Frame, parse_session_event, is_unread_trigger_event}
use opencode_backend.Events.Collector.{
  Collector, Step, frame, taken, ticked, unread_ids, on_event, on_frame, enqueue, take_from,
  take_one, flush, flush_if_full, step_at, run_steps, clocked, event_queue_size, event_flush_batch,
}
use opencode_backend.Events.Collector.Flush.{flush-queue}

pub record IsBounded (c : Collector) : Type 0 where
  pub queue : length c.queue ≤ event_queue_size
  pub batch : length c.batch < event_flush_batch

flush-IsBounded : (c : Collector) → length c.queue ≤ event_queue_size → IsBounded (flush c)
flush-IsBounded c h =
    let left = flush-queue c in record { queue = rw left.0 h; batch = rw left.1 (omega arith) }

flush_if_full-IsBounded :
    (c : Collector) → length c.queue ≤ event_queue_size → IsBounded (flush_if_full c)
unfolding flush_if_full
flush_if_full-IsBounded c h = elim (Bool-cases (leb event_flush_batch (length c.batch))) [
  | inl e ↦ rw e (flush-IsBounded c h)
  | inr e ↦ rw e (record { queue = h; batch = ground arith })
]

take_from-IsBounded :
    (q : List SessionEvent) (c : Collector)
    → length q ≤ event_queue_size
    → IsBounded c
    → IsBounded (take_from q c)
unfolding take_from
take_from-IsBounded [] c h b = b
take_from-IsBounded (e ∷ es) c h b =
    flush_if_full-IsBounded (record c { queue = es; batch = c.batch ++ e ∷ [] }) (omega arith)

enqueue-le :
    (e : SessionEvent) (q : List SessionEvent)
    → length q ≤ event_queue_size
    → length (enqueue e q) ≤ event_queue_size
unfolding enqueue
enqueue-le e q h = elim (Bool-cases (ltb (length q) event_queue_size)) [
  | inl room ↦
      rw room (omega (arith, length-append q (e ∷ []), ltb→lt (length q) event_queue_size room))
  | inr full ↦ rw full h
]

step-IsBounded :
    (decode : Text → Option Frame) (status_in : Text → Option Text) (now : ℕ) (st : Step)
    (c : Collector)
    → IsBounded c
    → IsBounded (step_at decode status_in now st c)
unfolding step_at take_one on_frame on_event
step-IsBounded decode status_in now (frame raw) c b =
    elim (Option-cases (parse_session_event decode now raw)) [
      | inl e ↦ rw (e, on_frame) b
      | inr (ev, e) ↦
          rw (e, on_frame) (record { queue = enqueue-le ev c.queue b.queue; batch = b.batch })
    ]
step-IsBounded decode status_in now taken c b = take_from-IsBounded c.queue c b.queue b
step-IsBounded decode status_in now ticked c b = flush-IsBounded c b.queue

-- In any run of the collector the queue holds 512 events at most, and less than a full batch of 100
-- waits to be written.
pub run_steps-IsBounded :
    (decode : Text → Option Frame) (status_in : Text → Option Text) (steps : List (ℕ × Step))
    (c : Collector)
    → IsBounded c
    → IsBounded (run_steps decode status_in steps c)
unfolding run_steps
run_steps-IsBounded decode status_in [] c b = b
run_steps-IsBounded decode status_in ((now, st) ∷ steps) c b =
    run_steps-IsBounded decode status_in steps _ (
      step-IsBounded decode status_in now st (clocked now c)
        (record { queue = b.queue; batch = b.batch }))

-- The test of the loop over the batch.
abbrev is_new : List Text → SessionEvent → Bool
is_new seen e =
    (is_unread_trigger_event e.event_type && not (equal_runes e.session_id []))
    && not (holds e.session_id seen)

holds-other :
    (a b : Text) (seen : List Text)
    → holds a seen ≡ true
    → holds b seen ≡ false
    → equal_runes b a ≡ false
holds-other a b seen h k = elim (Bool-cases (equal_runes b a)) [
  | inr e ↦ e
  | inl e ↦ let same : b ≡ a = equal_runes-eq b a e in cc
]

unread_ids-fresh :
    (id : Text) (seen : List Text) (es : List SessionEvent)
    → holds id seen ≡ true
    → holds id (unread_ids seen es) ≡ false
unfolding unread_ids
unread_ids-fresh id seen [] h = refl
unread_ids-fresh id seen (e ∷ es) h = elim (Bool-cases (is_new seen e)) [
  | inr old ↦ rw (old, unread_ids) (unread_ids-fresh id seen es h)
  | inl new ↦
      let other : equal_runes e.session_id id ≡ false =
        holds-other id e.session_id seen h (ground arith) in
      rw (new, unread_ids) (rw other (unread_ids-fresh id (e.session_id ∷ seen) es (rw other h)))
]

unread_ids-distinct :
    (seen : List Text) (es : List SessionEvent) → repeats_id (unread_ids seen es) ≡ false
unfolding unread_ids
unread_ids-distinct seen [] = refl
unread_ids-distinct seen (e ∷ es) = elim (Bool-cases (is_new seen e)) [
  | inr old ↦ rw (old, unread_ids) (unread_ids-distinct seen es)
  | inl new ↦
      let once : holds e.session_id (unread_ids (e.session_id ∷ seen) es) ≡ false =
        unread_ids-fresh e.session_id (e.session_id ∷ seen) es
          (rw (equal_runes_refl e.session_id) refl) in
      rw (new, unread_ids) (rw once (unread_ids-distinct (e.session_id ∷ seen) es))
]
