-- ===== src/Events/Collector/Flush.antt =====
-- flushEventsLoop of internal/server/events.go: what a flush leaves of the events.
use opencode_backend.Base.{
  ℕ, suc, List, [], ◌∷◌, ◌++◌, map, append-nil, append_assoc, ◌≡◌, refl, sym, ap, ◌∙◌, Bool-cases,
  inl, inr, leb, length, ◌&&◌,
}
use opencode_backend.Automation.Text.{Text}
use opencode_backend.Records.Site.{Site, SessionEvent, ask}
use opencode_backend.Records.Events.{
  insert_events, insert_rows, set_sessions_unread, numbered, stored, repeats_id,
}
use opencode_backend.Events.Collector.{
  Collector, unread_ids, write_batch, flush, flush_batch, flush_if_full, event_flush_batch,
}

-- A row without the id that the table gave it.
unfoldable pub unnumbered : SessionEvent → SessionEvent
unnumbered e = record e { id = 0 }

-- The row that an event becomes, without its id.
unfoldable pub as_row : SessionEvent → SessionEvent
as_row e = stored 0 e

-- The events of the table, then those that wait in the batch and in the queue.
unfoldable pub held : Collector → List SessionEvent
unfolding unnumbered as_row
held c = map unnumbered c.site.events ++ map as_row (c.batch ++ c.queue)

-- The database refuses no statement.
abbrev pub IsCalm : Collector → Type 0
IsCalm c = c.site.faults ≡ []

pub map-append :
    (f : SessionEvent → SessionEvent) (xs ys : List SessionEvent)
    → map f (xs ++ ys) ≡ map f xs ++ map f ys
map-append f [] ys = refl
map-append f (x ∷ xs) ys = ap (λ r. f x ∷ r) (map-append f xs ys)

map-numbered : (id : ℕ) (es : List SessionEvent) → map unnumbered (numbered id es) ≡ map as_row es
unfolding unnumbered as_row numbered
map-numbered id [] = refl
map-numbered id (e ∷ es) = ap (λ r. as_row e ∷ r) (map-numbered (suc id) es)

-- What SetSessionsUnread leaves alone.
set_unread-keeps :
    (ids : List Text) (s : Site)
    → s.faults ≡ []
    → (Site.events (set_sessions_unread ids s).1 ≡ s.events)
      × (Site.faults (set_sessions_unread ids s).1 ≡ [])
unfolding set_sessions_unread ask
set_unread-keeps [] s calm = (refl, calm)
set_unread-keeps (id ∷ ids) s calm = elim (Bool-cases (s.postgres && repeats_id (id ∷ ids))) [
  | inl e ↦ rw (calm, e) (refl, refl)
  | inr e ↦ rw (calm, e) (refl, refl)
]

insert_events-calm :
    (e : SessionEvent) (es : List SessionEvent) (s : Site)
    → s.faults ≡ []
    → (insert_events (e ∷ es) s).1 ≡ insert_rows (e ∷ es) s
unfolding insert_events ask
insert_events-calm e es s calm = rw calm refl

write_batch-rows :
    (e : SessionEvent) (es : List SessionEvent) (s : Site)
    → s.faults ≡ []
    → (map unnumbered (Site.events (write_batch (e ∷ es) s))
        ≡ map unnumbered s.events ++ map as_row (e ∷ es))
      × (Site.faults (write_batch (e ∷ es) s) ≡ [])
unfolding write_batch insert_rows
write_batch-rows e es s calm =
    let eq = insert_events-calm e es s calm in
    let kept =
      set_unread-keeps (unread_ids [] (e ∷ es)) (insert_events (e ∷ es) s).1
        (ap Site.faults eq ∙ calm) in
    (
      ap (map unnumbered) (kept.0 ∙ ap Site.events eq)
          ∙ map-append unnumbered s.events (numbered s.next_event (e ∷ es))
          ∙ ap (λ r. map unnumbered s.events ++ r) (map-numbered s.next_event (e ∷ es)),
      kept.1,
    )

flush_batch-held :
    (b : List SessionEvent) (c : Collector)
    → c.batch ≡ b
    → IsCalm c
    → (held (flush_batch b c) ≡ held c) × IsCalm (flush_batch b c)
unfolding flush_batch held
flush_batch-held [] c same calm = (refl, calm)
flush_batch-held (e ∷ es) c same calm =
    let wrote = write_batch-rows e es c.site calm in
    (
      ap (λ r. r ++ map as_row c.queue) wrote.0
          ∙ append_assoc (map unnumbered c.site.events) (map as_row (e ∷ es)) (map as_row c.queue)
          ∙ ap (λ r. map unnumbered c.site.events ++ r) (sym (map-append as_row (e ∷ es) c.queue))
          ∙ ap (λ b. map unnumbered c.site.events ++ map as_row (b ++ c.queue)) (sym same),
      wrote.1,
    )

pub flush-held : (c : Collector) → IsCalm c → (held (flush c) ≡ held c) × IsCalm (flush c)
unfolding flush
flush-held c calm = flush_batch-held c.batch c refl calm

pub flush_if_full-held :
    (c : Collector) → IsCalm c → (held (flush_if_full c) ≡ held c) × IsCalm (flush_if_full c)
unfolding flush_if_full
flush_if_full-held c calm = elim (Bool-cases (leb event_flush_batch (length c.batch))) [
  | inl e ↦ rw e (flush-held c calm)
  | inr e ↦ rw e (refl, calm)
]

flush_batch-queue :
    (b : List SessionEvent) (c : Collector)
    → c.batch ≡ b
    → (Collector.queue (flush_batch b c) ≡ c.queue) × (Collector.batch (flush_batch b c) ≡ [])
unfolding flush_batch
flush_batch-queue [] c same = (refl, same)
flush_batch-queue (e ∷ es) c same = (refl, refl)

pub flush-queue :
    (c : Collector) → (Collector.queue (flush c) ≡ c.queue) × (Collector.batch (flush c) ≡ [])
unfolding flush
flush-queue c = flush_batch-queue c.batch c refl

pub flush_if_full-queue : (c : Collector) → Collector.queue (flush_if_full c) ≡ c.queue
unfolding flush_if_full
flush_if_full-queue c = elim (Bool-cases (leb event_flush_batch (length c.batch))) [
  | inl e ↦ rw e (flush-queue c).0
  | inr e ↦ rw e refl
]

pub held-done :
    (c : Collector) → c.queue ≡ [] → c.batch ≡ [] → held c ≡ map unnumbered c.site.events
unfolding held
held-done c no_queue no_batch =
    ap (λ b. map unnumbered c.site.events ++ map as_row (b ++ c.queue)) no_batch
    ∙ ap (λ q. map unnumbered c.site.events ++ map as_row q) no_queue
    ∙ append-nil (map unnumbered c.site.events)
