-- ===== src/Events/Tests.antt =====
-- The theorems on the event collector at a few frames.
use opencode_backend.Base.{ℕ, true, Option, none, some, List, [], ◌∷◌, ◌++◌, ◌≡◌, refl, arith, map}
use opencode_backend.Automation.Text.{Text, codes}
use opencode_backend.Records.Site.{Site, SessionEvent}
use opencode_backend.Records.Tests.{bare}
use opencode_backend.Events.Frames.{Frame, text, empty, member, is_high_frequency_event}
use opencode_backend.Events.Collector.{
  Collector, Step, frame, taken, ticked, LateStep, late_frame, turn, collect, run_steps,
}
use opencode_backend.Events.Collector.Flush.{unnumbered, as_row}
use opencode_backend.Events.Conserves.{all_accepted, late_accepted, collect-rows}
use opencode_backend.Events.Bounds.{IsBounded, run_steps-IsBounded}
use opencode_backend.Events.Statuses.{get_entry, merge_statuses}
use opencode_backend.Events.Statuses.Merged.{
  corrected, is_active, or_else, snapshot_status, full_entry, merge_statuses-get,
}

-- Any text is a message of the session `s`.
abbrev message : Text → Option Frame
message raw = some (record {
  type_ = codes "message.updated";
  props = member "sessionId" (text (codes "s")) empty;
  data_ = empty;
  session = [];
  payload = empty;
})

abbrev no_status : Text → Option Text
no_status raw = none

abbrev idle_collector : Collector
idle_collector = record {
  site = bare;
  queue = [];
  batch = [];
  statuses = [];
  activity = [];
  pushed = [];
}

abbrev three_steps : List (ℕ × Step)
three_steps = (5, frame (codes "a")) ∷ (6, taken) ∷ (7, frame (codes "b")) ∷ (8, ticked) ∷ []

-- One frame still arrives in time, and one after flushEventsLoop has returned.
abbrev late_steps : List (ℕ × LateStep)
late_steps =
    (9, late_frame (codes "c"))
    ∷ (9, turn)
    ∷ (9, turn)
    ∷ (9, turn)
    ∷ (9, late_frame (codes "d"))
    ∷ []

collect-rows_example :
    map unnumbered (
      Site.events
        (Collector.site (collect message no_status three_steps late_steps idle_collector)))
    ≡ map unnumbered []
      ++ map as_row (
          all_accepted message no_status three_steps idle_collector
          ++ late_accepted message no_status late_steps
              (run_steps message no_status three_steps idle_collector))
collect-rows_example =
    collect-rows message no_status three_steps late_steps idle_collector refl refl refl

three_rows :
    map SessionEvent.payload (
      Site.events
        (Collector.site (collect message no_status three_steps late_steps idle_collector)))
    ≡ codes "a" ∷ codes "b" ∷ codes "c" ∷ []
unfolding collect
three_rows = refl

run_steps-IsBounded_example : IsBounded (run_steps message no_status three_steps idle_collector)
run_steps-IsBounded_example =
    run_steps-IsBounded message no_status three_steps idle_collector
      (record { queue = omega arith; batch = omega arith })

merge_statuses-get_example :
    get_entry
      (codes "s")
      (merge_statuses 50 none ((codes "s", codes "idle") ∷ []) ((codes "s", 40) ∷ []))
    ≡ corrected (is_active 50 (codes "s") ((codes "s", 40) ∷ [])) (
        or_else
          (snapshot_status (codes "s") none)
          (full_entry (codes "s") ((codes "s", codes "idle") ∷ [])))
merge_statuses-get_example =
    merge_statuses-get 50 none ((codes "s", codes "idle") ∷ []) ((codes "s", 40) ∷ []) (codes "s")

still_busy :
    get_entry
      (codes "s")
      (merge_statuses 50 none ((codes "s", codes "idle") ∷ []) ((codes "s", 40) ∷ []))
    ≡ some (codes "busy")
unfolding get_entry merge_statuses
still_busy = refl

delta_not_pushed : is_high_frequency_event (codes "message.part.delta") ≡ true
unfolding is_high_frequency_event
delta_not_pushed = refl
