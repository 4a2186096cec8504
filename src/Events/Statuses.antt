-- ===== src/Events/Statuses.antt =====
-- internal/server/events.go: handleSessionStatusAgg and seedSessionStatuses. The upstream's answer to
-- GET /session/status is an argument.
pub mod Merged
use opencode_backend.Base.{
  ℕ, zero, suc, ◌+◌, ◌-◌, ◌*◌, Bool, true, false, Option, none, some, List, [], ◌∷◌, if◌then◌else◌,
  ltb, leb, ◌&&◌, ◌||◌,
}
use opencode_backend.Exec.{ok, err}
use opencode_backend.Automation.Text.{Text, codes}
use opencode_backend.Store.Db.{second}
use opencode_backend.Stt.Runes.{equal_runes}
use opencode_backend.Records.Site.{Site, SessionEvent}
use opencode_backend.Records.Events.{list_events}
use opencode_backend.Events.Collector.{Collector, store_entry, note_status}

-- `out[id]`, with whether the key exists.
unfoldable pub get_entry : Text → List (Text × Text) → Option Text
unfolding equal_runes
get_entry id [] = none
get_entry id ((k, v) ∷ rows) =
    let rest = get_entry id rows in if equal_runes k id then some v else rest

-- `t, ok := v["type"].(string); ok && t != ""`
abbrev pub put_full : Text → Option Text → List (Text × Text) → List (Text × Text)
put_full id (some (c ∷ cs)) out = store_entry id (c ∷ cs) out
put_full id _ out = out

-- The loop over the snapshot.
unfoldable pub take_snapshot : List (Text × Option Text) → List (Text × Text) → List (Text × Text)
unfolding store_entry
take_snapshot [] out = out
take_snapshot ((id, t) ∷ m) out = take_snapshot m (put_full id t out)

abbrev pub add_missing : Text → Text → Option Text → List (Text × Text) → List (Text × Text)
add_missing id st (some _) out = out
add_missing id st none out = put_full id (some st) out

-- `s.sessionStatuses.Range`
unfoldable pub add_statuses : List (Text × Text) → List (Text × Text) → List (Text × Text)
unfolding get_entry store_entry
add_statuses [] out = out
add_statuses ((id, st) ∷ rows) out = add_statuses rows (add_missing id st (get_entry id out) out)

abbrev pub busy : Text
busy = codes "busy"

abbrev pub idle : Text
idle = codes "idle"

-- `out[id] == "idle" || out[id] == ""`
abbrev pub reads_idle : Option Text → Bool
reads_idle none = true
reads_idle (some st) = equal_runes st idle || equal_runes st []

abbrev pub active_window : ℕ
active_window = 30 * second

-- `s.sessionActivity.Range`
unfoldable pub correct_active : ℕ → List (Text × ℕ) → List (Text × Text) → List (Text × Text)
unfolding get_entry store_entry equal_runes
correct_active now [] out = out
correct_active now ((id, last) ∷ rows) out = correct_active now rows (
    if ltb active_window (now - last)
    then out
    else if reads_idle (get_entry id out)
    then store_entry id busy out
    else out)

unfoldable pub merge_statuses :
    ℕ
    → Option (List (Text × Option Text))
    → List (Text × Text)
    → List (Text × ℕ)
    → List (Text × Text)
unfolding take_snapshot add_statuses correct_active
merge_statuses now none statuses activity = correct_active now activity (add_statuses statuses [])
merge_statuses now (some m) statuses activity =
    correct_active now activity (add_statuses statuses (take_snapshot m []))

unfoldable pub note_all :
    (Text → Option Text) → List SessionEvent → List (Text × Text) → List (Text × Text)
unfolding note_status
note_all status_in [] rows = rows
note_all status_in (e ∷ es) rows = note_all status_in es (note_status status_in e rows)

unfoldable pub seed_session_statuses : (Text → Option Text) → Collector → Collector
unfolding list_events note_all
seed_session_statuses status_in c =
    elim (list_events [] (some (c.site.now - 3600 * second)) 1000 c.site).0 [
      | err _ ↦ c
      | ok events ↦ record c { statuses = note_all status_in events c.statuses }
    ]
