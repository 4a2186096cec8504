-- ===== src/Events/Listing.antt =====
-- internal/server/events.go: handleEvents. requireToken and requireWeb, the query's values and
-- time.Parse are arguments.
use opencode_backend.Base.{
  ℕ, suc, ◌*◌, Bool, String, Option, none, some, List, [], ◌∷◌, if◌then◌else◌, ltb, ◌==◌, not,
}
use opencode_backend.Base.Int.{ℤ, pos, negsuc}
use opencode_backend.Exec.{Result, ok, err}
use opencode_backend.Automation.Text.{Text, trim_space, atoi}
use opencode_backend.Records.Site.{Site, SessionEvent}
use opencode_backend.Records.Events.{list_events}

-- The limit of a query: 200 without a number above 0, and 1000 at most.
abbrev pub limit_of : Option ℤ → ℕ
limit_of (some (pos (suc n))) = if ltb 1000 (suc n) then 1000 else suc n
limit_of _ = 200

unfoldable pub query_limit : Text → ℕ
unfolding atoi
query_limit [] = 200
query_limit (c ∷ cs) = limit_of (atoi (c ∷ cs))

-- `time.UnixMilli(ms)`: none is Go's zero time. A time before 1970, when nothing was recorded, is
-- 1970 here.
abbrev pub unix_milli : ℤ → Option ℕ
unix_milli (pos ms) = some (ms * 1_000_000)
unix_milli (negsuc n) = if n == 62_135_596_799_999 then none else some 0

abbrev pub milli_of : Option ℤ → Option (Option ℕ)
milli_of none = none
milli_of (some ms) = some (unix_milli ms)

abbrev pub since_text : (Text → Option (Option ℕ)) → Text → Option (Option ℕ)
since_text rfc3339 [] = none
since_text rfc3339 (c ∷ cs) = elim (rfc3339 (c ∷ cs)) [
  | some t ↦ some t
  | none ↦ milli_of (atoi (c ∷ cs))
]

-- `rfc3339` is time.Parse with its layout.
unfoldable pub parse_event_since : (Text → Option (Option ℕ)) → Text → Option (Option ℕ)
unfolding trim_space atoi
parse_event_since rfc3339 v = since_text rfc3339 (trim_space v)

pub record EventsRequest : Type 0 where
  pub authorized : Bool
  pub is_get : Bool
  pub limit : Text
  pub since : Text
  pub session_id : Text

pub data EventsReply : Type 0 where
  events_refused : ℕ → String → EventsReply
  events_page : List SessionEvent → EventsReply

abbrev pub query_since : (Text → Option (Option ℕ)) → Text → Option (Option ℕ)
query_since rfc3339 [] = some none
query_since rfc3339 (c ∷ cs) = parse_event_since rfc3339 (c ∷ cs)

abbrev pub page_of : Result (List SessionEvent) → EventsReply
page_of (ok items) = events_page items
page_of (err _) = events_refused 500 "list events failed"

abbrev pub list_since : EventsRequest → Option (Option ℕ) → Site → EventsReply
list_since req none s = events_refused 400 "invalid since: use RFC3339 or unix milliseconds"
list_since req (some since) s =
    page_of (list_events req.session_id since (query_limit req.limit) s).0

unfoldable pub handle_events : (Text → Option (Option ℕ)) → EventsRequest → Site → EventsReply
unfolding parse_event_since query_limit list_events
handle_events rfc3339 req s =
    if not req.authorized
    then events_refused 401 "web session or APP token required"
    else if not req.is_get
    then events_refused 405 "method not allowed"
    else list_since req (query_since rfc3339 req.since) s
