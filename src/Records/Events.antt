-- ===== src/Records/Events.antt =====
-- internal/store/session_event.go and unread.go: the tables `session_events` and `session_unread`.
use opencode_backend.Base.{
  ℕ, zero, suc, Bool, true, false, Option, none, some, List, [], ◌∷◌, ◌++◌, map, if◌then◌else◌, ltb,
  ◌==◌, ◌&&◌, ◌||◌, take,
}
use opencode_backend.Exec.{ok, err, database, Exec}
use opencode_backend.Sql.{
  select_where, exists_where, update_where, count_where, delete_where, order_by,
}
use opencode_backend.Automation.Text.{Text, codes}
use opencode_backend.Stt.Runes.{equal_runes}
use opencode_backend.Stt.Slips.{replace_from}
use opencode_backend.Records.Site.{Site, SessionEvent, Unread, ask}

-- The six characters `\u0000`, and `\ufffd`; without an occurrence the replacement changes nothing.
unfoldable pub sanitize_payload_for_jsonb : Text → Text
unfolding replace_from
sanitize_payload_for_jsonb b = replace_from 0 (codes "\\u0000") (codes "\\ufffd") b

abbrev pub stored : ℕ → SessionEvent → SessionEvent
stored id e = record e { id = id; payload = sanitize_payload_for_jsonb e.payload }

unfoldable pub insert_event : SessionEvent → Exec Site (Unit {0})
unfolding ask sanitize_payload_for_jsonb
insert_event e = ask (λ s. (
  ok tt,
  record s { events = s.events ++ stored s.next_event e ∷ []; next_event = suc s.next_event },
))

-- The rows of one INSERT, with the ids from `id` on.
unfoldable pub numbered : ℕ → List SessionEvent → List SessionEvent
unfolding sanitize_payload_for_jsonb
numbered id [] = []
numbered id (e ∷ es) = stored id e ∷ numbered (suc id) es

unfoldable pub next_after : ℕ → List SessionEvent → ℕ
next_after id [] = id
next_after id (e ∷ es) = next_after (suc id) es

unfoldable pub insert_rows : List SessionEvent → Site → Site
unfolding numbered next_after
insert_rows es s = record s {
  events = s.events ++ numbered s.next_event es;
  next_event = next_after s.next_event es;
}

unfoldable pub insert_events : List SessionEvent → Exec Site (Unit {0})
unfolding ask insert_rows
insert_events [] s = (ok tt, s)
insert_events (e ∷ es) s = ask (λ r. (ok tt, insert_rows (e ∷ es) r)) s

-- ORDER BY created_at DESC, id DESC, and ORDER BY created_at ASC, id ASC
abbrev pub newer_first : SessionEvent → SessionEvent → Bool
newer_first y x = ltb x.created_at y.created_at || x.created_at == y.created_at && ltb x.id y.id

abbrev pub older_first : SessionEvent → SessionEvent → Bool
older_first y x = newer_first x y

abbrev pub of_session : Text → SessionEvent → Bool
of_session [] e = true
of_session (c ∷ cs) e = equal_runes e.session_id (c ∷ cs)

abbrev pub event_limit : ℕ → ℕ
event_limit zero = 200
event_limit (suc n) = suc n

unfoldable pub reverse_onto : List SessionEvent → List SessionEvent → List SessionEvent
reverse_onto [] out = out
reverse_onto (e ∷ es) out = reverse_onto es (e ∷ out)

-- Without `since`, the newest rows in ascending order; with it, the oldest rows after it.
unfoldable pub listed_events : Text → Option ℕ → ℕ → List SessionEvent → List SessionEvent
unfolding select_where order_by reverse_onto equal_runes
listed_events session_id none limit rows =
    reverse_onto
      (take (event_limit limit) (order_by newer_first (select_where (of_session session_id) rows)))
      []
listed_events session_id (some since) limit rows = take (event_limit limit) (
    order_by older_first
      (select_where (λ e. of_session session_id e && ltb since e.created_at) rows))

unfoldable pub list_events : Text → Option ℕ → ℕ → Exec Site (List SessionEvent)
unfolding ask listed_events
list_events session_id since limit =
    ask (λ s. (ok (listed_events session_id since limit s.events), s))

unfoldable pub delete_events_older_than : ℕ → Exec Site ℕ
unfolding ask count_where delete_where
delete_events_older_than cutoff = ask (λ s. (
  ok (count_where (λ e. ltb e.created_at cutoff) s.events),
  record s { events = delete_where (λ e. ltb e.created_at cutoff) s.events },
))

abbrev pub is_of : Text → Unread → Bool
is_of id u = equal_runes u.session_id id

-- One row of INSERT ... ON CONFLICT (session_id) DO UPDATE.
unfoldable pub flag_unread : ℕ → Text → List Unread → List Unread
unfolding exists_where update_where equal_runes
flag_unread now id rows =
    if exists_where (is_of id) rows
    then update_where (is_of id) (λ u. record u { unread = true; updated_at = now }) rows
    else rows ++ record { session_id = id; unread = true; updated_at = now } ∷ []

unfoldable pub flag_all : ℕ → List Text → List Unread → List Unread
unfolding flag_unread
flag_all now [] rows = rows
flag_all now (id ∷ ids) rows = flag_all now ids (flag_unread now id rows)

abbrev pub holds : Text → List Text → Bool
holds id [] = false
holds id (i ∷ is) = equal_runes i id || holds id is

abbrev pub repeats_id : List Text → Bool
repeats_id [] = false
repeats_id (i ∷ is) = holds i is || repeats_id is

-- PostgreSQL refuses an upsert that meets the same row twice.
unfoldable pub set_sessions_unread : List Text → Exec Site (Unit {0})
unfolding ask flag_all equal_runes
set_sessions_unread [] s = (ok tt, s)
set_sessions_unread (id ∷ ids) s =
    ask
      (λ r.
        if r.postgres && repeats_id (id ∷ ids)
        then (err database, r)
        else (ok tt, record r { unread = flag_all r.now (id ∷ ids) r.unread }))
      s

unfoldable pub list_unread : Exec Site (List Text)
unfolding ask select_where
list_unread = ask (λ s. (ok (map Unread.session_id (select_where Unread.unread s.unread)), s))

unfoldable pub mark_session_read : Text → Exec Site (Unit {0})
unfolding ask delete_where equal_runes
mark_session_read id = ask (λ s. (ok tt, record s { unread = delete_where (is_of id) s.unread }))
