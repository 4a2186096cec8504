-- ===== src/Records/Handlers.antt =====
-- internal/server: unread.go, audit.go, stats.go and archives.go, the handlers over these tables.
-- Whether the caller is let in, the decoded body, OpenCode's answer and the random id are arguments.
use Prim.Native.String.{◌++◌ as str_append}
use opencode_backend.Base.{
  ℕ, suc, Bool, true, String, Option, none, some, List, [], ◌∷◌, length, if◌then◌else◌, not, leb,
  ◌||◌, ◌&&◌, ◌==◌, str_eq,
}
use opencode_backend.Base.Int.{ℤ, pos}
use opencode_backend.Exec.{Result, ok, err}
use opencode_backend.Automation.Text.{Text, codes, atoi}
use opencode_backend.Stt.Runes.{has_rune, is_digit_rune}
use opencode_backend.Stt.Words.{is_letter}
use opencode_backend.Store.Db.{Db}
use opencode_backend.Records.Site.{Site, Archive, AuditEntry}
use opencode_backend.Records.Events.{list_unread, mark_session_read}
use opencode_backend.Records.Audit.{TokenUsage, list_audit, token_usage_by_audit}
use opencode_backend.Records.Archives.{
  create_archive, list_archives, get_archive, delete_archive, count_archives,
}
use opencode_backend.Records.Stats.{TaskStats, task_stats}
use opencode_backend.Access.Passwords.{byte_length}

pub data RecordReply : Type 0 where
  record_refused : ℕ → String → RecordReply
  unread_page : List Text → RecordReply
  audit_page : List AuditEntry → RecordReply
  stats_page : TaskStats → List TokenUsage → ℕ → RecordReply
  archives_page : List Archive → RecordReply
  archive_created : String → ℕ → String → RecordReply
  archive_found : Archive → RecordReply
  record_done : RecordReply

abbrev pub unread_listed : Result (List Text) × Site → RecordReply × Site
unread_listed (err _, s) = (record_refused 500 "list unread failed", s)
unread_listed (ok ids, s) = (unread_page ids, s)

unfoldable pub handle_unread_list : Bool → Bool → Site → RecordReply × Site
unfolding list_unread
handle_unread_list allowed is_get s =
    if not allowed
    then (record_refused 401 "web session or APP token required", s)
    else if not is_get
    then (record_refused 405 "method not allowed", s)
    else unread_listed (list_unread s)

abbrev pub marked_read : Result (Unit {0}) × Site → RecordReply × Site
marked_read (err _, s) = (record_refused 500 "mark read failed", s)
marked_read (ok _, s) = (record_done, s)

abbrev pub mark_one : Text → Site → RecordReply × Site
mark_one [] s = (record_refused 400 "invalid session id", s)
mark_one (c ∷ cs) s =
    if has_rune (c ∷ cs) b'/'
    then (record_refused 400 "invalid session id", s)
    else marked_read (mark_session_read (c ∷ cs) s)

-- `id` is what the path has behind /api/unread/.
unfoldable pub handle_unread_mark_read : Bool → Bool → Text → Site → RecordReply × Site
unfolding has_rune mark_session_read
handle_unread_mark_read allowed is_post id s =
    if not allowed
    then (record_refused 401 "web session or APP token required", s)
    else if not is_post
    then (record_refused 405 "method not allowed", s)
    else mark_one id s

abbrev pub page_limit : Option ℤ → ℕ
page_limit (some (pos (suc n))) = if leb (suc n) 500 then suc n else 50
page_limit _ = 50

-- The limit of a query: 50 without a number from 1 to 500.
unfoldable pub limit_query : Text → ℕ
unfolding atoi
limit_query [] = 50
limit_query (c ∷ cs) = page_limit (atoi (c ∷ cs))

abbrev pub audit_listed : Result (List AuditEntry) × Site → RecordReply × Site
audit_listed (err _, s) = (record_refused 500 "list audit failed", s)
audit_listed (ok entries, s) = (audit_page entries, s)

unfoldable pub handle_audit : Bool → Bool → Text → String → Site → RecordReply × Site
unfolding limit_query list_audit
handle_audit is_get allowed limit token_id s =
    if not is_get
    then (record_refused 405 "method not allowed", s)
    else if not allowed
    then (record_refused 401 "web session or APP token required", s)
    else audit_listed (list_audit token_id (limit_query limit) s)

abbrev pub archives_counted :
    TaskStats → List TokenUsage → Db → Result ℕ × Site → RecordReply × Db × Site
archives_counted st usage db (err _, s) = (record_refused 500 "archive count failed", db, s)
archives_counted st usage db (ok n, s) = (stats_page st usage n, db, s)

abbrev pub usage_read : TaskStats → Db → Result (List TokenUsage) × Site → RecordReply × Db × Site
usage_read st db (err _, s) = (record_refused 500 "token usage failed", db, s)
usage_read st db (ok usage, s) = archives_counted st usage db (count_archives s)

abbrev pub stats_read : Result TaskStats × Db → Site → RecordReply × Db × Site
stats_read (err _, db) s = (record_refused 500 "task stats failed", db, s)
stats_read (ok st, db) s = usage_read st db (token_usage_by_audit 20 s)

unfoldable pub handle_stats : Bool → Bool → Db → Site → RecordReply × Db × Site
unfolding task_stats token_usage_by_audit count_archives
handle_stats is_get allowed db s =
    if not is_get
    then (record_refused 405 "method not allowed", db, s)
    else if not allowed
    then (record_refused 401 "web session or APP token required", db, s)
    else stats_read (task_stats db) s

abbrev pub is_session_rune : ℕ → Bool
is_session_rune c = is_letter c || is_digit_rune c || c == b'_' || c == b'-'

abbrev pub all_session_runes : Text → Bool
all_session_runes [] = true
all_session_runes (c ∷ cs) = is_session_rune c && all_session_runes cs

-- `^[A-Za-z0-9_-]{1,128}$`
unfoldable pub is_valid_session_id : Text → Bool
unfolding is_letter is_digit_rune
is_valid_session_id id = leb 1 (length id) && leb (length id) 128 && all_session_runes id

-- The messages of a session in both formats, where OpenCode sends them; else the text of its error.
pub data Fetched : Type 0 where
  upstream_failed : String → Fetched
  exported : String → String → Fetched

abbrev pub format_of : String → String
format_of format = if str_eq format "" then "markdown" else format

abbrev pub archive_row : String → String → String → String → Archive
archive_row id session_id format content = record {
  id = id;
  session_id = session_id;
  title = str_append "Session " session_id;
  format = format;
  content = content;
  raw_messages = "";
  size = byte_length (codes content);
  created_at = 0;
}

abbrev pub archived : Archive → Result (Unit {0}) × Site → RecordReply × Site
archived a (err _, s) = (record_refused 500 "create archive failed", s)
archived a (ok _, s) = (archive_created a.id a.size a.format, s)

abbrev pub archive_fetched : String → String → String → Fetched → Site → RecordReply × Site
archive_fetched id session_id format (upstream_failed message) s =
    (record_refused 502 (str_append "opencode: " message), s)
archive_fetched id session_id format (exported markdown json) s =
    let row = archive_row id session_id format (if str_eq format "json" then json else markdown) in
    archived row (create_archive row s)

-- `fetch` gives what OpenCode answers for a session id.
unfoldable pub archive_session :
    (String → Fetched) → String → String → String → Site → RecordReply × Site
unfolding is_valid_session_id byte_length create_archive
archive_session fetch id session_id format s =
    if str_eq session_id ""
    then (record_refused 400 "sessionId is required", s)
    else if not (is_valid_session_id (codes session_id))
    then (record_refused 400 "invalid sessionId", s)
    else if not (str_eq (format_of format) "markdown") && not (str_eq (format_of format) "json")
    then (record_refused 400 "format must be markdown or json", s)
    else archive_fetched id session_id (format_of format) (fetch session_id) s

abbrev pub archives_listed : Result (List Archive) × Site → RecordReply × Site
archives_listed (err _, s) = (record_refused 500 "list archives failed", s)
archives_listed (ok items, s) = (archives_page items, s)

-- GET of handleArchives.
unfoldable pub list_archives_handler : Bool → Text → Site → RecordReply × Site
unfolding limit_query list_archives
list_archives_handler allowed limit s =
    if not allowed
    then (record_refused 401 "web session or APP token required", s)
    else archives_listed (list_archives (limit_query limit) s)

abbrev pub archive_read : Result Archive × Site → RecordReply × Site
archive_read (err _, s) = (record_refused 404 "archive not found", s)
archive_read (ok a, s) = (archive_found a, s)

abbrev pub archive_deleted : Result (Unit {0}) × Site → RecordReply × Site
archive_deleted (err _, s) = (record_refused 404 "archive not found", s)
archive_deleted (ok _, s) = (record_done, s)

-- handleArchiveByID: `verb` is none for another method, and true for DELETE.
unfoldable pub handle_archive_by_id : Bool → Option Bool → String → Site → RecordReply × Site
unfolding get_archive delete_archive
handle_archive_by_id allowed verb id s =
    if not allowed
    then (record_refused 401 "web session or APP token required", s)
    else if str_eq id ""
    then (record_refused 400 "missing archive id", s)
    else elim verb [
      | none ↦ (record_refused 405 "method not allowed", s)
      | some delete ↦
          if delete then archive_deleted (delete_archive id s) else archive_read (get_archive id s)
    ]
