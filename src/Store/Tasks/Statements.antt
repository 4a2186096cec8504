-- ===== src/Store/Tasks/Statements.antt =====
-- The SQL text of internal/store/task.go, statement by statement.
use opencode_backend.Base.{
  ℕ, zero, suc, ◌+◌, ◌*◌, Bool, true, false, String, Option, none, some, List, [], ◌∷◌, ◌++◌, ◌&&◌,
  ◌||◌, not, ltb, leb, ◌==◌, if◌then◌else◌, str_eq, drop,
}
use opencode_backend.Base.Int.{ℤ, pos, negsuc}
use opencode_backend.Exec.{Result, ok, err, not_found, database}
use opencode_backend.Sql.{
  select_where, update_where, delete_where, count_where, exists_where, order_by, limit_rows,
}
use opencode_backend.Sql.Order.{first_row, ascending}
use opencode_backend.Store.Db.{Statement, second}
use opencode_backend.Store.Task.{
  Status, Task, status_text, queued, running, succeeded, failed, canceled, blocked, is_queued,
  is_running, is_failed, is_pending, is_blocked, is_scheduled, is_terminal,
}

-- `UPDATE tasks SET ... WHERE ...`
pub record Update : Type 0 where
  pub matches : Task → Bool
  pub assign : ℕ → Task → Task

-- WHERE id = ?
abbrev pub has_id : String → Task → Bool
has_id id t = str_eq t.id id

unfoldable pub claim_update : String → Update
claim_update id = record {
  matches = has_id id;
  assign = λ now t. record t {
    status = running;
    attempts = t.attempts + 1;
    started_at = some now;
    updated_at = now;
  };
}

unfoldable pub progress_update : String → String → Update
progress_update id progress = record {
  matches = has_id id;
  assign = λ now t. record t { progress = progress; updated_at = now };
}

unfoldable pub session_update : String → String → Update
session_update id session = record {
  matches = has_id id;
  assign = λ now t. record t { session_id = session; updated_at = now };
}

unfoldable pub complete_update : String → String → Update
complete_update id result = record {
  matches = has_id id;
  assign = λ now t. record t {
    status = succeeded;
    result = result;
    finished_at = some now;
    updated_at = now;
  };
}

unfoldable pub ai_summary_update : String → String → Update
ai_summary_update id summary = record {
  matches = has_id id;
  assign = λ now t. record t { ai_summary = summary; updated_at = now };
}

unfoldable pub fail_update : String → String → Update
fail_update id message = record {
  matches = has_id id;
  assign = λ now t. record t {
    status = failed;
    error = message;
    finished_at = some now;
    updated_at = now;
  };
}

unfoldable pub retry_update : String → ℕ → Update
retry_update id backoff = record {
  matches = λ t. has_id id t && is_failed t.status;
  assign = λ now t. record t {
    status = queued;
    error = "";
    finished_at = none;
    available_at = now + backoff * second;
    updated_at = now;
  };
}

unfoldable pub cancel_update : String → Update
cancel_update id = record {
  matches = λ t. has_id id t && (is_queued t.status || is_pending t.status || is_running t.status);
  assign = λ now t. record t { status = canceled; finished_at = some now; updated_at = now };
}

unfoldable pub promote_update : String → Update
promote_update upstream = record {
  matches = λ t. str_eq t.depends_on upstream && (is_pending t.status || is_blocked t.status);
  assign = λ now t. record t { status = queued; error = ""; available_at = now; updated_at = now };
}

unfoldable pub block_update : String → String → Update
block_update upstream reason = record {
  matches = λ t. str_eq t.depends_on upstream && is_pending t.status;
  assign = λ now t. record t {
    status = blocked;
    error = reason;
    finished_at = some now;
    updated_at = now;
  };
}

unfoldable pub unblock_update : String → Update
unblock_update id = record {
  matches = λ t. has_id id t && is_blocked t.status;
  assign = λ now t. record t {
    status = queued;
    error = "";
    finished_at = none;
    available_at = now;
    updated_at = now;
  };
}

unfoldable pub recover_update : Update
recover_update = record {
  matches = λ t. is_running t.status;
  assign = λ now t. record t { status = queued; started_at = none; updated_at = now };
}

unfoldable pub promote_scheduled_update : String → Update
promote_scheduled_update id = record {
  matches = λ t. has_id id t && is_scheduled t.status;
  assign = λ now t. record t { status = queued; available_at = now; updated_at = now };
}

unfoldable pub last_fired_update : String → Option ℕ → Update
last_fired_update id at = record {
  matches = has_id id;
  assign = λ now t. record t { last_fired_at = at; updated_at = now };
}

-- (last_fired_at IS NULL AND ? IS NULL) OR last_fired_at = ?
abbrev pub expected_matches : Option ℕ → Option ℕ → Bool
expected_matches none none = true
expected_matches none (some e) = false
expected_matches (some l) none = false
expected_matches (some l) (some e) = l == e

unfoldable pub recurring_update : String → Option ℕ → ℕ → Update
recurring_update id expected fire = record {
  matches =
      λ t. has_id id t && (is_scheduled t.status && expected_matches t.last_fired_at expected);
  assign = λ now t. record t { last_fired_at = some fire; updated_at = now };
}

unfoldable pub cancel_scheduled_update : String → Update
cancel_scheduled_update id = record {
  matches = λ t. has_id id t && is_scheduled t.status;
  assign = λ now t. record t { status = canceled; finished_at = some now; updated_at = now };
}

-- The row that the INSERT of `CreateTaskWithStatus` writes, columns with a default included.
unfoldable pub new_row : ℕ → Task → Status → Task
new_row now t status = record t {
  status = status;
  error = "";
  result = "";
  progress = "";
  ai_summary = "";
  attempts = 0;
  created_at = now;
  updated_at = now;
  started_at = none;
  finished_at = none;
  available_at = now;
  last_fired_at = none;
}

-- `id` is the primary key, so a second row with it is refused.
unfoldable pub insert_row : Task → Status → Statement (Unit {0})
insert_row t status now ts =
    if exists_where (has_id t.id) ts
    then (err database, ts)
    else (ok tt, ts ++ new_row now t status ∷ [])

unfoldable pub list_rows : Bool → String → ℕ → ℕ → Statement (List Task)
list_rows postgres status limit offset now ts =
    let filtered =
      select_where (λ (t : Task). str_eq status "" || str_eq (status_text t.status) status) ts in
    let newest = order_by (λ (y x : Task). ltb x.created_at y.created_at) filtered in
    -- SQLite has no OFFSET without LIMIT
    if limit == 0 && ltb 0 offset && not postgres
    then (err database, ts)
    else (ok (limit_rows limit (drop offset newest)), ts)

-- WHERE status = 'queued' AND available_at <= CURRENT_TIMESTAMP
unfoldable pub claimable : ℕ → Task → Bool
claimable now t = is_queued t.status && leb t.available_at now

-- SELECT id ... ORDER BY created_at ASC LIMIT 1
unfoldable pub oldest_claimable : ℕ → List Task → Option Task
oldest_claimable now ts =
    first_row (order_by (ascending (λ (t : Task). t.created_at)) (select_where (claimable now) ts))

-- The UPDATE of the row that the sub-select names, and RETURNING.
unfoldable pub claim_row : Option Task → Statement Task
claim_row none now ts = (err not_found, ts)
claim_row (some c) now ts =
    let u = claim_update c.id in (ok (u.assign now c), update_where u.matches (u.assign now) ts)

unfoldable pub claim_rows : Statement Task
unfolding claim_row
claim_rows now ts = claim_row (oldest_claimable now ts) now ts

unfoldable pub not_found_if_zero : ℕ → Result (Unit {0})
not_found_if_zero zero = err not_found
not_found_if_zero (suc n) = ok tt

-- `itoa` writes no digit for a negative number, and `'+ seconds'` is no interval: SQLite computes
-- NULL for the NOT NULL column `available_at`, and PostgreSQL refuses the cast.
unfoldable pub retry_rows : String → ℤ → Statement (Unit {0})
unfolding retry_update not_found_if_zero
retry_rows id (pos backoff) now ts =
    let u = retry_update id backoff in
    (not_found_if_zero (count_where u.matches ts), update_where u.matches (u.assign now) ts)
retry_rows id (negsuc n) now ts =
    if exists_where (retry_update id 0).matches ts then (err database, ts) else (err not_found, ts)

-- the statuses of `activeStatuses`
abbrev pub is_active : Status → Bool
is_active s = not (is_terminal s)

-- id IN (SELECT depends_on FROM tasks WHERE depends_on <> '' AND status IN (active))
unfoldable pub is_referenced : List Task → Task → Bool
is_referenced ts t =
    exists_where
      (λ (u : Task). not (str_eq u.depends_on "") && is_active u.status && str_eq u.depends_on t.id)
      ts

-- status IN (terminal) AND updated_at < now - secs
unfoldable pub purgeable : ℕ → ℕ → Task → Bool
purgeable now secs t = is_terminal t.status && ltb (t.updated_at + secs * second) now

unfoldable pub purge_rows : ℕ → ℕ → Statement ℕ
purge_rows secs limit now ts =
    let expired = select_where (λ t. purgeable now secs t && not (is_referenced ts t)) ts in
    let batch = limit_rows limit (order_by (ascending (λ (t : Task). t.updated_at)) expired) in
    let doomed = λ (t : Task). exists_where (has_id t.id) batch in
    (ok (count_where doomed ts), delete_where doomed ts)

unfoldable pub kept_count : ℕ → Statement ℕ
kept_count secs now ts = (ok (count_where (λ t. purgeable now secs t && is_referenced ts t) ts), ts)
