-- ===== src/Store/Tasks/Methods.antt =====
-- The methods themselves: a statement each, or two in a row.
use opencode_backend.Base.{
  true, false, suc, ℕ, Bool, String, Option, none, some, List, [], ◌∷◌, ◌&&◌, ◌||◌, ltb, ◌==◌,
  if◌then◌else◌, str_eq, map, ◌/◌,
}
use opencode_backend.Base.Int.{negsuc, pos, ℤ}
use opencode_backend.Exec.{database, Result, ok, err, not_found, pure, ◌>>=◌, ◌>>◌}
use opencode_backend.Sql.{select_where, update_where, count_where, find_where, order_by}
use opencode_backend.Sql.Order.{ascending}
use opencode_backend.Store.Db.{Statement, Query, sql, second}
use opencode_backend.Store.Task.{
  Status, Task, status_text, queued, is_pending, is_canceled, is_scheduled,
}
use opencode_backend.Store.Tasks.Statements.{
  Update, has_id, complete_update, fail_update, cancel_update, promote_update, block_update,
  unblock_update, recover_update, promote_scheduled_update, progress_update, session_update,
  ai_summary_update, last_fired_update, recurring_update, cancel_scheduled_update, insert_row,
  claim_rows, list_rows, retry_rows, purge_rows, kept_count,
}

-- `ExecContext` of an UPDATE, with `RowsAffected`.
unfoldable pub exec_update : Update → Query ℕ
exec_update u =
    sql (λ now ts. (ok (count_where u.matches ts), update_where u.matches (u.assign now) ts))

unfoldable pub create_task_with_status : Task → Status → Query (Unit {0})
create_task_with_status t status = sql (insert_row t status)

unfoldable pub create_task : Task → Query (Unit {0})
unfolding create_task_with_status
create_task t = create_task_with_status t queued

unfoldable pub list_tasks : String → ℕ → ℕ → Query (List Task)
list_tasks status limit offset d = sql (list_rows d.postgres status limit offset) d

unfoldable pub count_tasks : String → Query ℕ
count_tasks status = sql (λ now ts. (
  ok (count_where (λ (t : Task). str_eq status "" || str_eq (status_text t.status) status) ts),
  ts,
))

-- sql.ErrNoRows is ErrNotFound
abbrev pub found_row : Option Task → Result Task
found_row none = err not_found
found_row (some t) = ok t

unfoldable pub get_task : String → Query Task
get_task id = sql (λ now ts. (found_row (find_where (has_id id) ts), ts))

unfoldable pub claim_next_task : Query Task
claim_next_task = sql claim_rows

unfoldable pub update_task_progress : String → String → Query (Unit {0})
unfolding exec_update
update_task_progress id progress = do exec_update (progress_update id progress); pure tt

unfoldable pub set_task_session : String → String → Query (Unit {0})
unfolding exec_update
set_task_session id session = do exec_update (session_update id session); pure tt

unfoldable pub complete_task : String → String → Query (Unit {0})
unfolding exec_update
complete_task id result = do exec_update (complete_update id result); pure tt

unfoldable pub set_task_ai_summary : String → String → Query (Unit {0})
unfolding exec_update
set_task_ai_summary id summary = do exec_update (ai_summary_update id summary); pure tt

unfoldable pub fail_task : String → String → Query (Unit {0})
unfolding exec_update
fail_task id message = do exec_update (fail_update id message); pure tt

unfoldable pub retry_task : String → ℤ → Query (Unit {0})
retry_task id backoff = sql (retry_rows id backoff)

unfoldable pub cancel_task : String → Query Bool
unfolding exec_update
cancel_task id = do n ← exec_update (cancel_update id); pure (ltb 0 n)

-- One UPDATE with RETURNING id.
unfoldable pub promote_pending_dependents : String → Query (List String)
promote_pending_dependents upstream =
    let u = promote_update upstream in
    sql (λ now ts. (
      ok (map (λ (t : Task). t.id) (select_where u.matches ts)),
      update_where u.matches (u.assign now) ts,
    ))

-- `dependentIDs` at the one state that its caller gives, `pending`.
unfoldable pub dependent_ids : String → Query (List String)
dependent_ids upstream = sql (λ now ts. (
  ok (
      map (λ (t : Task). t.id)
        (select_where (λ t. str_eq t.depends_on upstream && is_pending t.status) ts)),
  ts,
))

-- `if len(ids) == 0` before the UPDATE
abbrev pub block_found : String → String → List String → Query (List String)
block_found upstream reason [] = pure []
block_found upstream reason (id ∷ ids) = do
  exec_update (block_update upstream reason)
  pure (id ∷ ids)

-- Two statements, so other statements may run in between.
unfoldable pub block_dependents : String → String → Query (List String)
unfolding exec_update dependent_ids
block_dependents upstream reason = do ids ← dependent_ids upstream; block_found upstream reason ids

unfoldable pub unblock_task : String → Query Bool
unfolding exec_update
unblock_task id = do n ← exec_update (unblock_update id); pure (ltb 0 n)

abbrev pub canceled_row : Option Task → Result Bool
canceled_row none = err not_found
canceled_row (some t) = ok (is_canceled t.status)

unfoldable pub is_task_canceled : String → Query Bool
is_task_canceled id = sql (λ now ts. (canceled_row (find_where (has_id id) ts), ts))

unfoldable pub recover_stale_running : Query ℕ
unfolding exec_update
recover_stale_running = exec_update recover_update

unfoldable pub list_scheduled_tasks : Query (List Task)
list_scheduled_tasks = sql (λ now ts. (
  ok (
      order_by (ascending (λ (t : Task). t.created_at))
        (select_where (λ (t : Task). is_scheduled t.status) ts)),
  ts,
))

unfoldable pub promote_scheduled_task : String → Query Bool
unfolding exec_update
promote_scheduled_task id = do n ← exec_update (promote_scheduled_update id); pure (ltb 0 n)

unfoldable pub set_task_last_fired_at : String → ℕ → Query (Unit {0})
unfolding exec_update
set_task_last_fired_at id at = do exec_update (last_fired_update id (some at)); pure tt

unfoldable pub set_task_last_fired_at_ptr : String → Option ℕ → Query (Unit {0})
unfolding exec_update
set_task_last_fired_at_ptr id at = do exec_update (last_fired_update id at); pure tt

unfoldable pub claim_recurring_fire : String → Option ℕ → ℕ → Query Bool
unfolding exec_update
claim_recurring_fire id expected fire = do
  n ← exec_update (recurring_update id expected fire)
  pure (ltb 0 n)

unfoldable pub cancel_scheduled_task : String → Query Bool
unfolding exec_update
cancel_scheduled_task id = do n ← exec_update (cancel_scheduled_update id); pure (ltb 0 n)

-- `older_than` is a duration in nanoseconds, of which whole seconds count; `if limit <= 0`.
unfoldable pub purge_finished_tasks : ℕ → ℕ → Query (ℕ × ℕ)
purge_finished_tasks older_than limit =
    let rows : ℕ = if limit == 0 then 500 else limit in
    let secs = older_than / second in
    do deleted ← sql (purge_rows secs rows); kept ← sql (kept_count secs); pure (deleted, kept)

-- A negative number of seconds, which `itoa` prints as nothing: the cutoff is NULL in SQLite, and
-- PostgreSQL refuses the interval.
abbrev pub no_cutoff : Bool → Statement ℕ
no_cutoff true now ts = (err database, ts)
no_cutoff false now ts = (ok 0, ts)

unfoldable pub purge_without_cutoff : Query (ℕ × ℕ)
purge_without_cutoff d =
    (do
      deleted ← sql (no_cutoff d.postgres)
      kept ← sql (no_cutoff d.postgres)
      pure (deleted, kept))
      d

-- PurgeFinishedTasks for any duration: a negative one of less than a second counts as 0.
unfoldable pub purge_finished_tasks_after : ℤ → ℕ → Query (ℕ × ℕ)
unfolding purge_finished_tasks purge_without_cutoff
purge_finished_tasks_after (pos n) limit = purge_finished_tasks n limit
purge_finished_tasks_after (negsuc n) limit =
    if ltb (suc n) second then purge_finished_tasks 0 limit else purge_without_cutoff
