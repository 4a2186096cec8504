-- ===== src/Store/Tasks.antt =====
-- internal/store/task.go: the methods of `sqlStore` on the table `tasks`, one definition for each
-- method over the statement that it sends. An UPDATE is its WHERE test and its SET list.
mod Statements
mod Methods
pub use Statements.{Update, has_id, expected_matches}
unfoldable pub use Statements.{
  complete_update, fail_update, retry_update, cancel_update, promote_update, block_update,
  unblock_update, recover_update, promote_scheduled_update, claim_update, progress_update,
  session_update, ai_summary_update, last_fired_update, recurring_update, cancel_scheduled_update,
  new_row, insert_row, claim_rows, claim_row, oldest_claimable, claimable, list_rows, retry_rows,
  purgeable, is_active, is_referenced, purge_rows, kept_count, not_found_if_zero,
}
unfoldable pub use Methods.{
  exec_update, block_found, found_row, canceled_row, create_task_with_status, create_task,
  list_tasks, count_tasks, get_task, claim_next_task, update_task_progress, set_task_session,
  complete_task, set_task_ai_summary, fail_task, retry_task, cancel_task,
  promote_pending_dependents, dependent_ids, block_dependents, unblock_task, is_task_canceled,
  recover_stale_running, list_scheduled_tasks, promote_scheduled_task, set_task_last_fired_at,
  set_task_last_fired_at_ptr, claim_recurring_fire, cancel_scheduled_task, purge_finished_tasks,
  purge_finished_tasks_after,
}
