-- ===== src/Records/Stats.antt =====
-- internal/store/stats.go: the counters over the table of tasks.
use opencode_backend.Base.{ℕ, ◌+◌, Bool, true, false, List, [], ◌∷◌, if◌then◌else◌, ltb, ◌==◌}
use opencode_backend.Exec.{ok, pure, ◌>>=◌}
use opencode_backend.Sql.{count_where}
use opencode_backend.Store.Task.{
  Task, Status, queued, running, succeeded, failed, canceled, pending, blocked, scheduled,
  is_queued, is_running, is_failed, is_canceled, is_pending, is_blocked, is_scheduled,
}
use opencode_backend.Store.Db.{Query, sql}

pub record TaskStats : Type 0 where
  pub queued_count : ℕ
  pub running_count : ℕ
  pub succeeded_count : ℕ
  pub failed_count : ℕ
  pub canceled_count : ℕ
  pub pending_count : ℕ
  pub blocked_count : ℕ
  pub retried : ℕ
  pub total : ℕ

abbrev is_succeeded : Status → Bool
is_succeeded succeeded = true
is_succeeded _ = false

abbrev is_status : Status → Status → Bool
is_status queued t = is_queued t
is_status running t = is_running t
is_status succeeded t = is_succeeded t
is_status failed t = is_failed t
is_status canceled t = is_canceled t
is_status pending t = is_pending t
is_status blocked t = is_blocked t
is_status scheduled t = is_scheduled t

unfoldable pub count_status : List Task → Status → ℕ
unfolding count_where
count_status ts status = count_where (λ t. is_status status (Task.status t)) ts

-- GROUP BY status: a row for each status that some task has. The order is the database's.
unfoldable pub group_statuses : List Task → List Status → List (Status × ℕ)
unfolding count_status
group_statuses ts [] = []
group_statuses ts (st ∷ sts) =
    let rest = group_statuses ts sts in
    if count_status ts st == 0 then rest else (st, count_status ts st) ∷ rest

-- One turn of the loop over the rows.
unfoldable pub add_group : Status → ℕ → TaskStats → TaskStats
add_group queued n st = record st { queued_count = n; total = st.total + n }
add_group running n st = record st { running_count = n; total = st.total + n }
add_group succeeded n st = record st { succeeded_count = n; total = st.total + n }
add_group failed n st = record st { failed_count = n; total = st.total + n }
add_group canceled n st = record st { canceled_count = n; total = st.total + n }
add_group pending n st = record st { pending_count = n; total = st.total + n }
add_group blocked n st = record st { blocked_count = n; total = st.total + n }
add_group scheduled n st = record st { total = st.total + n }

unfoldable pub add_groups : List (Status × ℕ) → TaskStats → TaskStats
unfolding add_group
add_groups [] st = st
add_groups ((status, n) ∷ rows) st = add_groups rows (add_group status n st)

abbrev pub no_stats : TaskStats
no_stats = record {
  queued_count = 0;
  running_count = 0;
  succeeded_count = 0;
  failed_count = 0;
  canceled_count = 0;
  pending_count = 0;
  blocked_count = 0;
  retried = 0;
  total = 0;
}

abbrev pub all_statuses : List Status
all_statuses = queued ∷ running ∷ succeeded ∷ failed ∷ canceled ∷ pending ∷ blocked ∷ scheduled ∷ []

unfoldable pub task_stats : Query TaskStats
unfolding sql group_statuses add_groups count_where ◌>>=◌ pure
task_stats = sql (λ now ts. (ok (group_statuses ts all_statuses), ts)) >>= λ rows.
    sql (λ now ts. (ok (count_where (λ t. ltb 1 (Task.attempts t)) ts), ts)) >>= λ n.
    pure (record (add_groups rows no_stats) { retried = n })
