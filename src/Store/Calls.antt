-- ===== src/Store/Calls.antt =====
-- The store under any sequence of calls: workers, the scheduler, the HTTP handlers and the janitor
-- share one database, and each order of their calls is a list of calls.
use opencode_backend.Base.{All, some, ℕ, Bool, true, String, Option, List, [], ◌∷◌, ◌≡◌}
use opencode_backend.Base.Int.{ℤ}
use opencode_backend.Exec.{pure, ◌>>=◌, ◌>>◌}
use opencode_backend.Exec.Keeps.{Keeps, Keeps-bind, Keeps-then, Keeps-pure}
use opencode_backend.Store.Consistency.{
  cancel_scheduled_update-IsLegal, recurring_update-IsLegal, last_fired_update-IsLegal,
  promote_scheduled_update-IsLegal, recover_update-IsLegal, unblock_update-IsLegal,
  cancel_update-IsLegal, fail_update-IsLegal, ai_summary_update-IsLegal, complete_update-IsLegal,
  session_update-IsLegal, progress_update-IsLegal, IsLegal,
}
use opencode_backend.Store.Db.{Db}
use opencode_backend.Store.Tables.{
  IsConsistent, Consistent, is_initial, Keeps-exec_update, Keeps-create_task_with_status,
  Keeps-claim_next_task, Keeps-retry_task, Keeps-purge_finished_tasks,
  Keeps-promote_pending_dependents, Keeps-block_dependents,
}
use opencode_backend.Store.Task.{Status, Task}
use opencode_backend.Store.Tasks.{
  Update, exec_update, create_task_with_status, claim_next_task, retry_task, update_task_progress,
  set_task_session, complete_task, set_task_ai_summary, fail_task, cancel_task,
  promote_pending_dependents, block_dependents, unblock_task, recover_stale_running,
  promote_scheduled_task, set_task_last_fired_at, set_task_last_fired_at_ptr, claim_recurring_fire,
  cancel_scheduled_task, purge_finished_tasks,
}

-- An UPDATE, and a result made of the number of its rows.
Keeps-update :
    {A : Type 0} (u : Update)
    → IsLegal u
    → (f : ℕ → A) → Keeps Consistent (exec_update u >>= λ n. pure (f n))
Keeps-update u legal f = Keeps-bind (Keeps-exec_update u legal) (λ n. Keeps-pure (f n))

Keeps-update_only :
    (u : Update) → IsLegal u → Keeps Consistent (exec_update u >> pure {S = Db} {A = Unit {0}} tt)
Keeps-update_only u legal = Keeps-then (Keeps-exec_update u legal) (Keeps-pure tt)

Keeps-update_task_progress : (id p : String) → Keeps Consistent (update_task_progress id p)
unfolding update_task_progress
Keeps-update_task_progress id p = Keeps-update_only _ (progress_update-IsLegal id p)

Keeps-set_task_session : (id x : String) → Keeps Consistent (set_task_session id x)
unfolding set_task_session
Keeps-set_task_session id x = Keeps-update_only _ (session_update-IsLegal id x)

Keeps-complete_task : (id x : String) → Keeps Consistent (complete_task id x)
unfolding complete_task
Keeps-complete_task id x = Keeps-update_only _ (complete_update-IsLegal id x)

Keeps-set_task_ai_summary : (id x : String) → Keeps Consistent (set_task_ai_summary id x)
unfolding set_task_ai_summary
Keeps-set_task_ai_summary id x = Keeps-update_only _ (ai_summary_update-IsLegal id x)

Keeps-fail_task : (id x : String) → Keeps Consistent (fail_task id x)
unfolding fail_task
Keeps-fail_task id x = Keeps-update_only _ (fail_update-IsLegal id x)

Keeps-cancel_task : (id : String) → Keeps Consistent (cancel_task id)
unfolding cancel_task
Keeps-cancel_task id = Keeps-update _ (cancel_update-IsLegal id) _

Keeps-unblock_task : (id : String) → Keeps Consistent (unblock_task id)
unfolding unblock_task
Keeps-unblock_task id = Keeps-update _ (unblock_update-IsLegal id) _

Keeps-recover_stale_running : Keeps Consistent recover_stale_running
unfolding recover_stale_running
Keeps-recover_stale_running = Keeps-exec_update _ recover_update-IsLegal

Keeps-promote_scheduled_task : (id : String) → Keeps Consistent (promote_scheduled_task id)
unfolding promote_scheduled_task
Keeps-promote_scheduled_task id = Keeps-update _ (promote_scheduled_update-IsLegal id) _

Keeps-set_task_last_fired_at :
    (id : String) (at : ℕ) → Keeps Consistent (set_task_last_fired_at id at)
unfolding set_task_last_fired_at
Keeps-set_task_last_fired_at id at = Keeps-update_only _ (last_fired_update-IsLegal id (some at))

Keeps-set_task_last_fired_at_ptr :
    (id : String) (at : Option ℕ) → Keeps Consistent (set_task_last_fired_at_ptr id at)
unfolding set_task_last_fired_at_ptr
Keeps-set_task_last_fired_at_ptr id at = Keeps-update_only _ (last_fired_update-IsLegal id at)

Keeps-claim_recurring_fire :
    (id : String) (e : Option ℕ) (fire : ℕ) → Keeps Consistent (claim_recurring_fire id e fire)
unfolding claim_recurring_fire
Keeps-claim_recurring_fire id e fire = Keeps-update _ (recurring_update-IsLegal id e fire) _

Keeps-cancel_scheduled_task : (id : String) → Keeps Consistent (cancel_scheduled_task id)
unfolding cancel_scheduled_task
Keeps-cancel_scheduled_task id = Keeps-update _ (cancel_scheduled_update-IsLegal id) _

-- A call of a method that writes, with its arguments.
pub data Call : Type 0 where
  create : Task → Status → Call
  claim recover : Call
  progress session complete ai_summary fail : String → String → Call
  retry : String → ℤ → Call
  cancel promote unblock promote_scheduled cancel_scheduled : String → Call
  block : String → String → Call
  last_fired : String → Option ℕ → Call
  recurring : String → Option ℕ → ℕ → Call
  purge : ℕ → ℕ → Call

-- The state that the call leaves; its result is the caller's.
unfoldable pub perform : Call → Db → Db
perform (create t s) d = (create_task_with_status t s d).1
perform claim d = (claim_next_task d).1
perform recover d = (recover_stale_running d).1
perform (progress id x) d = (update_task_progress id x d).1
perform (session id x) d = (set_task_session id x d).1
perform (complete id x) d = (complete_task id x d).1
perform (ai_summary id x) d = (set_task_ai_summary id x d).1
perform (fail id x) d = (fail_task id x d).1
perform (retry id b) d = (retry_task id b d).1
perform (cancel id) d = (cancel_task id d).1
perform (promote up) d = (promote_pending_dependents up d).1
perform (unblock id) d = (unblock_task id d).1
perform (promote_scheduled id) d = (promote_scheduled_task id d).1
perform (cancel_scheduled id) d = (cancel_scheduled_task id d).1
perform (block up reason) d = (block_dependents up reason d).1
perform (last_fired id at) d = (set_task_last_fired_at_ptr id at d).1
perform (recurring id e fire) d = (claim_recurring_fire id e fire d).1
perform (purge older limit) d = (purge_finished_tasks older limit d).1

-- CreateTask and the handlers insert rows in an initial status: queued, pending or scheduled.
abbrev pub StartsInitial : Call → Type 0
StartsInitial (create t s) = is_initial s ≡ true
StartsInitial _ = Unit {0}

perform-IsConsistent :
    (c : Call) (d : Db) → StartsInitial c → Consistent d → Consistent (perform c d)
unfolding perform
perform-IsConsistent (create t s) d i h = (Keeps-create_task_with_status t s i).at d h
perform-IsConsistent claim d i h = Keeps-claim_next_task.at d h
perform-IsConsistent recover d i h = Keeps-recover_stale_running.at d h
perform-IsConsistent (progress id x) d i h = (Keeps-update_task_progress id x).at d h
perform-IsConsistent (session id x) d i h = (Keeps-set_task_session id x).at d h
perform-IsConsistent (complete id x) d i h = (Keeps-complete_task id x).at d h
perform-IsConsistent (ai_summary id x) d i h = (Keeps-set_task_ai_summary id x).at d h
perform-IsConsistent (fail id x) d i h = (Keeps-fail_task id x).at d h
perform-IsConsistent (retry id b) d i h = (Keeps-retry_task id b).at d h
perform-IsConsistent (cancel id) d i h = (Keeps-cancel_task id).at d h
perform-IsConsistent (promote up) d i h = (Keeps-promote_pending_dependents up).at d h
perform-IsConsistent (unblock id) d i h = (Keeps-unblock_task id).at d h
perform-IsConsistent (promote_scheduled id) d i h = (Keeps-promote_scheduled_task id).at d h
perform-IsConsistent (cancel_scheduled id) d i h = (Keeps-cancel_scheduled_task id).at d h
perform-IsConsistent (block up reason) d i h = (Keeps-block_dependents up reason).at d h
perform-IsConsistent (last_fired id at) d i h = (Keeps-set_task_last_fired_at_ptr id at).at d h
perform-IsConsistent (recurring id e fire) d i h = (Keeps-claim_recurring_fire id e fire).at d h
perform-IsConsistent (purge older limit) d i h = (Keeps-purge_finished_tasks older limit).at d h

-- Other statements run at later times, and the database may refuse some of them.
pub record Turn : Type 0 where
  pub call : Call
  pub now : ℕ
  pub faults : List Bool

unfoldable pub run_turns : Db → List Turn → Db
run_turns d [] = d
run_turns d (t ∷ ts) = run_turns (perform t.call (record d { now = t.now; faults = t.faults })) ts

-- From a table of sound rows with distinct ids, any sequence of calls of the store's writing
-- methods, at any times and with any statements refused, in which rows are only created queued,
-- pending or scheduled, leaves sound rows with distinct ids: a running row has been claimed at least
-- once and has a start time, and a succeeded, failed, canceled or blocked row has a finish time.
pub run_turns-IsConsistent :
    (d : Db) (turns : List Turn)
    → All (λ t. StartsInitial (Turn.call t)) turns
    → IsConsistent d.tasks
    → IsConsistent (run_turns d turns).tasks
unfolding run_turns
run_turns-IsConsistent d [] i h = h
run_turns-IsConsistent d (t ∷ ts) (i, is) h =
    run_turns-IsConsistent (perform t.call (record d { now = t.now; faults = t.faults })) ts is
      (perform-IsConsistent t.call (record d { now = t.now; faults = t.faults }) i h)
