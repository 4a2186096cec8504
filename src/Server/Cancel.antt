-- ===== src/Server/Cancel.antt =====
-- What DELETE /api/tasks/{id} does to the task and to the tasks that wait on it.
use opencode_backend.Base.{
  ℕ, zero, suc, true, false, String, some, List, [], ◌≡◌, refl, ap, ◌∙◌, ◌&&◌, ltb, str_eq, eq_refl,
  arith, All,
}
use opencode_backend.Exec.{Result, ok, err, pure}
use opencode_backend.Exec.Runs.{bind_ok}
use opencode_backend.Sql.{count_where}
use opencode_backend.Sql.Laws.{update_where-eq_self}
use opencode_backend.Store.Answers.{sql-calm}
use opencode_backend.Executor.Outcomes.{db-for_each}
use opencode_backend.Executor.World.{World, ◌>>=◌, ◌>>◌, give, call, others, push_task_event}
use opencode_backend.Server.Reply.{Reply, ok_body, write_json}
use opencode_backend.Server.Tasks.{
  count_blocked, block_dependents, scheduled_canceled, blocked_reply, after_cancel, cancel_handler,
}
use opencode_backend.Store.Calls.{run_turns}
use opencode_backend.Store.Calm.{Calm-cancel_task}
use opencode_backend.Store.Changes.{
  count-row, passes, cancellable, cancel_task-Guarded, cancel_scheduled_task-Guarded,
}
use opencode_backend.Store.Db.{Db}
use opencode_backend.Store.Dependents.{pending_on, block_dependents-Released}
use opencode_backend.Store.Lookup.{row_of, change}
use opencode_backend.Store.Tables.{HasDistinctIds}
use opencode_backend.Store.Task.{Task, canceled, is_scheduled}
use opencode_backend.Store.Tasks.{
  has_id, exec_update, cancel_update, cancel_task, cancel_scheduled_task,
  block_dependents as block_waiters,
}

abbrev pub canceled_row : ℕ → Task → Task
canceled_row now t = record t { status = canceled; finished_at = some now; updated_at = now }

-- A cancel that succeeds: the reply is 200, the row is canceled now, no pending task waits on it.
pub record CanceledWith (id : String) (r : Task) (now : ℕ) (x : Reply × World) : Type 0 where
  pub code : x.0.code ≡ 200
  pub row : row_of id x.1.db.tasks ≡ some (canceled_row now r)
  pub none_pending : All (λ t. pending_on id t ≡ false) x.1.db.tasks

db-count_blocked :
    (id reason : String) (r : Result (List String)) (w : World)
    → (count_blocked id reason r w).1.db ≡ w.db
unfolding count_blocked ◌>>=◌ ◌>>◌ give push_task_event
db-count_blocked id reason (ok ids) w = db-for_each _ ids w (λ x v. refl)
db-count_blocked id reason (err e) w = refl

db-block_dependents :
    (id reason : String) (w : World)
    → (block_dependents id reason w).1.db ≡ (block_waiters id reason w.db).1
unfolding block_dependents ◌>>=◌ call
db-block_dependents id reason w = db-count_blocked id reason (block_waiters id reason w.db).0 _

code-blocked_reply : (n : ℕ) (w : World) → (blocked_reply n w).0.code ≡ 200
unfolding write_json give
code-blocked_reply zero w = refl
code-blocked_reply (suc n) w = refl

db-blocked_reply : (n : ℕ) (w : World) → (blocked_reply n w).1.db ≡ w.db
unfolding write_json give
db-blocked_reply zero w = refl
db-blocked_reply (suc n) w = refl

after_cancel-true :
    (id : String) (w : World) (r : Task) (now : ℕ)
    → w.db.faults ≡ []
    → row_of id w.db.tasks ≡ some (canceled_row now r)
    → CanceledWith id r now (after_cancel id [] (ok true) w)
unfolding after_cancel ◌>>=◌ ◌>>◌ others run_turns
after_cancel-true id w r now calm row =
    let x = block_dependents id "upstream task canceled" w in
    let same : (after_cancel id [] (ok true) w).1.db
        ≡ (block_waiters id "upstream task canceled" w.db).1 =
      db-blocked_reply x.0 x.1 ∙ db-block_dependents id "upstream task canceled" w in
    let released = block_dependents-Released id "upstream task canceled" w.db calm in
    record {
      code = code-blocked_reply x.0 x.1;
      row = ap (λ (d : Db). row_of id d.tasks) same ∙ released.rows id ∙ rw row (ground arith);
      none_pending = rw same released.none_left;
    }

-- On a database that refuses nothing, with distinct ids and no other statement in between, a cancel
-- of a task that is queued, pending or running answers 200; its row is canceled and finished now,
-- and no pending task waits on it any more.
pub cancel_handler-CanceledWith :
    (id : String) (w : World) (r : Task)
    → w.db.faults ≡ []
    → HasDistinctIds w.db.tasks
    → row_of id w.db.tasks ≡ some r
    → cancellable r ≡ true
    → CanceledWith id r w.db.now (cancel_handler id [] w)
unfolding cancel_handler ◌>>=◌ call
cancel_handler-CanceledWith id w r calm distinct row may =
    let w1 : World = record w { db = (cancel_task id w.db).1 } in
    let g = cancel_task-Guarded id w.db calm distinct in
    let won : (cancel_task id w.db).0 ≡ ok true = g.0 ∙ ap ok (rw row may) in
    let calm1 : w1.db.faults ≡ [] = ((Calm-cancel_task w.db.now id).at w.db (calm, refl)).0 in
    rw won (after_cancel-true id w1 r w.db.now calm1 (g.1 id ∙ rw row (ground (arith, eq_refl id))))

-- The reply, and the rows after the cancel of a planned task.
pub record OnlyCanceled (id : String) (w : World) (x : Reply × World) : Type 0 where
  pub reply : x.0 ≡ record { code = 200; body = ok_body }
  pub rows :
      (i : String)
      → row_of i x.1.db.tasks
        ≡ change
            (λ t. str_eq i id && is_scheduled t.status)
            (canceled_row w.db.now)
            (row_of i w.db.tasks)

-- A cancel of a task that is not cancellable changes nothing.
cancel_task-idle :
    (id : String) (d : Db)
    → d.faults ≡ []
    → HasDistinctIds d.tasks
    → passes cancellable (row_of id d.tasks) ≡ false
    → cancel_task id d ≡ (ok false, d)
unfolding cancel_task exec_update cancel_update pure
cancel_task-idle id d calm h idle =
    let none_hit : count_where (λ t. has_id id t && cancellable t) d.tasks ≡ 0 =
      ground (arith, count-row id cancellable d.tasks h) in
    bind_ok (exec_update (cancel_update id)) (λ n. pure (ltb 0 n)) (sql-calm _ d calm)
    ∙ rw (none_hit, update_where-eq_self _ ((cancel_update id).assign d.now) d.tasks none_hit)

planned_not_cancellable : (r : Task) → is_scheduled r.status ≡ true → cancellable r ≡ false
planned_not_cancellable r h = ground arith

after_cancel-false :
    (id : String) (w : World) (r : Task)
    → w.db.faults ≡ []
    → HasDistinctIds w.db.tasks
    → row_of id w.db.tasks ≡ some r
    → is_scheduled r.status ≡ true
    → OnlyCanceled id w (after_cancel id [] (ok false) w)
unfolding after_cancel ◌>>=◌ ◌>>◌ call others run_turns scheduled_canceled push_task_event
    write_json give
after_cancel-false id w r calm distinct row may =
    let g = cancel_scheduled_task-Guarded id w.db calm distinct in
    let won : (cancel_scheduled_task id w.db).0 ≡ ok true = g.0 ∙ ap ok (rw row may) in
    rw won (record { reply = refl; rows = g.1 })

-- On a database that refuses nothing, with distinct ids and no other statement in between, a cancel
-- of a planned task answers 200; its row is canceled and finished now, and no other row changes:
-- the tasks that wait on it stay pending.
pub cancel_handler-OnlyCanceled :
    (id : String) (w : World) (r : Task)
    → w.db.faults ≡ []
    → HasDistinctIds w.db.tasks
    → row_of id w.db.tasks ≡ some r
    → is_scheduled r.status ≡ true
    → OnlyCanceled id w (cancel_handler id [] w)
unfolding cancel_handler ◌>>=◌ call
cancel_handler-OnlyCanceled id w r calm distinct row may =
    rw (cancel_task-idle id w.db calm distinct (rw row (planned_not_cancellable r may)))
      (after_cancel-false id w r calm distinct row may)
