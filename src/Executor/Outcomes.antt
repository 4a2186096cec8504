-- ===== src/Executor/Outcomes.antt =====
-- What a task's row looks like when the executor is through with it: completion, failure, and the
-- retry that the executor asks for.
use opencode_backend.Base.{
  ℕ, zero, suc, ◌≤◌, ◌<◌, Bool, false, String, some, List, [], ◌∷◌, ◌≡◌, refl, ap, ◌∙◌,
  if◌then◌else◌, ◌&&◌, ltb, str_eq, eq_refl, arith, All, Bool-cases, inl, inr,
}
use opencode_backend.Base.Int.{ℤ, pos, negsuc}
use opencode_backend.Exec.{Result, ok, err, not_found, pure}
use opencode_backend.Exec.Runs.{then_ok}
use opencode_backend.Sql.{update_where, count_where, exists_where}
use opencode_backend.Sql.Laws.{update_where-eq_self}
use opencode_backend.Executor.Execute.{
  Executor, Script, for_each, promoted_events, blocked_events, release_dependents, stop_dependents,
  push_task, after_retry, retry_with_backoff, fail_with_retry, settle, backoff_secs,
}
use opencode_backend.Executor.Upstream.{success}
use opencode_backend.Executor.World.{
  World, Act, ◌>>=◌ as act_bind, ◌>>◌ as act_then, call, ignore, push_task_event, start, done,
}
use opencode_backend.Store.Answers.{sql-calm}
use opencode_backend.Store.Changes.{passes, count-row}
use opencode_backend.Store.Db.{Db}
use opencode_backend.Store.Dependents.{
  promoted, waits_on, pending_on, promote_pending_dependents-Released, block_dependents-Released,
}
use opencode_backend.Store.Lookup.{change, row_of, row_of-update}
use opencode_backend.Store.Tables.{HasDistinctIds}
use opencode_backend.Store.Task.{Task, running, succeeded, failed, is_failed}
use opencode_backend.Store.Tasks.{
  has_id, exec_update, complete_update, fail_update, complete_task, fail_task, retry_task,
  retry_rows, retry_update, not_found_if_zero, promote_pending_dependents, block_dependents,
}

-- Broadcasts leave the database alone.
pub db-for_each :
    (f : String → Act (Unit {0})) (xs : List String) (w : World)
    → ((x : String) (v : World) → (f x v).1.db ≡ v.db)
    → (for_each f xs w).1.db ≡ w.db
unfolding for_each done act_bind act_then
db-for_each f [] w h = refl
db-for_each f (x ∷ xs) w h = db-for_each f xs (f x w).1 h ∙ h x w

db-promoted_events :
    (id : String) (r : Result (List String)) (w : World) → (promoted_events id r w).1.db ≡ w.db
unfolding promoted_events done push_task_event
db-promoted_events id (ok ids) w = db-for_each _ ids w (λ x v. refl)
db-promoted_events id (err e) w = refl

db-blocked_events :
    (id reason : String) (r : Result (List String)) (w : World)
    → (blocked_events id reason r w).1.db ≡ w.db
unfolding blocked_events done push_task_event
db-blocked_events id reason (ok ids) w = db-for_each _ ids w (λ x v. refl)
db-blocked_events id reason (err e) w = refl

abbrev pub reason_or_default : String → String
reason_or_default reason = if str_eq reason "" then "upstream task failed" else reason

pub db-release_dependents :
    (id : String) (w : World)
    → (release_dependents id w).1.db ≡ (promote_pending_dependents id w.db).1
unfolding release_dependents act_bind call
db-release_dependents id w = db-promoted_events id (promote_pending_dependents id w.db).0 _

pub db-stop_dependents :
    (id reason : String) (w : World)
    → (stop_dependents id reason w).1.db ≡ (block_dependents id (reason_or_default reason) w.db).1
unfolding stop_dependents act_bind call
db-stop_dependents id reason w =
    db-blocked_events id (reason_or_default reason)
      (block_dependents id (reason_or_default reason) w.db).0 _

-- An unguarded update on a calm database.
complete_task-calm :
    (id result : String) (d : Db)
    → d.faults ≡ []
    → (complete_task id result d).1 ≡ record d {
      tasks = update_where (has_id id) ((complete_update id result).assign d.now) d.tasks;
    }
unfolding complete_task exec_update complete_update pure
complete_task-calm id result d calm =
    ap (λ r. r.1) (then_ok (exec_update (complete_update id result)) (pure tt) (sql-calm _ d calm))

fail_task-calm :
    (id message : String) (d : Db)
    → d.faults ≡ []
    → (fail_task id message d).1 ≡ record d {
      tasks = update_where (has_id id) ((fail_update id message).assign d.now) d.tasks;
    }
unfolding fail_task exec_update fail_update pure
fail_task-calm id message d calm =
    ap (λ r. r.1) (then_ok (exec_update (fail_update id message)) (pure tt) (sql-calm _ d calm))

abbrev pub failed_row : ℕ → String → Task → Task
failed_row now message t = record t {
  status = failed;
  error = message;
  finished_at = some now;
  updated_at = now;
}

abbrev pub succeeded_row : ℕ → String → Task → Task
succeeded_row now result t = record t {
  status = succeeded;
  result = result;
  finished_at = some now;
  updated_at = now;
}

-- The row `r` of the id is left as `r'`, and no pending task waits on the id.
pub record Stopped (id : String) (r' : Task) (d : Db) : Type 0 where
  pub row : row_of id d.tasks ≡ some r'
  pub none_pending : All (λ t. pending_on id t ≡ false) d.tasks

row-fail_task :
    (id message : String) (d : Db) (r : Task)
    → d.faults ≡ []
    → row_of id d.tasks ≡ some r
    → row_of id (fail_task id message d).1.tasks ≡ some (failed_row d.now message r)
unfolding fail_update
row-fail_task id message d r calm e =
    ap (λ (x : Db). row_of id x.tasks) (fail_task-calm id message d calm)
    ∙ rw (row_of-update id (failed_row d.now message) (λ t. refl) id d.tasks, eq_refl, e)

-- `FailTask` and `BlockDependents` in a row.
fail_then_block :
    (id message why : String) (d : Db) (r : Task)
    → d.faults ≡ []
    → row_of id d.tasks ≡ some r
    → Stopped id (failed_row d.now message r) (block_dependents id why (fail_task id message d).1).1
fail_then_block id message why d r calm e =
    let d1 = (fail_task id message d).1 in
    let calm1 : d1.faults ≡ [] = rw (fail_task-calm id message d calm) calm in
    let blocked = block_dependents-Released id why d1 calm1 in
    record {
      row = blocked.rows id ∙ rw (row-fail_task id message d r calm e) (ground arith);
      none_pending = blocked.none_left;
    }

-- A retry of a task that is not failed is refused, and changes nothing.
exists-of_count :
    (p : Task → Bool) (ts : List Task) → count_where p ts ≡ 0 → exists_where p ts ≡ false
unfolding count_where exists_where
exists-of_count p [] h = refl
exists-of_count p (t ∷ ts) h = ground (arith, exists-of_count p ts)

pub retry_task_idle :
    (id : String) (backoff : ℤ) (d : Db)
    → d.faults ≡ []
    → HasDistinctIds d.tasks
    → passes (λ t. is_failed t.status) (row_of id d.tasks) ≡ false
    → retry_task id backoff d ≡ (err not_found, d)
unfolding retry_task retry_rows retry_update not_found_if_zero
retry_task_idle id (pos b) d calm h idle =
    let none_hit : count_where (λ t. has_id id t && is_failed t.status) d.tasks ≡ 0 =
      ground (arith, count-row id (λ t. is_failed t.status) d.tasks h) in
    sql-calm (retry_rows id (pos b)) d calm
    ∙ rw (none_hit, update_where-eq_self _ ((retry_update id b).assign d.now) d.tasks none_hit)
retry_task_idle id (negsuc b) d calm h idle =
    let none_hit : count_where (λ t. has_id id t && is_failed t.status) d.tasks ≡ 0 =
      ground (arith, count-row id (λ t. is_failed t.status) d.tasks h) in
    sql-calm (retry_rows id (negsuc b)) d calm ∙ rw (exists-of_count _ d.tasks none_hit)

after_retry-err :
    (t : Task) (message : String) (w : World) (r : Task) (x : Result (Unit {0}))
    → x ≡ err not_found
    → w.db.faults ≡ []
    → row_of t.id w.db.tasks ≡ some r
    → Stopped t.id (failed_row w.db.now message r) (after_retry t message x w).1.db
unfolding after_retry act_bind act_then ignore push_task push_task_event
after_retry-err t message w r (ok u) e calm row = cc
after_retry-err t message w r (err x) e calm row =
    rw (db-stop_dependents t.id message (record w { db = (fail_task t.id message w.db).1 }))
      (fail_then_block t.id message (reason_or_default message) w.db r calm row)

backoff_secs-some : (n : ℕ) → 0 < n → (b : ℤ) × (backoff_secs n ≡ some b)
unfolding backoff_secs
backoff_secs-some zero h = absurd (omega arith)
backoff_secs-some (suc k) h = (_, refl)

retry_with_backoff-running :
    (t : Task) (message : String) (b : ℤ) (w : World) (r : Task)
    → w.db.faults ≡ []
    → HasDistinctIds w.db.tasks
    → row_of t.id w.db.tasks ≡ some r
    → r.status ≡ running
    → Stopped t.id (failed_row w.db.now message r) (retry_with_backoff t message (some b) w).1.db
unfolding retry_with_backoff act_bind call
retry_with_backoff-running t message b w r calm h row run =
    let idle = retry_task_idle t.id b w.db calm h (rw row (ground arith)) in
    rw idle (after_retry-err t message w r (err not_found) refl calm row)

-- A task that fails while it is running, after at least one attempt and with attempts left, is not
-- queued again: on a database that refuses nothing, with distinct ids, its row ends failed, with
-- the error of this attempt and a finish time, and no pending task waits on it any more.
pub fail_with_retry-running :
    (e : Executor) (s : Script) (t : Task) (message : String) (w : World) (r : Task)
    → w.db.faults ≡ []
    → HasDistinctIds w.db.tasks
    → row_of t.id w.db.tasks ≡ some r
    → r.status ≡ running
    → 0 < t.attempts
    → t.attempts ≤ e.max_retries
    → Stopped t.id (failed_row w.db.now message r) (fail_with_retry e s t message w).1.db
unfolding fail_with_retry
fail_with_retry-running e s t message w r calm h row run pos_attempts left =
    let (b, q) = backoff_secs-some t.attempts pos_attempts in
    let more : ltb e.max_retries t.attempts ≡ false = ground arith in
    rw more (rw q (retry_with_backoff-running t message b w r calm h row run))

-- The row of the id ends as `r'`; of the other rows of `d`, those that waited on the id, pending or
-- blocked, are queued, available now and with their error cleared, and the rest stay; no task waits
-- on the id any more.
pub record Succeeded (id : String) (r' : Task) (d d' : Db) : Type 0 where
  pub row : row_of id d'.tasks ≡ some r'
  pub others :
      (x : String)
      → str_eq x id ≡ false
      → row_of x d'.tasks ≡ change (waits_on id) (promoted d.now) (row_of x d.tasks)
  pub none_waiting : All (λ t. waits_on id t ≡ false) d'.tasks

row-complete_task :
    (id result : String) (d : Db) (r : Task)
    → d.faults ≡ []
    → row_of id d.tasks ≡ some r
    → row_of id (complete_task id result d).1.tasks ≡ some (succeeded_row d.now result r)
unfolding complete_update
row-complete_task id result d r calm e =
    ap (λ (x : Db). row_of id x.tasks) (complete_task-calm id result d calm)
    ∙ rw (row_of-update id (succeeded_row d.now result) (λ t. refl) id d.tasks, eq_refl, e)

other_row-complete_task :
    (id result x : String) (d : Db)
    → d.faults ≡ []
    → str_eq x id ≡ false
    → row_of x (complete_task id result d).1.tasks ≡ row_of x d.tasks
unfolding complete_update
other_row-complete_task id result x d calm other =
    ap (λ (y : Db). row_of x y.tasks) (complete_task-calm id result d calm)
    ∙ rw (row_of-update id (succeeded_row d.now result) (λ t. refl) x d.tasks, other) refl

complete_then_promote :
    (id result : String) (d : Db) (r : Task)
    → d.faults ≡ []
    → row_of id d.tasks ≡ some r
    → Succeeded id
        (succeeded_row d.now result r)
        d
        (promote_pending_dependents id (complete_task id result d).1).1
complete_then_promote id result d r calm e =
    let d1 = (complete_task id result d).1 in
    let calm1 : d1.faults ≡ [] = rw (complete_task-calm id result d calm) calm in
    let released = promote_pending_dependents-Released id d1 calm1 in
    record {
      row = released.rows id ∙ rw (row-complete_task id result d r calm e) (ground arith);
      others = λ x other.
          released.rows x
          ∙ ap (λ (y : Db). change (waits_on id) (promoted y.now) (row_of x d1.tasks))
              (complete_task-calm id result d calm)
          ∙ ap (change (waits_on id) (promoted d.now))
              (other_row-complete_task id result x d calm other);
      none_waiting = released.none_left;
    }

complete_then_release :
    (id result : String) (w : World) (r : Task)
    → w.db.faults ≡ []
    → row_of id w.db.tasks ≡ some r
    → Succeeded id
        (succeeded_row w.db.now result r)
        w.db
        (release_dependents id (record w { db = (complete_task id result w.db).1 })).1.db
complete_then_release id result w r calm row =
    rw (db-release_dependents id (record w { db = (complete_task id result w.db).1 }))
      (complete_then_promote id result w.db r calm row)

-- When the session has answered, on a database that refuses nothing, the row of the task, if it is
-- there, ends succeeded with the answer as its result and a finish time, whatever its status was,
-- a cancel in the meantime included; every other row that waited on it, pending or blocked, is
-- queued, available now and with its error cleared, and every other row stays.
pub settle-success :
    (e : Executor) (s : Script) (t : Task) (result : String) (w : World) (r : Task)
    → w.db.faults ≡ []
    → row_of t.id w.db.tasks ≡ some r
    → Succeeded t.id (succeeded_row w.db.now result r) w.db (settle e s t (success result) w).1.db
unfolding settle act_bind act_then ignore push_task push_task_event start done
settle-success e s t result w r calm row =
    let released = complete_then_release t.id result w r calm row in
    elim (Bool-cases e.llm_enabled) [ inl q ↦ rw q released | inr q ↦ rw q released ]
