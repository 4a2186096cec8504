-- ===== src/Server/Fire.antt =====
-- What the firing of a cron template does to its row, and when its clone is refused.
use opencode_backend.Base.{
  ℕ, Bool, true, false, String, Option, none, some, List, [], ◌∷◌, ◌≡◌, refl, ap, ◌∙◌, ◌&&◌, ltb,
  str_eq, eq_iff, arith, Bool-cases, inl, inr,
}
use opencode_backend.Exec.{Result, ok, err, database, pure}
use opencode_backend.Exec.Runs.{bind_ok, then_ok}
use opencode_backend.Automation.Cron.{Calendar, next_cron_of}
use opencode_backend.Executor.World.{World, ◌>>=◌, ◌>>◌, call, ignore, others}
use opencode_backend.Sql.{count_where, update_where}
use opencode_backend.Server.Scheduler.{
  clone_of, after_clone, after_claim, base_of, is_due, fire_recurring,
}
use opencode_backend.Store.Answers.{sql-calm}
use opencode_backend.Store.Calls.{run_turns}
use opencode_backend.Store.Changes.{count-row}
use opencode_backend.Store.Db.{Db, Statement, sql}
use opencode_backend.Store.Lookup.{row_of, change, row_of-update, row_of-update_if}
use opencode_backend.Store.Tables.{HasDistinctIds}
use opencode_backend.Store.Task.{Task, queued, is_scheduled}
use opencode_backend.Store.Tasks.{
  has_id, exec_update, recurring_update, expected_matches, last_fired_update, claim_recurring_fire,
  set_task_last_fired_at_ptr, create_task, create_task_with_status, insert_row,
}

sql-granted :
    {A : Type 0} (stmt : Statement A) (d : Db) (fs : List Bool)
    → d.faults ≡ false ∷ fs
    → sql stmt d
      ≡ ((stmt d.now d.tasks).0, record d { tasks = (stmt d.now d.tasks).1; faults = fs })
unfolding sql
sql-granted stmt d fs h = rw h refl

sql-refused :
    {A : Type 0} (stmt : Statement A) (d : Db) (fs : List Bool)
    → d.faults ≡ true ∷ fs
    → sql stmt d ≡ (err database, record d { faults = fs })
unfolding sql
sql-refused stmt d fs h = rw h refl

expected_self : (o : Option ℕ) → expected_matches o o ≡ true
expected_self none = refl
expected_self (some n) = ground arith

abbrev fired : ℕ → ℕ → Task → Task
fired now clock t = record t { last_fired_at = some now; updated_at = clock }

abbrev is_template : Option ℕ → Task → Bool
is_template last t = is_scheduled t.status && expected_matches t.last_fired_at last

-- The advance of the cursor, when the database grants it.
claim-granted :
    (t : Task) (now : ℕ) (d : Db) (fs : List Bool)
    → d.faults ≡ false ∷ fs
    → HasDistinctIds d.tasks
    → row_of t.id d.tasks ≡ some t
    → is_scheduled t.status ≡ true
    → claim_recurring_fire t.id t.last_fired_at now d ≡ (
      ok true,
      record d {
        tasks =
            update_where
              (λ x. has_id t.id x && is_template t.last_fired_at x)
              (fired now d.now)
              d.tasks;
        faults = fs;
      },
    )
unfolding claim_recurring_fire exec_update recurring_update pure
claim-granted t now d fs h distinct row planned =
    let hit : ltb 0 (count_where (λ x. has_id t.id x && is_template t.last_fired_at x) d.tasks)
        ≡ true =
      count-row t.id (is_template t.last_fired_at) d.tasks distinct
      ∙ rw (row, planned, expected_self t.last_fired_at) refl in
    bind_ok (exec_update (recurring_update t.id t.last_fired_at now)) (λ n. pure (ltb 0 n))
      (sql-granted _ d fs h)
    ∙ rw hit refl

-- The INSERT of the clone, when the database refuses it, and the rollback of the cursor after it.
rollback-refused :
    (t : Task) (id : String) (w : World)
    → w.db.faults ≡ true ∷ []
    → after_claim t id [] (ok true) w ≡ (
      tt,
      record w {
        db = record w.db {
          tasks =
              update_where
                (has_id t.id)
                ((last_fired_update t.id t.last_fired_at).assign w.db.now)
                w.db.tasks;
          faults = [];
        };
      },
    )
unfolding after_claim after_clone ◌>>=◌ ◌>>◌ call ignore others run_turns create_task
    create_task_with_status set_task_last_fired_at_ptr exec_update last_fired_update pure
rollback-refused t id w h = rw (sql-refused (insert_row (clone_of id t) queued) w.db [] h) (
    ap (λ (r : Result (Unit {0}) × Db). (tt, record w { db = r.1 }))
      (then_ok (exec_update (last_fired_update t.id t.last_fired_at)) (pure tt)
        (sql-calm _ (record w.db { faults = [] }) refl)))

-- The state in which the firing began, but for the time of the template's last change.
pub record RolledBack (t : Task) (w w' : World) : Type 0 where
  pub rows :
      (i : String)
      → row_of i w'.db.tasks
        ≡ change
            (λ x. str_eq i t.id)
            (λ x. record x { updated_at = w.db.now })
            (row_of i w.db.tasks)
  pub pushed : w'.pushed ≡ w.pushed

never :
    (g : Task → Bool) (f h : Task → Task) (o : Option Task)
    → change (λ x. false && g x) f o ≡ change (λ x. false) h o
never g f h none = refl
never g f h (some t) = refl

rolled_back_rows :
    (t : Task) (now clock : ℕ) (ts : List Task)
    → row_of t.id ts ≡ some t
    → is_scheduled t.status ≡ true
    → (i : String)
    → row_of i (
        update_where
          (has_id t.id)
          (λ x. record x { last_fired_at = t.last_fired_at; updated_at = clock })
          (update_where (λ x. has_id t.id x && is_template t.last_fired_at x) (fired now clock) ts))
      ≡ change (λ x. str_eq i t.id) (λ x. record x { updated_at = clock }) (row_of i ts)
rolled_back_rows t now clock ts row planned i =
    row_of-update t.id (λ x. record x { last_fired_at = t.last_fired_at; updated_at = clock })
      (λ x. refl) i _
    ∙ elim (Bool-cases (str_eq i t.id)) [
      | inl e ↦ rw e (
          rw
            (row_of-update_if t.id (fired now clock) (λ x. refl) (is_template t.last_fired_at) t.id
              ts)
            (rw ((eq_iff i t.id).0 e, row) (ground arith)))
      | inr e ↦ rw e (
          row_of-update_if t.id (fired now clock) (λ x. refl) (is_template t.last_fired_at) i ts
          ∙ rw e (
              never (is_template t.last_fired_at) (fired now clock)
                (λ x. record x { updated_at = clock }) (row_of i ts)))
    ]

-- With distinct ids and no other statement in between: a template whose next fire time has come
-- and whose row is as the scheduler read it, the first statement granted and the INSERT of its
-- clone refused: the cursor is put back, no row but the template's changes, and only the time of
-- its last change does; no event is sent.
pub fire_recurring-RolledBack :
    (calendar : Calendar) (new_id : Task → String) (t : Task) (now : ℕ) (w : World)
    → w.db.faults ≡ false ∷ true ∷ []
    → HasDistinctIds w.db.tasks
    → row_of t.id w.db.tasks ≡ some t
    → is_scheduled t.status ≡ true
    → is_due now (next_cron_of calendar now (base_of t) t.cron) ≡ true
    → RolledBack t w (fire_recurring calendar new_id [] t now w).1
unfolding fire_recurring ◌>>=◌ ◌>>◌ call others run_turns last_fired_update
fire_recurring-RolledBack calendar new_id t now w h distinct row planned due =
    let w1 : World = record w {
      db = record w.db {
        tasks =
            update_where (λ x. has_id t.id x && is_template t.last_fired_at x) (fired now w.db.now)
              w.db.tasks;
        faults = true ∷ [];
      };
    } in
    rw (due, claim-granted t now w.db (true ∷ []) h distinct row planned)
      (rw (rollback-refused t (new_id t) w1 refl)
        (record { rows = rolled_back_rows t now w.db.now w.db.tasks row planned; pushed = refl }))
