-- ===== src/Store/Dependents.antt =====
-- The tasks that wait on another: `PromotePendingDependents` and `BlockDependents`.
use opencode_backend.Base.{
  ℕ, Bool, false, some, List, [], ◌∷◌, ◌≡◌, refl, ap, sym, ◌∙◌, String, map, arith, All, str_eq,
  ◌&&◌, ◌||◌, length,
}
use opencode_backend.Exec.{Result, ok, pure}
use opencode_backend.Exec.Runs.{bind_ok, then_ok}
use opencode_backend.Sql.{select_where, count_where}
use opencode_backend.Sql.Laws.{
  All-update_where_each, length-select_where, update_where-eq_self, All-of_count_where,
}
use opencode_backend.Store.Answers.{sql-calm}
use opencode_backend.Store.Db.{Db}
use opencode_backend.Store.Lookup.{row_of, change, row_of-update_where}
use opencode_backend.Store.Task.{Task, queued, blocked, is_pending, is_blocked}
use opencode_backend.Store.Tasks.{
  exec_update, promote_update, block_update, promote_pending_dependents, dependent_ids, block_found,
  block_dependents,
}

abbrev pub waits_on : String → Task → Bool
waits_on up t = str_eq t.depends_on up && (is_pending t.status || is_blocked t.status)

abbrev pub pending_on : String → Task → Bool
pending_on up t = str_eq t.depends_on up && is_pending t.status

abbrev pub promoted : ℕ → Task → Task
promoted now t = record t { status = queued; error = ""; available_at = now; updated_at = now }

abbrev pub blocked_by : ℕ → String → Task → Task
blocked_by now reason t = record t {
  status = blocked;
  error = reason;
  finished_at = some now;
  updated_at = now;
}

abbrev pub ids_of : (Task → Bool) → List Task → List String
ids_of p ts = map (λ (t : Task). t.id) (select_where p ts)

-- What a release of the waiters of `up` reports and leaves.
pub record Released (waiting : Task → Bool) (f : Task → Task) (d : Db)
    (r : Result (List String) × Db) : Type 0 where
  pub reported : r.0 ≡ ok (ids_of waiting d.tasks)
  pub none_left : All (λ t. waiting t ≡ false) r.1.tasks
  pub rows : (id : String) → row_of id r.1.tasks ≡ change waiting f (row_of id d.tasks)

-- With no refused statement, a promotion reports exactly the ids of the tasks that wait on `up`,
-- pending or blocked; it queues those rows, available now and with their error cleared, leaves no
-- task waiting on `up`, and changes no other row.
pub promote_pending_dependents-Released :
    (up : String) (d : Db)
    → d.faults ≡ []
    → Released (waits_on up) (promoted d.now) d (promote_pending_dependents up d)
unfolding promote_pending_dependents promote_update
promote_pending_dependents-Released up d calm = rw (sql-calm _ d calm) (record {
  reported = refl;
  none_left =
      All-update_where_each (λ t. waits_on up t ≡ false) (waits_on up) (promoted d.now)
        (λ t. ground arith) d.tasks;
  rows = λ id. row_of-update_where (waits_on up) (promoted d.now) (λ t. refl) id d.tasks;
})

map-empty : (ts : List Task) → map (λ (t : Task). t.id) ts ≡ [] → length ts ≡ 0
map-empty [] e = refl
map-empty (t ∷ ts) e = cc

block_found-Released :
    (up reason : String) (ids : List String) (d : Db)
    → d.faults ≡ []
    → ids_of (pending_on up) d.tasks ≡ ids
    → Released (pending_on up) (blocked_by d.now reason) d (block_found up reason ids d)
unfolding block_update exec_update pure
block_found-Released up reason [] d calm e =
    let empty : count_where (pending_on up) d.tasks ≡ 0 =
      omega (arith, map-empty _ e, length-select_where (pending_on up) d.tasks) in
    let same = update_where-eq_self (pending_on up) (blocked_by d.now reason) d.tasks empty in
    record {
      reported = ap ok (sym e);
      none_left = All-of_count_where (pending_on up) d.tasks empty;
      rows = λ id.
          ap (row_of id) (sym same)
          ∙ row_of-update_where (pending_on up) (blocked_by d.now reason) (λ t. refl) id d.tasks;
    }
block_found-Released up reason (id ∷ ids) d calm e =
    rw (then_ok (exec_update (block_update up reason)) (pure (id ∷ ids)) (sql-calm _ d calm))
      (record {
        reported = ap ok (sym e);
        none_left =
            All-update_where_each (λ t. pending_on up t ≡ false) (pending_on up)
              (blocked_by d.now reason) (λ t. ground arith) d.tasks;
        rows = λ i.
            row_of-update_where (pending_on up) (blocked_by d.now reason) (λ t. refl) i d.tasks;
      })

-- With no refused statement and no other statement between its two, a blocking reports exactly the
-- ids of the pending tasks that wait on `up`; it blocks those rows with the reason as their error
-- and a finish time, leaves no pending task waiting on `up`, and changes no other row.
pub block_dependents-Released :
    (up reason : String) (d : Db)
    → d.faults ≡ []
    → Released (pending_on up) (blocked_by d.now reason) d (block_dependents up reason d)
unfolding block_dependents dependent_ids
block_dependents-Released up reason d calm =
    rw (bind_ok (dependent_ids up) (block_found up reason) (sql-calm _ d calm))
      (block_found-Released up reason _ d calm refl)
