-- ===== src/Store/Tests.antt =====
-- The theorems on the store at a table of three rows: one that waits for a worker, one that waits
-- on it, and a cron template.
use opencode_backend.Base.{
  ℕ, true, false, String, Option, none, some, [], ◌∷◌, ◌≡◌, ◌≢◌, refl, arith,
}
use opencode_backend.Exec.{Result, ok, err, not_found}
use opencode_backend.Sql.{find_where, exists_where}
use opencode_backend.Store.Db.{Db, second}
use opencode_backend.Store.Task.{Task, Status, queued, pending, running, scheduled}
use opencode_backend.Store.Tasks.{
  has_id, claim_next_task, cancel_task, retry_task, unblock_task, promote_pending_dependents,
  block_dependents, claim_recurring_fire, purge_finished_tasks, claimable, insert_row,
  expected_matches, promote_scheduled_task, cancel_scheduled_task,
}
use opencode_backend.Store.Tables.{HasDistinctIds, IsConsistent}
use opencode_backend.Store.Consistency.{IsSound}
use opencode_backend.Store.Calls.{
  Turn, Call, claim, fail, cancel, run_turns, run_turns-IsConsistent,
}
use opencode_backend.Store.Claim.{Claimed, claim_next_task-Claimed, claim_twice}
use opencode_backend.Store.Changes.{claim_recurring_fire_once}
use opencode_backend.Store.Lookup.{row_of}
use opencode_backend.Store.Purge.{Purged, purge_finished_tasks-Purged}
use opencode_backend.Store.Dependents.{
  Released, waits_on, pending_on, promoted, blocked_by, promote_pending_dependents-Released,
  block_dependents-Released,
}

abbrev pub sample : String → Status → Task
sample id status = record {
  id = id;
  session_id = "";
  directory = "/srv";
  name = id;
  prompt = "run";
  depends_on = "";
  status = status;
  error = "";
  result = "";
  progress = "";
  ai_summary = "";
  attempts = 0;
  created_at = 5;
  updated_at = 5;
  started_at = none;
  finished_at = none;
  available_at = 5;
  scheduled_at = none;
  cron = "";
  last_fired_at = none;
}

abbrev pub first : Task
first = sample "a" queued

abbrev pub waiter : Task
waiter = record (sample "b" pending) { depends_on = "a"; created_at = 6 }

abbrev pub template : Task
template = record (sample "c" scheduled) { cron = "* * * * * *" }

abbrev pub other : Task
other = sample "d" queued

abbrev pub table : Db
table = record {
  tasks = first ∷ waiter ∷ template ∷ other ∷ [];
  now = 10;
  faults = [];
  postgres = false;
}

pub table-HasDistinctIds : HasDistinctIds table.tasks
unfolding exists_where
table-HasDistinctIds = (refl, (refl, (refl, (refl, tt))))

queued-IsSound : (id : String) → IsSound (sample id queued)
queued-IsSound id = ground arith

pub table-IsConsistent : IsConsistent table.tasks
table-IsConsistent = record {
  rows = (queued-IsSound "a", (ground arith, (ground arith, (queued-IsSound "d", tt))));
  ids = table-HasDistinctIds;
}

abbrev turn : Call → Turn
turn c = record { call = c; now = 20; faults = [] }

run_turns-IsConsistent_example :
    IsConsistent
      (run_turns table (turn claim ∷ turn (fail "a" "lost") ∷ turn (cancel "b") ∷ [])).tasks
run_turns-IsConsistent_example =
    run_turns-IsConsistent table (turn claim ∷ turn (fail "a" "lost") ∷ turn (cancel "b") ∷ [])
      (tt, (tt, (tt, tt))) table-IsConsistent

abbrev claimed_row : Task → Task
claimed_row t = record t { status = running; attempts = 1; started_at = some 10; updated_at = 10 }

claim_next_task-Claimed_example : Claimed table (claimed_row first) (claim_next_task table).1
unfolding claim_next_task opencode_backend.Store.Db.sql opencode_backend.Store.Tasks.claim_rows
    opencode_backend.Store.Tasks.oldest_claimable opencode_backend.Sql.order_by
    opencode_backend.Sql.select_where claimable opencode_backend.Store.Tasks.claim_update
claim_next_task-Claimed_example =
    claim_next_task-Claimed table (claimed_row first) table-HasDistinctIds refl

claim_twice_example : (claimed_row first).id ≢ (claimed_row other).id
unfolding claim_next_task opencode_backend.Store.Db.sql opencode_backend.Store.Tasks.claim_rows
    opencode_backend.Store.Tasks.oldest_claimable opencode_backend.Sql.order_by
    opencode_backend.Sql.select_where claimable opencode_backend.Store.Tasks.claim_update
    opencode_backend.Sql.update_where
claim_twice_example =
    claim_twice table (claimed_row first) (claimed_row other) table-IsConsistent refl refl

abbrev idle : Db
idle = record table { tasks = waiter ∷ template ∷ [] }

promote_pending_dependents-Released_example :
    Released (waits_on "a") (promoted 10) table (promote_pending_dependents "a" table)
promote_pending_dependents-Released_example = promote_pending_dependents-Released "a" table refl

block_dependents-Released_example :
    Released (pending_on "a") (blocked_by 10 "lost") table (block_dependents "a" "lost" table)
block_dependents-Released_example = block_dependents-Released "a" "lost" table refl

abbrev advanced : Db
advanced = record table { tasks = (claim_recurring_fire "c" none 9 table).1.tasks; now = 11 }

advanced-HasDistinctIds : HasDistinctIds advanced.tasks
unfolding claim_recurring_fire opencode_backend.Exec.◌>>=◌ opencode_backend.Store.Db.sql
    opencode_backend.Sql.update_where exists_where opencode_backend.Store.Tasks.recurring_update
advanced-HasDistinctIds = (refl, (refl, (refl, (refl, tt))))

advanced-won : (claim_recurring_fire "c" none 9 table).0 ≡ ok true
unfolding claim_recurring_fire opencode_backend.Exec.◌>>=◌ opencode_backend.Store.Db.sql
    opencode_backend.Sql.count_where opencode_backend.Store.Tasks.recurring_update
advanced-won = refl

not_nine : (o : Option ℕ) → o ≡ none → o ≢ some 9
not_nine o e = λ h. cc

claim_recurring_fire_once_example :
    ((claim_recurring_fire "c" none 10 advanced).0 ≡ ok false)
    × ((id : String)
        → row_of id (claim_recurring_fire "c" none 10 advanced).1.tasks ≡ row_of id advanced.tasks)
claim_recurring_fire_once_example =
    claim_recurring_fire_once "c" none 9 10 table advanced refl table-HasDistinctIds
      (not_nine none refl) advanced-won refl advanced-HasDistinctIds refl

purge_finished_tasks-Purged_example :
    (deleted : ℕ) × (kept : ℕ) × ((purge_finished_tasks 0 0 table).0 ≡ ok (deleted, kept))
    × Purged 0 table deleted (purge_finished_tasks 0 0 table).1
purge_finished_tasks-Purged_example =
    purge_finished_tasks-Purged 0 0 table refl table-HasDistinctIds
