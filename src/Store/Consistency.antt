-- ===== src/Store/Consistency.antt =====
-- What every row of the table `tasks` satisfies, and the diagram of status changes. Each method of
-- internal/store/task.go that writes keeps the first and follows the second, also when the database
-- refuses a statement.
use opencode_backend.Base.{Option, ℕ, ◌<◌, true, String, none, ◌≡◌, ◌≢◌, refl, arith}
use opencode_backend.Store.Task.{
  Status, Task, queued, running, succeeded, failed, canceled, pending, blocked, scheduled,
}
use opencode_backend.Store.Tasks.{
  cancel_scheduled_update, recurring_update, last_fired_update, promote_scheduled_update,
  recover_update, unblock_update, block_update, promote_update, retry_update, fail_update,
  ai_summary_update, session_update, Update, complete_update, cancel_update, progress_update,
}

-- A row that stands in a status has the columns that the status promises.
pub record IsSound (t : Task) : Type 0 where
  pub claimed : t.status ≡ running → 0 < t.attempts
  pub started : t.status ≡ running → t.started_at ≢ none
  pub succeeded_at : t.status ≡ succeeded → t.finished_at ≢ none
  pub failed_at : t.status ≡ failed → t.finished_at ≢ none
  pub canceled_at : t.status ≡ canceled → t.finished_at ≢ none
  pub blocked_at : t.status ≡ blocked → t.finished_at ≢ none

-- The status changes of the store.
pub data Moves : Status → Status → Type 0 where
  stay : {s : Status} → Moves s s
  claim : Moves queued running
  complete : {s : Status} → Moves s succeeded
  fail : {s : Status} → Moves s failed
  retry : Moves failed queued
  cancel_queued : Moves queued canceled
  cancel_pending : Moves pending canceled
  cancel_running : Moves running canceled
  promote : Moves pending queued
  unblock : Moves blocked queued
  block : Moves pending blocked
  recover : Moves running queued
  due : Moves scheduled queued
  drop : Moves scheduled canceled

pub ruleset moves = (
  stay, claim, complete, fail, retry, cancel_queued, cancel_pending, cancel_running, promote,
  unblock, block, recover, due, drop,
)

-- What an UPDATE does to each row that it matches.
pub record IsLegal (u : Update) : Type 0 where
  pub same_id : (now : ℕ) (t : Task) → (u.assign now t).id ≡ t.id
  pub sound : (now : ℕ) (t : Task) → IsSound t → u.matches t ≡ true → IsSound (u.assign now t)
  pub moves : (now : ℕ) (t : Task) → u.matches t ≡ true → Moves t.status (u.assign now t).status

pub progress_update-IsLegal : (id p : String) → IsLegal (progress_update id p)
unfolding progress_update
progress_update-IsLegal id p = record {
  same_id = λ now t. refl;
  sound = λ now t s m. ground arith;
  moves = λ now t m. stay;
}

pub complete_update-IsLegal : (id r : String) → IsLegal (complete_update id r)
unfolding complete_update
complete_update-IsLegal id r = record {
  same_id = λ now t. refl;
  sound = λ now t s m. ground arith;
  moves = λ now t m. complete;
}

pub cancel_update-IsLegal : (id : String) → IsLegal (cancel_update id)
unfolding cancel_update
cancel_update-IsLegal id = record {
  same_id = λ now t. refl;
  sound = λ now t s m. ground arith;
  moves = λ now t m. grind (arith, moves);
}

pub session_update-IsLegal : (id x : String) → IsLegal (session_update id x)
unfolding session_update
session_update-IsLegal id x = record {
  same_id = λ now t. refl;
  sound = λ now t s m. ground arith;
  moves = λ now t m. stay;
}

pub ai_summary_update-IsLegal : (id x : String) → IsLegal (ai_summary_update id x)
unfolding ai_summary_update
ai_summary_update-IsLegal id x = record {
  same_id = λ now t. refl;
  sound = λ now t s m. ground arith;
  moves = λ now t m. stay;
}

pub fail_update-IsLegal : (id x : String) → IsLegal (fail_update id x)
unfolding fail_update
fail_update-IsLegal id x = record {
  same_id = λ now t. refl;
  sound = λ now t s m. ground arith;
  moves = λ now t m. fail;
}

pub retry_update-IsLegal : (id : String) (b : ℕ) → IsLegal (retry_update id b)
unfolding retry_update
retry_update-IsLegal id b = record {
  same_id = λ now t. refl;
  sound = λ now t s m. ground arith;
  moves = λ now t m. grind (arith, moves);
}

pub promote_update-IsLegal : (up : String) → IsLegal (promote_update up)
unfolding promote_update
promote_update-IsLegal up = record {
  same_id = λ now t. refl;
  sound = λ now t s m. ground arith;
  moves = λ now t m. grind (arith, moves);
}

pub block_update-IsLegal : (up reason : String) → IsLegal (block_update up reason)
unfolding block_update
block_update-IsLegal up reason = record {
  same_id = λ now t. refl;
  sound = λ now t s m. ground arith;
  moves = λ now t m. grind (arith, moves);
}

pub unblock_update-IsLegal : (id : String) → IsLegal (unblock_update id)
unfolding unblock_update
unblock_update-IsLegal id = record {
  same_id = λ now t. refl;
  sound = λ now t s m. ground arith;
  moves = λ now t m. grind (arith, moves);
}

pub recover_update-IsLegal : IsLegal recover_update
unfolding recover_update
recover_update-IsLegal = record {
  same_id = λ now t. refl;
  sound = λ now t s m. ground arith;
  moves = λ now t m. grind (arith, moves);
}

pub promote_scheduled_update-IsLegal : (id : String) → IsLegal (promote_scheduled_update id)
unfolding promote_scheduled_update
promote_scheduled_update-IsLegal id = record {
  same_id = λ now t. refl;
  sound = λ now t s m. ground arith;
  moves = λ now t m. grind (arith, moves);
}

pub last_fired_update-IsLegal : (id : String) (at : Option ℕ) → IsLegal (last_fired_update id at)
unfolding last_fired_update
last_fired_update-IsLegal id at = record {
  same_id = λ now t. refl;
  sound = λ now t s m. ground arith;
  moves = λ now t m. stay;
}

pub recurring_update-IsLegal :
    (id : String) (e : Option ℕ) (fire : ℕ) → IsLegal (recurring_update id e fire)
unfolding recurring_update
recurring_update-IsLegal id e fire = record {
  same_id = λ now t. refl;
  sound = λ now t s m. ground arith;
  moves = λ now t m. stay;
}

pub cancel_scheduled_update-IsLegal : (id : String) → IsLegal (cancel_scheduled_update id)
unfolding cancel_scheduled_update
cancel_scheduled_update-IsLegal id = record {
  same_id = λ now t. refl;
  sound = λ now t s m. ground arith;
  moves = λ now t m. grind (arith, moves);
}

pub ruleset legal_updates = (
  progress_update-IsLegal, complete_update-IsLegal, cancel_update-IsLegal, session_update-IsLegal,
  ai_summary_update-IsLegal, fail_update-IsLegal, retry_update-IsLegal, promote_update-IsLegal,
  block_update-IsLegal, unblock_update-IsLegal, recover_update-IsLegal,
  promote_scheduled_update-IsLegal, last_fired_update-IsLegal, recurring_update-IsLegal,
  cancel_scheduled_update-IsLegal,
)
