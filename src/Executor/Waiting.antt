-- ===== src/Executor/Waiting.antt =====
-- The wait for an answer: cancellation while the executor polls, the backoff of a retry, and the
-- retry that the LLM grants.
use Prim.Native.String.{◌++◌ as str_append}
use opencode_backend.Base.{
  ℕ, zero, suc, ◌*◌, ◌^◌, ◌<◌, min, Bool, true, false, String, none, some, List, [], ◌∷◌, ◌≡◌, refl,
  ap, ◌∙◌, ◌&&◌, ◌==◌, str_eq, eq_refl, arith, All,
}
use opencode_backend.Base.Int.{ℤ, pos, negsuc, int64}
use opencode_backend.Exec.{Result, pure}
use opencode_backend.Exec.Runs.{then_ok}
use opencode_backend.Executor.Execute.{
  Executor, Script, Round, FailureDecision, backoff_secs, canceled_now, start_round,
  wait_until_idle, settle, finish_canceled, decide, push_task,
}
use opencode_backend.Executor.Upstream.{canceled}
use opencode_backend.Executor.Outcomes.{db-stop_dependents, reason_or_default, retry_task_idle}
use opencode_backend.Executor.World.{World, ◌>>=◌, ◌>>◌, call, give, ignore, push_task_event}
use opencode_backend.Store.Answers.{sql-calm}
use opencode_backend.Store.Db.{Db}
use opencode_backend.Store.Dependents.{pending_on, block_dependents-Released}
use opencode_backend.Store.Lookup.{row_of, row_of-update}
use opencode_backend.Store.Tables.{HasDistinctIds}
use opencode_backend.Store.Task.{Task, running, is_canceled}
use opencode_backend.Store.Tasks.{
  is_task_canceled, exec_update, progress_update, canceled_row, update_task_progress,
}

-- The table of the first 61 powers.
all_below : ℕ → (ℕ → Bool) → Bool
all_below zero p = true
all_below (suc n) p = p n && all_below n p

all_below-at : (n : ℕ) (p : ℕ → Bool) (x : ℕ) → all_below n p ≡ true → x < n → p x ≡ true
unfolding all_below
all_below-at zero p x h lt = absurd (omega arith)
all_below-at (suc n) p x h lt = ground (arith, all_below-at n p x)

abbrev int_eq : ℤ → ℤ → Bool
int_eq (pos a) (pos b) = a == b
int_eq (negsuc a) (negsuc b) = a == b
int_eq _ _ = false

int_eq→eq : (a b : ℤ) → int_eq a b ≡ true → a ≡ b
int_eq→eq (pos a) (pos b) h = ground arith
int_eq→eq (negsuc a) (negsuc b) h = ground arith
int_eq→eq (pos a) (negsuc b) h = cc
int_eq→eq (negsuc a) (pos b) h = cc

abbrev backoff_is : ℕ → Bool
backoff_is k = elim (backoff_secs (suc k)) [
  | none ↦ false
  | some b ↦ int_eq b (pos (min 120 (5 * 2 ^ k)))
]

backoff_table : all_below 61 backoff_is ≡ true
unfolding all_below backoff_secs int64
backoff_table = refl

backoff_is→eq :
    (k : ℕ) → backoff_is k ≡ true → backoff_secs (suc k) ≡ some (pos (min 120 (5 * 2 ^ k)))
unfolding backoff_secs
backoff_is→eq k h = ap some (int_eq→eq _ _ h)

-- Up to the 61st attempt the backoff is 5 seconds, doubled with each attempt, and at most 120.
pub backoff_secs_lem : (k : ℕ) → k < 61 → backoff_secs (suc k) ≡ some (pos (min 120 (5 * 2 ^ k)))
backoff_secs_lem k h = backoff_is→eq k (all_below-at 61 backoff_is k backoff_table h)

-- Reading the flag leaves the world as it was, on a database that refuses nothing.
pub canceled_now-calm :
    (id : String) (w : World) (r : Task)
    → w.db.faults ≡ []
    → row_of id w.db.tasks ≡ some r
    → canceled_now id w ≡ (is_canceled r.status, w)
unfolding canceled_now is_task_canceled ◌>>=◌ call give
canceled_now-calm id w r calm row =
    rw (sql-calm (λ now ts. (canceled_row (row_of id ts), ts)) w.db calm) (rw row)

-- On a database that refuses nothing, a turn that starts with the task canceled and the context
-- alive ends the wait as canceled, without sleeping, polling or writing, whatever the later turns
-- would bring.
pub wait_until_idle-canceled :
    (t : Task) (session : String) (r : Round) (rs : List Round) (w : World) (row : Task)
    → w.db.faults ≡ []
    → row_of t.id w.db.tasks ≡ some row
    → is_canceled row.status ≡ true
    → r.context_error ≡ none
    → wait_until_idle t session (r ∷ rs) w ≡ (canceled, w)
unfolding wait_until_idle start_round ◌>>=◌ give
wait_until_idle-canceled t session r rs w row calm here gone alive =
    rw alive (rw (canceled_now-calm t.id w row calm here) (rw gone))

-- On a database that refuses nothing, a canceled task is settled without touching its row: it
-- stays canceled, and the tasks that were pending on it are blocked.
pub settle-canceled :
    (e : Executor) (s : Script) (t : Task) (w : World) (row : Task)
    → w.db.faults ≡ []
    → row_of t.id w.db.tasks ≡ some row
    → is_canceled row.status ≡ true
    → (row_of t.id (settle e s t canceled w).1.db.tasks ≡ some row)
      × All (λ u. pending_on t.id u ≡ false) (settle e s t canceled w).1.db.tasks
unfolding settle finish_canceled ◌>>=◌ ◌>>◌ push_task push_task_event
settle-canceled e s t w row calm here gone =
    rw (db-stop_dependents t.id "upstream task canceled" w) (
      let blocked =
        block_dependents-Released t.id (reason_or_default "upstream task canceled") w.db calm in
      (blocked.rows t.id ∙ rw here (ground arith), blocked.none_left))

abbrev pub noted : ℕ → String → Task → Task
noted now progress t = record t { progress = progress; updated_at = now }

row-progress :
    (id note : String) (d : Db) (r : Task)
    → d.faults ≡ []
    → row_of id d.tasks ≡ some r
    → row_of id (update_task_progress id note d).1.tasks ≡ some (noted d.now note r)
unfolding update_task_progress exec_update progress_update pure
row-progress id note d r calm e =
    ap (λ (x : Result (Unit {0}) × Db). row_of id x.1.tasks)
      (then_ok (exec_update (progress_update id note)) (pure tt) (sql-calm _ d calm))
    ∙ rw (row_of-update id (noted d.now note) (λ t. refl) id d.tasks, eq_refl, e)

-- On a database that refuses nothing, with distinct ids: after the last attempt, when the LLM
-- answers "retry", the running task is not queued: its row only gets a progress note and stays
-- running.
pub decide-retry :
    (e : Executor) (t : Task) (message : String) (d : FailureDecision) (w : World) (r : Task)
    → w.db.faults ≡ []
    → HasDistinctIds w.db.tasks
    → row_of t.id w.db.tasks ≡ some r
    → r.status ≡ running
    → str_eq d.action "retry" ≡ true
    → row_of t.id (decide e t message (some d) w).1.db.tasks
      ≡ some (noted w.db.now (str_append "llm-retry: " d.reason) r)
unfolding decide ◌>>=◌ ◌>>◌ ignore push_task push_task_event
decide-retry e t message d w r calm h row run says = rw says (
    rw (retry_task_idle t.id (pos 60) w.db calm h (rw row (ground arith)))
      (row-progress t.id (str_append "llm-retry: " d.reason) w.db r calm row))
