-- ===== src/Server/Scheduler.antt =====
-- internal/server/scheduler.go: one poll of the planned tasks. `new_id` draws the id of a clone,
-- `between` is what other processes do before each statement of the poll.
use opencode_backend.Base.{
  ℕ, Bool, true, false, String, Option, none, some, List, [], ◌∷◌, leb, str_eq, if◌then◌else◌, not,
}
use opencode_backend.Exec.{Result, ok, err}
use opencode_backend.Automation.Cron.{Calendar, next_cron_of}
use opencode_backend.Executor.World.{
  Act, ◌>>=◌, ◌>>◌, done, give, call, ignore, others, push_task_event,
}
use opencode_backend.Store.Calls.{Turn}
use opencode_backend.Store.Task.{Task, queued}
use opencode_backend.Store.Tasks.{
  create_task, claim_recurring_fire, set_task_last_fired_at_ptr, promote_scheduled_task,
  list_scheduled_tasks,
}

unfoldable pub clone_of : String → Task → Task
clone_of id t = record {
  id = id;
  session_id = t.session_id;
  directory = t.directory;
  name = t.name;
  prompt = t.prompt;
  depends_on = "";
  status = queued;
  error = "";
  result = "";
  progress = "";
  ai_summary = "";
  attempts = 0;
  created_at = 0;
  updated_at = 0;
  started_at = none;
  finished_at = none;
  available_at = 0;
  scheduled_at = none;
  cron = "";
  last_fired_at = none;
}

unfoldable pub after_clone : Task → String → List Turn → Result (Unit {0}) → Act (Unit {0})
after_clone t id between (err _) = do
  others between
  ignore (set_task_last_fired_at_ptr t.id t.last_fired_at)
after_clone t id between (ok _) = push_task_event "queued" (("id", id) ∷ ("status", "queued") ∷ [])

unfoldable pub after_claim : Task → String → List Turn → Result Bool → Act (Unit {0})
unfolding after_clone clone_of
after_claim t id between (err _) = done
after_claim t id between (ok false) = done
after_claim t id between (ok true) = do
  others between
  r ← call (create_task (clone_of id t))
  after_clone t id between r

-- `base`: the last fire, or the creation of the template.
abbrev pub base_of : Task → ℕ
base_of t = elim t.last_fired_at as (λ _. ℕ) [ none ↦ t.created_at | some at ↦ at ]

-- `next.After(now)`
abbrev pub is_due : ℕ → Option ℕ → Bool
is_due now none = false
is_due now (some next) = leb next now

abbrev pub is_planned : ℕ → Option ℕ → Bool
is_planned now none = false
is_planned now (some at) = leb at now

unfoldable pub after_promote : String → Result Bool → Act (Unit {0})
after_promote id (err _) = done
after_promote id (ok false) = done
after_promote id (ok true) = push_task_event "queued" (("id", id) ∷ ("status", "queued") ∷ [])

module _ (calendar : Calendar) (new_id : Task → String) (between : List Turn) where
  -- `NextCron` reads the clock again; the time of the poll stands for it.
  unfoldable pub fire_recurring : Task → ℕ → Act (Unit {0})
  unfolding after_claim
  fire_recurring t now =
      if not (is_due now (next_cron_of calendar now (base_of t) t.cron)) then done else do
        others between
        r ← call (claim_recurring_fire t.id t.last_fired_at now)
        after_claim t (new_id t) between r

  unfoldable pub poll_task : ℕ → Task → Act (Unit {0})
  unfolding fire_recurring after_promote
  poll_task now t =
      if not (str_eq t.cron "")
      then fire_recurring t now
      else if not (is_planned now t.scheduled_at)
      then done
      else do others between; r ← call (promote_scheduled_task t.id); after_promote t.id r

  unfoldable pub poll_tasks : ℕ → List Task → Act (Unit {0})
  unfolding poll_task
  poll_tasks now [] = done
  poll_tasks now (t ∷ ts) = do poll_task now t; poll_tasks now ts

  unfoldable pub after_list : ℕ → Result (List Task) → Act (Result (Unit {0}))
  unfolding poll_tasks
  after_list now (err e) = give (err e)
  after_list now (ok ts) = do poll_tasks now ts; give (ok tt)

  unfoldable pub poll_scheduled : ℕ → Act (Result (Unit {0}))
  unfolding after_list
  poll_scheduled now = do r ← call list_scheduled_tasks; after_list now r
