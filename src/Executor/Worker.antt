-- ===== src/Executor/Worker.antt =====
-- internal/tasks/executor.go and janitor.go: what one worker and the janitor do, turn by turn. The
-- turns of several workers, and what others do in between, are lists of calls of the store.
use opencode_backend.Base.{ℕ, String, List, [], ◌∷◌}
use opencode_backend.Exec.{Result, ok, err}
use opencode_backend.Executor.Execute.{Executor, Script, execute}
use opencode_backend.Executor.World.{Act, ◌>>=◌, ◌>>◌, done, call, ignore, others}
use opencode_backend.Store.Calls.{Turn}
use opencode_backend.Store.Task.{Task}
use opencode_backend.Store.Tasks.{
  claim_next_task, recover_stale_running, purge_finished_tasks, fail_task,
}

-- The execution of a claimed task: with the replies that it gets, or a panic after some of what it
-- does, which fails the task.
pub data Run : Type 0 where
  completes : Script → Run
  panics : List Turn → String → Run

-- One turn of the loop of `worker`, after what others do.
pub record WorkerTurn : Type 0 where
  pub before : List Turn
  pub run : Run

unfoldable pub run_claimed : Executor → Run → Task → Act (Unit {0})
run_claimed e (completes s) t = execute e s t
run_claimed e (panics before message) t = do others before; ignore (fail_task t.id message)

unfoldable pub after_next : Executor → Run → Result Task → Act (Unit {0})
unfolding run_claimed
after_next e r (ok t) = run_claimed e r t
after_next e r (err _) = done

unfoldable pub worker : Executor → List WorkerTurn → Act (Unit {0})
unfolding after_next
worker e [] = done
worker e (t ∷ ts) = do
  others t.before
  claimed ← call claim_next_task
  after_next e t.run claimed
  worker e ts

abbrev pub purge_batch : ℕ
purge_batch = 500

-- One pass of the janitor.
unfoldable pub purge_once : Executor → Act (Result (ℕ × ℕ))
purge_once e = call (purge_finished_tasks e.retention purge_batch)

-- `Run`, seen from one worker: the recovery at the start, then its turns.
unfoldable pub run_executor : Executor → List WorkerTurn → Act (Unit {0})
unfolding worker
run_executor e ts = do ignore recover_stale_running; worker e ts
