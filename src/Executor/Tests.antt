-- ===== src/Executor/Tests.antt =====
-- The theorems on the executor at a world with one running task, and one that waits on it.
use opencode_backend.Base.{
  ℕ, ◌≤◌, ◌*◌, ◌^◌, min, String, true, false, none, some, [], ◌∷◌, ◌≡◌, refl, arith,
}
use opencode_backend.Executor.Execute.{
  Executor, Script, Round, FailureDecision, backoff_secs, execute, fail_with_retry, settle, decide,
}
use opencode_backend.Executor.Outcomes.{
  Stopped, failed_row, Succeeded, succeeded_row, fail_with_retry-running, settle-success,
}
use opencode_backend.Executor.Upstream.{
  success, reply, no_reply, decoded, create_session, is_session_busy, last_assistant_text, admitted,
}
use opencode_backend.Executor.Answered.{
  IsAnswered, created, EndsSucceeded, EndsCanceled, execute-answered, execute-canceled,
}
use opencode_backend.Base.Int.{pos}
use opencode_backend.Executor.Waiting.{backoff_secs_lem, decide-retry, noted}
use opencode_backend.Executor.Gates.{
  Crew, Reachable, starts, steps, enters, locks, entered, hold, gate_of, no_workers, held,
  is_session,
}
use opencode_backend.Executor.Gates.Exclusion.{one_per_session}
use opencode_backend.Sql.{count_where}
use opencode_backend.Executor.World.{World}
use opencode_backend.Store.Lookup.{row_of}
use opencode_backend.Store.Task.{Task, Status, running}
use opencode_backend.Store.Tests.{sample, table, waiter, template}

abbrev worker : Executor
worker = record { max_retries = 2; workers = 1; retention = 0; llm_enabled = true }

abbrev at_work : Task
at_work = record (sample "a" running) { attempts = 1; started_at = some 9 }

abbrev given_up : Task
given_up = record (sample "a" Status.canceled) {
  attempts = 1;
  started_at = some 9;
  finished_at = some 10;
}

abbrev world_of : Task → World
world_of t = record {
  db = record table { tasks = t ∷ waiter ∷ template ∷ [] };
  pushed = [];
  started = [];
}

abbrev quiet : Script
quiet = record {
  before_create = [];
  created = reply 200 "200 OK" "" (decoded "ses_1");
  before_prompt = [];
  prompted = reply 200 "200 OK" "" (decoded tt);
  rounds = [];
  before_messages = [];
  messages = no_reply "timeout";
  decision = none;
}

abbrev busy_world : World
busy_world = world_of at_work

fail_with_retry-running_example :
    Stopped "a"
      (failed_row 10 "lost" at_work)
      (fail_with_retry worker quiet at_work "lost" busy_world).1.db
unfolding opencode_backend.Sql.exists_where opencode_backend.Sql.find_where
fail_with_retry-running_example =
    fail_with_retry-running worker quiet at_work "lost" busy_world at_work refl
      (refl, (refl, (refl, tt))) refl refl (omega arith) (omega arith)

settle-success_example :
    Succeeded "a"
      (succeeded_row 10 "42" given_up)
      (world_of given_up).db
      (settle worker quiet at_work (success "42") (world_of given_up)).1.db
unfolding opencode_backend.Sql.find_where
settle-success_example =
    settle-success worker quiet at_work "42" (world_of given_up) given_up refl refl

abbrev round : Round
round = record { context_error = none; meanwhile = []; status = no_reply "timeout" }

abbrev says_retry : FailureDecision
says_retry = record { action = "retry"; reason = "flaky" }

decide-retry_example :
    row_of "a" (decide worker at_work "lost" (some says_retry) busy_world).1.db.tasks
    ≡ some (noted 10 "llm-retry: flaky" at_work)
unfolding opencode_backend.Sql.exists_where opencode_backend.Sql.find_where
decide-retry_example =
    decide-retry worker at_work "lost" says_retry busy_world at_work refl (refl, (refl, (refl, tt)))
      refl refl refl

abbrev on_ses : String × ℕ
on_ses = ("ses", 0)

abbrev one_in : Crew
one_in = entered "ses" no_workers (hold "ses" no_workers.gates)

abbrev both_in : Crew
both_in = entered "ses" one_in (hold "ses" one_in.gates)

one_executes : Reachable (record both_in { waiting = on_ses ∷ []; executing = on_ses ∷ [] })
unfolding hold gate_of no_workers held count_where
one_executes =
    steps (steps (steps starts (enters "ses")) (enters "ses"))
      (locks {c = both_in} [] (on_ses ∷ []) on_ses refl refl)

one_per_session_example : count_where (is_session "ses") (on_ses ∷ []) ≤ 1
one_per_session_example = one_per_session one_executes "ses"

-- The session is created, busy at the first poll and idle at the second.
abbrev answering : Script
answering = record quiet {
  rounds =
      record {
        context_error = none;
        meanwhile = [];
        status = reply 200 "200 OK" "" (decoded (("ses_1", "busy") ∷ []));
      }
      ∷ record { context_error = none; meanwhile = []; status = reply 200 "200 OK" "" (decoded []) }
      ∷ [];
  messages = reply 200 "200 OK" "" (
      decoded
        (record { role = "assistant"; content = record { kind = "text"; text = "42" } ∷ [] } ∷ []));
}

answering-IsAnswered : IsAnswered answering "ses_1" "42"
unfolding is_session_busy last_assistant_text admitted
answering-IsAnswered = record {
  alone_before = refl;
  taken = refl;
  quiet = (
    record { alive = refl; alone = refl; busy = true; polled = refl },
    (record { alive = refl; alone = refl; busy = false; polled = refl }, tt),
  );
  alone_after = refl;
  answer = refl;
}

execute-answered_example :
    EndsSucceeded "a" "42" at_work busy_world.db (execute worker answering at_work busy_world).1.db
unfolding opencode_backend.Sql.find_where create_session
execute-answered_example =
    execute-answered worker answering at_work "ses_1" "42" at_work busy_world refl refl refl
      (created "ses_1" refl refl refl) answering-IsAnswered

execute-canceled_example :
    EndsCanceled "a" given_up
      (world_of given_up).db
      (execute worker answering given_up (world_of given_up)).1.db
unfolding opencode_backend.Sql.find_where
execute-canceled_example =
    execute-canceled worker answering given_up given_up (world_of given_up) refl refl refl refl

backoff_secs_lem_example : backoff_secs 6 ≡ some (pos (min 120 (5 * 2 ^ 5)))
backoff_secs_lem_example = backoff_secs_lem 5 (omega arith)
