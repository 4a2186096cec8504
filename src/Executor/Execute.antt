-- ===== src/Executor/Execute.antt =====
-- internal/tasks/executor.go: `execute` and what it calls. What the world outside answers, and what
-- other goroutines do to the database while the executor waits, is given as a `Script`.
use Prim.Native.String.{◌++◌ as str_append}
use text.Mathlib.Text.{find?}
use opencode_backend.Base.{
  ℕ, zero, suc, ◌*◌, ◌^◌, ◌%◌, Bool, true, false, String, Option, none, some, List, [], ◌∷◌, ltb,
  str_eq, ◌&&◌, not, if◌then◌else◌,
}
use opencode_backend.Base.Int.{ℤ, pos, negsuc, int64}
use opencode_backend.Exec.{Result, ok, err}
use opencode_backend.Executor.Upstream.{
  Outcome, success, failure, canceled, Reply, ChatMessage, create_session, admitted,
  is_session_busy, last_assistant_text,
}
use opencode_backend.Executor.World.{
  Act, summary, analysis, ◌>>=◌, ◌>>◌, done, give, call, ignore, others, push_task_event, start,
}
use opencode_backend.Store.Calls.{Turn}
use opencode_backend.Store.Task.{Task}
use opencode_backend.Store.Tasks.{
  complete_task, fail_task, retry_task, update_task_progress, set_task_session, is_task_canceled,
  promote_pending_dependents, block_dependents,
}

pub record Executor : Type 0 where
  pub max_retries : ℕ
  pub workers : ℕ
  pub retention : ℕ
  -- `e.llm != nil && e.llm.Enabled()`
  pub llm_enabled : Bool

-- `WithMaxRetries`, `WithWorkers` and `WithRetention` clamp their argument.
unfoldable pub with_max_retries : ℤ → Executor → Executor
with_max_retries (pos n) e = record e { max_retries = n }
with_max_retries (negsuc n) e = record e { max_retries = 0 }

unfoldable pub with_workers : ℤ → Executor → Executor
with_workers (pos n) e = record e { workers = if ltb n 1 then 1 else n }
with_workers (negsuc n) e = record e { workers = 1 }

unfoldable pub with_retention : ℤ → Executor → Executor
with_retention (pos n) e = record e { retention = n }
with_retention (negsuc n) e = record e { retention = 0 }

-- The LLM's `failureDecision`, or an error.
pub record FailureDecision : Type 0 where
  pub action : String
  pub reason : String

-- One turn of the loop of `promptSession`: whether the context is done, what others do during the
-- three seconds of sleep, and the reply of /session/status.
pub record Round : Type 0 where
  pub context_error : Option String
  pub meanwhile : List Turn
  pub status : Reply (List (String × String))

-- The deadline of ten minutes passes where `rounds` ends.
pub record Script : Type 0 where
  pub before_create : List Turn
  pub created : Reply String
  pub before_prompt : List Turn
  pub prompted : Reply (Unit {0})
  pub rounds : List Round
  pub before_messages : List Turn
  pub messages : Reply (List ChatMessage)
  pub decision : Option FailureDecision

unfoldable pub for_each : (String → Act (Unit {0})) → List String → Act (Unit {0})
for_each f [] = done
for_each f (x ∷ xs) = do f x; for_each f xs

unfoldable pub queued_payload : String → String → List (String × String)
queued_payload upstream id = ("id", id) ∷ ("status", "queued") ∷ ("upstream", upstream) ∷ []

unfoldable pub blocked_payload : String → String → String → List (String × String)
blocked_payload upstream reason id =
    ("id", id) ∷ ("status", "blocked") ∷ ("upstream", upstream) ∷ ("reason", reason) ∷ []

unfoldable pub promoted_events : String → Result (List String) → Act (Unit {0})
unfolding for_each queued_payload
promoted_events id (ok ids) = for_each (λ dep. push_task_event "queued" (queued_payload id dep)) ids
promoted_events id (err e) = done

unfoldable pub blocked_events : String → String → Result (List String) → Act (Unit {0})
unfolding for_each blocked_payload
blocked_events id reason (ok ids) =
    for_each (λ dep. push_task_event "blocked" (blocked_payload id reason dep)) ids
blocked_events id reason (err e) = done

-- `resolveDependents(ctx, id, true, "")`
unfoldable pub release_dependents : String → Act (Unit {0})
unfolding promoted_events
release_dependents id = do ids ← call (promote_pending_dependents id); promoted_events id ids

-- `resolveDependents(ctx, id, false, reason)`
unfoldable pub stop_dependents : String → String → Act (Unit {0})
unfolding blocked_events
stop_dependents id reason =
    let why = if str_eq reason "" then "upstream task failed" else reason in
    do ids ← call (block_dependents id why); blocked_events id why ids

-- `pushTask`
unfoldable pub push_task : Task → String → Act (Unit {0})
push_task t status = push_task_event status (("id", t.id) ∷ ("status", status) ∷ [])

abbrev pub cap_backoff : ℤ → ℤ
cap_backoff (pos n) = if ltb 120 n then pos 120 else pos n
cap_backoff (negsuc n) = negsuc n

-- `5 * (1 << (t.Attempts - 1))`, capped at 120, on Go's 64-bit `int`. A shift by a negative count
-- panics.
unfoldable pub backoff_secs : ℕ → Option ℤ
backoff_secs zero = none
backoff_secs (suc k) = some (cap_backoff (int64 (5 * (2 ^ k % 2 ^ 64))))

-- `strings.Contains`
unfoldable pub contains_text : String → String → Bool
contains_text s part = elim (find? s part) [ none ↦ false | some i ↦ true ]

-- The task is marked failed for good.
unfoldable pub fail_finally : Executor → Task → String → Act (Unit {0})
fail_finally e t message = do
  ignore (fail_task t.id message)
  stop_dependents t.id message
  push_task t "failed"
  if e.llm_enabled then start (analysis t.id message) else done

-- `RetryTask` refused: failed, with no analysis.
unfoldable pub after_retry : Task → String → Result (Unit {0}) → Act (Unit {0})
after_retry t message (ok _) = push_task t "retrying"
after_retry t message (err _) = do
  ignore (fail_task t.id message)
  stop_dependents t.id message
  push_task t "failed"

-- The worker recovers from a panic of `execute` and fails the task.
unfoldable pub retry_with_backoff : Task → String → Option ℤ → Act (Unit {0})
unfolding after_retry
retry_with_backoff t message none =
    ignore (fail_task t.id "panic: runtime error: negative shift amount")
retry_with_backoff t message (some backoff) = do
  retried ← call (retry_task t.id backoff)
  after_retry t message retried

-- The LLM's verdict after the last attempt.
unfoldable pub decide : Executor → Task → String → Option FailureDecision → Act (Unit {0})
unfolding fail_finally
decide e t message none = fail_finally e t message
decide e t message (some d) =
    if str_eq d.action "retry"
    then (do
      ignore (retry_task t.id (pos 60))
      ignore (update_task_progress t.id (str_append "llm-retry: " d.reason))
      push_task t "retrying")
    else if str_eq d.reason ""
    then fail_finally e t message
    else fail_finally e t (str_append message (str_append " | " d.reason))

unfoldable pub fail_with_retry : Executor → Script → Task → String → Act (Unit {0})
unfolding decide retry_with_backoff
fail_with_retry e s t message =
    if ltb e.max_retries t.attempts
    then (if not (contains_text t.progress "llm-retry") && e.llm_enabled
        then decide e t message s.decision
        else fail_finally e t message)
    else retry_with_backoff t message (backoff_secs t.attempts)

-- `err == nil && c`
unfoldable pub canceled_now : String → Act Bool
canceled_now id = do r ← call (is_task_canceled id); give (elim r [ ok c ↦ c | err e ↦ false ])

unfoldable pub finish_canceled : Task → Act (Unit {0})
finish_canceled t = do stop_dependents t.id "upstream task canceled"; push_task t "canceled"

-- The end of one turn of the loop: an error, the session idle, or another turn after a progress
-- note.
unfoldable pub next_round :
    Task → Outcome Bool → Act (Outcome (Unit {0})) → Act (Outcome (Unit {0}))
next_round t (failure e) more = give (failure e)
next_round t canceled more = give canceled
next_round t (success false) more = give (success tt)
next_round t (success true) more = do ignore (update_task_progress t.id "agent working..."); more

-- The start of a turn: `ctx.Err()`, then whether the task was canceled, then the sleep.
unfoldable pub start_round :
    Task → String → Round → Option String → Act (Outcome (Unit {0})) → Act (Outcome (Unit {0}))
unfolding next_round
start_round t session r (some e) more = give (failure e)
start_round t session r none more = do
  c ← canceled_now t.id
  if c
      then give canceled
      else do others r.meanwhile; next_round t (is_session_busy session r.status) more

unfoldable pub wait_until_idle : Task → String → List Round → Act (Outcome (Unit {0}))
unfolding start_round
wait_until_idle t session [] = give (success tt)
wait_until_idle t session (r ∷ rs) =
    start_round t session r r.context_error (wait_until_idle t session rs)

-- `lastAssistantText` after the loop.
unfoldable pub read_answer : Script → Outcome (Unit {0}) → Act (Outcome String)
read_answer s (failure e) = give (failure e)
read_answer s canceled = give canceled
read_answer s (success _) = do others s.before_messages; give (last_assistant_text s.messages)

unfoldable pub after_prompt : Script → Task → String → Outcome (Unit {0}) → Act (Outcome String)
unfolding wait_until_idle read_answer
after_prompt s t session (failure e) = give (failure e)
after_prompt s t session canceled = give canceled
after_prompt s t session (success _) = do
  ignore (update_task_progress t.id "prompt admitted")
  idle ← wait_until_idle t session s.rounds
  read_answer s idle

unfoldable pub prompt_session : Script → Task → String → Act (Outcome String)
unfolding after_prompt
prompt_session s t session = do
  others s.before_prompt
  after_prompt s t session (admitted s.prompted)

unfoldable pub settle : Executor → Script → Task → Outcome String → Act (Unit {0})
settle e s t (success result) = do
  ignore (complete_task t.id result)
  release_dependents t.id
  push_task t "succeeded"
  if e.llm_enabled then start (summary t.id result) else done
settle e s t (failure message) = fail_with_retry e s t message
settle e s t canceled = finish_canceled t

unfoldable pub run_in_session : Executor → Script → Task → String → Act (Unit {0})
unfolding settle
run_in_session e s t session = do outcome ← prompt_session s t session; settle e s t outcome

unfoldable pub after_create : Executor → Script → Task → Outcome String → Act (Unit {0})
unfolding run_in_session
after_create e s t (success session) = do
  ignore (set_task_session t.id session)
  ignore (update_task_progress t.id "session created")
  run_in_session e s t session
after_create e s t (failure message) = fail_with_retry e s t (str_append "create session: " message)
after_create e s t canceled = done

-- A task with no session of its own gets a new one, unless it was canceled in the meantime.
unfoldable pub ensure_session : Executor → Script → Task → Act (Unit {0})
unfolding after_create
ensure_session e s t = do
  c ← canceled_now t.id
  if c
      then finish_canceled t
      else do others s.before_create; after_create e s t (create_session s.created)

unfoldable pub execute : Executor → Script → Task → Act (Unit {0})
unfolding ensure_session run_in_session
execute e s t = do
  push_task t "running"
  if str_eq t.session_id "" then ensure_session e s t else run_in_session e s t t.session_id
