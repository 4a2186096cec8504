-- ===== src/Server/Tasks.antt =====
-- internal/server/tasks.go: the handlers of /api/tasks. The reply of `requireWeb` and `requireToken`
-- is an argument, as are the decoded body, the new id and the clock; `between` is what others do to
-- the database between two statements of a handler.
use opencode_backend.Base.{
  ℕ, zero, suc, ◌*◌, Bool, true, false, String, Option, none, some, List, [], ◌∷◌, ltb, leb, length,
  str_eq, if◌then◌else◌, ◌&&◌, not,
}
use opencode_backend.Base.Int.{int64, ℤ, pos, negsuc}
use opencode_backend.Exec.{Result, ok, err}
use opencode_backend.Automation.Cron.{Calendar, parse_cron}
use opencode_backend.Automation.Text.{codes, atoi}
use opencode_backend.Executor.Execute.{for_each, blocked_payload}
use opencode_backend.Executor.World.{Act, ◌>>=◌, ◌>>◌, done, give, call, others, push_task_event}
use opencode_backend.Server.Reply.{
  Reply, task_body, page_body, purged_body, ok_body, blocked_body, write_err, write_json,
}
use opencode_backend.Store.Calls.{Turn}
use opencode_backend.Store.Db.{second}
use opencode_backend.Store.Task.{
  Task, Status, queued, running, succeeded, failed, canceled, pending, blocked, scheduled,
}
use opencode_backend.Store.Tasks.{
  get_task, list_tasks, count_tasks, create_task_with_status, cancel_task, cancel_scheduled_task,
  unblock_task, purge_finished_tasks_after, block_dependents as block_waiters,
}

pub data Method : Type 0 where
  get_method post_method delete_method other_method : Method

-- The JSON body of POST /api/tasks.
pub record CreateRequest : Type 0 where
  pub name : String
  pub prompt : String
  pub session_id : String
  pub directory : String
  pub depends_on : String
  pub scheduled_at : String
  pub cron : String

-- `n >= 0`
abbrev pub natural : Option ℤ → ℕ → ℕ
natural none default = default
natural (some (pos n)) default = n
natural (some (negsuc n)) default = default

-- `n > 0 && n <= 500`
abbrev pub page_size : Option ℤ → ℕ
page_size none = 50
page_size (some (pos n)) = if ltb 0 n && leb n 500 then n else 50
page_size (some (negsuc n)) = 50

unfoldable pub purged : Result (ℕ × ℕ) → Act Reply
purged (ok (deleted, kept)) = write_json 200 (purged_body deleted kept)
purged (err _) = write_err 500 "purge finished tasks failed"

-- `time.Duration(n) * time.Second` is a 64-bit product, which wraps around.
unfoldable pub purge_finished_handler : String → Act Reply
unfolding purged int64
purge_finished_handler older_than =
    let secs = natural (atoi (codes older_than)) 0 in
    do r ← call (purge_finished_tasks_after (int64 (secs * second)) 0); purged r

unfoldable pub page : List Task → ℕ → ℕ → Result ℕ → Act Reply
page ts limit offset (ok total) = write_json 200 (page_body ts total limit offset)
page ts limit offset (err _) = write_err 500 "count tasks failed"

unfoldable pub listed : String → ℕ → ℕ → List Turn → Result (List Task) → Act Reply
unfolding page
listed status limit offset between (ok ts) = do
  others between
  total ← call (count_tasks status)
  page ts limit offset total
listed status limit offset between (err _) = write_err 500 "list tasks failed"

unfoldable pub list_tasks_handler : String → String → String → List Turn → Act Reply
unfolding listed
list_tasks_handler status limit_text offset_text between =
    let limit = page_size (atoi (codes limit_text)) in
    let offset = natural (atoi (codes offset_text)) 0 in
    do ts ← call (list_tasks status limit offset); listed status limit offset between ts

-- The status that a new task starts in, or the error that refuses it.
pub data Choice : Type 0 where
  refuse : ℕ → String → Choice
  start_in : Status → Choice

unfoldable pub choice_after : Status → Choice
choice_after succeeded = start_in queued
choice_after queued = start_in pending
choice_after running = start_in pending
choice_after pending = start_in pending
choice_after scheduled = start_in pending
choice_after failed = refuse 400 "dependsOn task already finished with status failed"
choice_after canceled = refuse 400 "dependsOn task already finished with status canceled"
choice_after blocked = refuse 400 "dependsOn task already finished with status blocked"

unfoldable pub after_upstream : Result Task → Choice
unfolding choice_after
after_upstream (err _) = refuse 400 "dependsOn task not found"
after_upstream (ok up) = choice_after up.status

-- `scheduledAt != nil && scheduledAt.After(time.Now())`
abbrev pub is_future : ℕ → Option ℕ → Bool
is_future now none = false
is_future now (some at) = ltb now at

unfoldable pub choose_status : ℕ → CreateRequest → Option ℕ → Act Choice
unfolding after_upstream
choose_status now req at =
    if not (str_eq req.cron "")
    then give (start_in scheduled)
    else if is_future now at
    then give (start_in scheduled)
    else if str_eq req.depends_on ""
    then give (start_in queued)
    else do up ← call (get_task req.depends_on); give (after_upstream up)

-- The struct that is given to `CreateTaskWithStatus`; the INSERT sets the columns that are not of
-- the request.
unfoldable pub requested_task : String → CreateRequest → Option ℕ → Task
requested_task id req at = record {
  id = id;
  session_id = req.session_id;
  directory = req.directory;
  name = req.name;
  prompt = req.prompt;
  depends_on = req.depends_on;
  status = queued;
  error = "";
  result = "";
  progress = "";
  ai_summary = "";
  attempts = 0;
  created_at = 0;
  updated_at = 0;
  started_at = none;
  finished_at = none;
  available_at = 0;
  scheduled_at = at;
  cron = req.cron;
  last_fired_at = none;
}

abbrev pub announce : String → Status → Act (Unit {0})
announce id scheduled = push_task_event "scheduled" (("id", id) ∷ ("status", "scheduled") ∷ [])
announce id _ = done

unfoldable pub echo : Result Task → Act Reply
echo (ok t) = write_json 201 (task_body t)
echo (err _) = write_err 500 "create task failed"

unfoldable pub after_insert : String → Status → List Turn → Result (Unit {0}) → Act Reply
unfolding echo
after_insert id status between (err _) = write_err 500 "create task failed"
after_insert id status between (ok _) = do
  announce id status
  others between
  t ← call (get_task id)
  echo t

unfoldable pub insert_chosen : Task → List Turn → List Turn → Choice → Act Reply
unfolding after_insert
insert_chosen t before after (refuse code message) = write_err code message
insert_chosen t before after (start_in status) = do
  others before
  r ← call (create_task_with_status t status)
  after_insert t.id status after r

abbrev pub is_some : {A : Type 0} → Option A → Bool
is_some none = false
is_some (some _) = true

-- `blockDependents` of the server: one event for each blocked task, and their number.
unfoldable pub count_blocked : String → String → Result (List String) → Act ℕ
unfolding for_each blocked_payload
count_blocked id reason (err _) = give 0
count_blocked id reason (ok ids) = do
  for_each (λ dep. push_task_event "blocked" (blocked_payload id reason dep)) ids
  give (length ids)

unfoldable pub block_dependents : String → String → Act ℕ
unfolding count_blocked
block_dependents id reason = do ids ← call (block_waiters id reason); count_blocked id reason ids

unfoldable pub read_reply : Result Task → Act Reply
read_reply (ok t) = write_json 200 (task_body t)
read_reply (err _) = write_err 404 "task not found"

unfoldable pub read_task : String → Act Reply
unfolding read_reply
read_task id = do t ← call (get_task id); read_reply t

unfoldable pub scheduled_canceled : String → Result Bool → Act Reply
scheduled_canceled id (err _) = write_err 500 "cancel failed"
scheduled_canceled id (ok false) = write_err 409 "task already finished"
scheduled_canceled id (ok true) = do
  push_task_event "canceled" (("id", id) ∷ ("status", "canceled") ∷ [])
  write_json 200 ok_body

abbrev pub blocked_reply : ℕ → Act Reply
blocked_reply zero = write_json 200 ok_body
blocked_reply (suc n) = write_json 200 (blocked_body (suc n))

unfoldable pub after_cancel : String → List Turn → Result Bool → Act Reply
unfolding block_dependents scheduled_canceled
after_cancel id between (err _) = write_err 500 "cancel failed"
after_cancel id between (ok false) = do
  others between
  r ← call (cancel_scheduled_task id)
  scheduled_canceled id r
after_cancel id between (ok true) = do
  others between
  n ← block_dependents id "upstream task canceled"
  blocked_reply n

unfoldable pub cancel_handler : String → List Turn → Act Reply
unfolding after_cancel
cancel_handler id between = do r ← call (cancel_task id); after_cancel id between r

unfoldable pub after_unblock : String → Result Bool → Act Reply
after_unblock id (err _) = write_err 500 "unblock failed"
after_unblock id (ok false) = write_err 409 "task is not blocked"
after_unblock id (ok true) = do
  push_task_event "queued" (("id", id) ∷ ("status", "queued") ∷ ("reason", "manual unblock") ∷ [])
  write_json 200 ok_body

unfoldable pub unblock_handler : String → Act Reply
unfolding after_unblock
unblock_handler id = do r ← call (unblock_task id); after_unblock id r

unfoldable pub by_method : Method → String → List Turn → Act Reply
unfolding read_task cancel_handler unblock_handler
by_method get_method id between = read_task id
by_method delete_method id between = cancel_handler id between
by_method post_method id between = unblock_handler id
by_method other_method id between = write_err 405 "method not allowed"

unfoldable pub handle_task_by_id : Bool → Method → String → List Turn → Act Reply
unfolding by_method
handle_task_by_id token method id between =
    if not token
    then write_err 401 "invalid token"
    else if str_eq id ""
    then write_err 400 "missing task id"
    else by_method method id between

-- `time.Parse(time.RFC3339, ...)`
module _ (parse_time : String → Option ℕ) (calendar : Calendar) where
  unfoldable pub planned : String → Option (Option ℕ)
  planned s =
      if str_eq s ""
      then some none
      else elim (parse_time s) [ none ↦ none | some at ↦ some (some at) ]

  unfoldable pub create_at :
      ℕ → String → CreateRequest → List Turn → List Turn → Option (Option ℕ) → Act Reply
  unfolding choose_status insert_chosen requested_task
  create_at now id req before after none = write_err 400 "scheduledAt must be RFC3339"
  create_at now id req before after (some at) =
      if not (str_eq req.cron "") && not (is_some (parse_cron calendar now req.cron))
      then write_err 400 "invalid cron"
      else do c ← choose_status now req at; insert_chosen (requested_task id req at) before after c

  unfoldable pub create_task : ℕ → String → CreateRequest → List Turn → List Turn → Act Reply
  unfolding create_at planned
  create_task now id req before after =
      if str_eq req.prompt ""
      then write_err 400 "prompt is required"
      else create_at now id req before after (planned req.scheduled_at)
