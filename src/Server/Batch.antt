-- ===== src/Server/Batch.antt =====
-- internal/server/batch.go: one task for each target of a batch. The new ids come with the targets.
use opencode_backend.Base.{
  ℕ, Bool, String, none, List, [], ◌∷◌, ◌++◌, ltb, length, str_eq, if◌then◌else◌, not, ◌==◌,
}
use opencode_backend.Exec.{Result, ok, err}
use opencode_backend.Executor.World.{Act, ◌>>=◌, ◌>>◌, call, others}
use opencode_backend.Server.Reply.{Reply, created_body, write_err, write_json}
use opencode_backend.Store.Calls.{Turn}
use opencode_backend.Store.Task.{Task, queued}
use opencode_backend.Store.Tasks.{create_task}

-- The id is what `newTaskID()` draws for the target, `before` what others do before its INSERT.
pub record Target : Type 0 where
  pub directory : String
  pub session_id : String
  pub id : String
  pub before : List Turn

unfoldable pub target_task : String → Target → Task
target_task prompt tg = record {
  id = tg.id;
  session_id = tg.session_id;
  directory = tg.directory;
  name = "";
  prompt = prompt;
  depends_on = "";
  status = queued;
  error = "";
  result = "";
  progress = "";
  ai_summary = "";
  attempts = 0;
  created_at = 0;
  updated_at = 0;
  started_at = none;
  finished_at = none;
  available_at = 0;
  scheduled_at = none;
  cron = "";
  last_fired_at = none;
}

abbrev pub go_on : Result (Unit {0}) → Act Reply → Act Reply
go_on (err _) more = write_err 500 "create task failed"
go_on (ok _) more = more

unfoldable pub create_all : String → List String → List Target → Act Reply
unfolding target_task
create_all prompt created [] = write_json 201 (created_body created (length created))
create_all prompt created (tg ∷ tgs) = do
  others tg.before
  r ← call (create_task (target_task prompt tg))
  go_on r (create_all prompt (created ++ tg.id ∷ []) tgs)

abbrev pub max_batch_targets : ℕ
max_batch_targets = 100

-- `is_post` is `r.Method == http.MethodPost`, `token` the reply of `requireToken`.
unfoldable pub handle_batch : Bool → Bool → String → List Target → Act Reply
unfolding create_all
handle_batch is_post token prompt targets =
    if not is_post
    then write_err 405 "method not allowed"
    else if not token
    then write_err 401 "invalid token"
    else if str_eq prompt ""
    then write_err 400 "prompt is required"
    else if length targets == 0
    then write_err 400 "targets must not be empty"
    else if ltb max_batch_targets (length targets)
    then write_err 400 "too many targets, max 100 per batch"
    else create_all prompt [] targets
