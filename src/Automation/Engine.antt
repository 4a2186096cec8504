-- ===== src/Automation/Engine.antt =====
-- internal/automation/engine.go: the rules that start tasks. `time.ParseDuration` and the HEAD that
-- git reports are parameters; `new_id` draws the id of a rule's task.
pub mod Firing
use opencode_backend.Base.{
  suc, ℕ, ◌+◌, Bool, true, false, String, Option, none, some, List, [], ◌∷◌, ltb, leb, str_eq,
  if◌then◌else◌, not, ◌&&◌, ◌||◌,
}
use opencode_backend.Base.Int.{ℤ, pos, negsuc}
use opencode_backend.Exec.{Result, ok, err, Exec, pure, raise, attempt, ◌>>=◌, ◌>>◌}
use opencode_backend.Automation.Cron.{Calendar, next_cron}
use opencode_backend.Automation.Text.{Text, codes, trim_space, fields}
use opencode_backend.Store.Rules.{
  Rule, Station, list_rules, get_rule, mark_rule_fired, record_rule_execution, on_tasks,
}
use opencode_backend.Store.Task.{Task, queued}
use opencode_backend.Store.Tasks.{create_task}

unfoldable pub rule_task : String → Rule → Task
rule_task id rule = record {
  id = id;
  session_id = "";
  directory = rule.directory;
  name = "";
  prompt = rule.prompt;
  depends_on = "";
  status = queued;
  error = "";
  result = "";
  progress = "";
  ai_summary = "";
  attempts = 0;
  created_at = 0;
  updated_at = 0;
  started_at = none;
  finished_at = none;
  available_at = 0;
  scheduled_at = none;
  cron = "";
  last_fired_at = none;
}

abbrev pub head_of : String → List (String × String) → Option String
head_of id [] = none
head_of id ((k, h) ∷ m) = let rest = head_of id m in if str_eq k id then some h else rest

abbrev pub set_head : String → String → List (String × String) → List (String × String)
set_head id h [] = (id, h) ∷ []
set_head id h ((k, g) ∷ m) =
    let rest = set_head id h m in if str_eq k id then (id, h) ∷ m else (k, g) ∷ rest

-- `now.Sub(last) >= d`
abbrev pub elapsed : ℕ → ℕ → ℤ → Bool
elapsed now last (pos d) = leb (last + d) now
elapsed now last (negsuc d) = leb last (now + suc d)

abbrev pub has_come : ℕ → Option ℕ → Option Bool
has_come now none = none
has_come now (some next) = some (leb next now)

-- `matchTarget`
abbrev pub match_target : String → String → Bool
match_target schedule target = str_eq schedule target

module _ (parse_duration : Text → Option ℤ) (calendar : Calendar) where
  abbrev pub due_since : Text → ℕ → Option ℤ → Option ℕ → Option Bool
  due_since s now d none = some true
  due_since s now (some d) (some last) = some (elapsed now last d)
  due_since s now none (some last) = has_come now (next_cron calendar last (fields s))

  abbrev pub due_text : Text → ℕ → Option ℕ → Option Bool
  due_text [] now last = some false
  due_text (c ∷ cs) now last = due_since (c ∷ cs) now (parse_duration (c ∷ cs)) last

  -- `none` is the error of a schedule that does not parse.
  unfoldable pub cron_due : Rule → ℕ → Option Bool
  cron_due r now = due_text (trim_space (codes r.schedule)) now r.last_fired_at

module _ (new_id : String → String) where
  -- `RecordRuleExecution` may fail: its error is only logged.
  unfoldable pub fire_enabled : String → Rule → Exec Station (Unit {0})
  unfolding rule_task
  fire_enabled id rule = do
    on_tasks (create_task (rule_task (new_id id) rule))
    attempt (record_rule_execution id (new_id id))
    mark_rule_fired id

  unfoldable pub fire : String → Exec Station (Unit {0})
  unfolding fire_enabled
  fire id = do rule ← get_rule id; if not rule.enabled then pure tt else fire_enabled id rule

  abbrev pub fire_if_due : Option Bool → String → Exec Station (Unit {0})
  fire_if_due none id = pure tt
  fire_if_due (some false) id = pure tt
  fire_if_due (some true) id = do attempt (fire id); pure tt

  -- `git rev-parse HEAD` of a directory, `none` for an error.
  module _ (git_head : String → Option String) where
    -- The heads that the engine has seen go along with the rules that are left.
    abbrev pub see_head :
        Option String
        → Option String
        → String
        → List (String × String)
        → Exec Station (List (String × String))
    see_head none seen id heads = pure heads
    see_head (some h) none id heads = pure (set_head id h heads)
    see_head (some h) (some prev) id heads =
        if str_eq prev h then pure heads else do attempt (fire id); pure (set_head id h heads)

    unfoldable pub poll_git_rule :
        Rule → List (String × String) → Exec Station (List (String × String))
    unfolding fire
    poll_git_rule r heads =
        let dir = if str_eq r.schedule "" then r.directory else r.schedule in
        if not r.enabled || not (str_eq r.kind "git") || str_eq dir ""
        then pure heads
        else see_head (git_head dir) (head_of r.id heads) r.id heads

    unfoldable pub poll_git_rules :
        List Rule → List (String × String) → Exec Station (List (String × String))
    unfolding poll_git_rule
    poll_git_rules [] heads = pure heads
    poll_git_rules (r ∷ rs) heads = do seen ← poll_git_rule r heads; poll_git_rules rs seen

    unfoldable pub poll_git : List (String × String) → Exec Station (List (String × String))
    unfolding poll_git_rules
    poll_git heads = do rs ← list_rules; poll_git_rules rs heads

  module _ (parse_duration : Text → Option ℤ) (calendar : Calendar) where
    unfoldable pub poll_cron_rule : ℕ → Rule → Exec Station (Unit {0})
    unfolding fire cron_due
    poll_cron_rule now r =
        if not r.enabled || not (str_eq r.kind "cron")
        then pure tt
        else fire_if_due (cron_due parse_duration calendar r now) r.id

    unfoldable pub poll_cron_rules : ℕ → List Rule → Exec Station (Unit {0})
    unfolding poll_cron_rule
    poll_cron_rules now [] = pure tt
    poll_cron_rules now (r ∷ rs) = do poll_cron_rule now r; poll_cron_rules now rs

    unfoldable pub poll_cron : ℕ → Exec Station (Unit {0})
    unfolding poll_cron_rules
    poll_cron now = do rs ← list_rules; poll_cron_rules now rs

  -- The first enabled rule of the kind whose schedule matches.
  unfoldable pub fire_first : String → String → List Rule → Exec Station Bool
  unfolding fire
  fire_first kind target [] = pure false
  fire_first kind target (r ∷ rs) =
      let rest = fire_first kind target rs in
      if not r.enabled || not (str_eq r.kind kind)
      then rest
      else if not (str_eq target "")
          && not (str_eq r.schedule "")
          && not (match_target r.schedule target)
      then rest
      else do fire r.id; pure true

  unfoldable pub fire_kind : String → String → Exec Station Bool
  unfolding fire_first
  fire_kind kind target = do rs ← list_rules; fire_first kind target rs
