-- ===== src/Automation/Engine/Firing.antt =====
-- What the firing of a rule does to the tables, and how soon a rule fires again.
use opencode_backend.Base.{
  ℕ, ◌+◌, ◌<◌, Bool, true, false, String, Option, some, List, [], ◌∷◌, ◌++◌, if◌then◌else◌, not,
  ◌≡◌, refl, ap, ◌∙◌, arith,
}
use opencode_backend.Base.Int.{ℤ, pos}
use opencode_backend.Exec.{Result, ok, pure, attempt, ◌>>◌}
use opencode_backend.Exec.Runs.{bind_ok, then_ok, attempt_runs}
use opencode_backend.Automation.Cron.{Calendar}
use opencode_backend.Automation.Text.{Text, codes, trim_space}
use opencode_backend.Automation.Engine.{
  none, rule_task, fire_enabled, fire, cron_due, due_text, poll_cron_rule,
}
use opencode_backend.Sql.Laws.{find_where-update_where, find_where-matches}
use opencode_backend.Sql.{find_where, update_where, exists_where}
use opencode_backend.Store.Answers.{sql-calm}
use opencode_backend.Store.Db.{Db}
use opencode_backend.Store.Rules.{
  Rule, RuleStatement, Station, rule_sql, is_rule, get_rule, mark_rule_fired, record_rule_execution,
  on_tasks,
}
use opencode_backend.Store.Task.{Task, queued}
use opencode_backend.Store.Tasks.{create_task, create_task_with_status, has_id, insert_row, new_row}

rule_sql-calm :
    {A : Type 0} (stmt : RuleStatement A) (s : Station)
    → s.db.faults ≡ []
    → rule_sql stmt s ≡ (
      (stmt s.db.now (s.rules, s.executions)).0,
      record s {
        rules = (stmt s.db.now (s.rules, s.executions)).1.0;
        executions = (stmt s.db.now (s.rules, s.executions)).1.1;
      },
    )
unfolding rule_sql
rule_sql-calm stmt s h = rw h refl

-- The row of a task that a rule starts: queued now, to run the rule's prompt in its directory, in no
-- session yet and waiting on no other task.
abbrev pub started_row : ℕ → String → Rule → Task
started_row now task_id r = record {
  id = task_id;
  session_id = "";
  directory = r.directory;
  name = "";
  prompt = r.prompt;
  depends_on = "";
  status = queued;
  error = "";
  result = "";
  progress = "";
  ai_summary = "";
  attempts = 0;
  created_at = now;
  updated_at = now;
  started_at = none;
  finished_at = none;
  available_at = now;
  scheduled_at = none;
  cron = "";
  last_fired_at = none;
}

-- The tables after a rule has fired: one queued task more, one execution more, and the rule's time.
abbrev pub fired_station : String → Rule → String → Station → Station
fired_station id r task_id s = record s {
  db = record s.db { tasks = s.db.tasks ++ started_row s.db.now task_id r ∷ [] };
  rules = update_where (is_rule id) (λ x. record x { last_fired_at = some s.db.now }) s.rules;
  executions =
      s.executions ++ record { rule_id = id; task_id = task_id; triggered_at = s.db.now } ∷ [];
}

create-calm :
    (t : Task) (s : Station)
    → s.db.faults ≡ []
    → exists_where (has_id t.id) s.db.tasks ≡ false
    → on_tasks (create_task t) s ≡ (
      ok tt,
      record s { db = record s.db { tasks = s.db.tasks ++ new_row s.db.now t queued ∷ [] } },
    )
unfolding on_tasks create_task create_task_with_status insert_row
create-calm t s calm fresh =
    ap (λ (r : Result (Unit {0}) × Db). (r.0, record s { db = r.1 }))
      (sql-calm (insert_row t queued) s.db calm)
    ∙ rw fresh refl

fire_enabled-calm :
    (new_id : String → String) (id : String) (r : Rule) (s : Station)
    → s.db.faults ≡ []
    → exists_where (has_id (new_id id)) s.db.tasks ≡ false
    → fire_enabled new_id id r s ≡ (ok tt, fired_station id r (new_id id) s)
unfolding fire_enabled record_rule_execution mark_rule_fired rule_task new_row
fire_enabled-calm new_id id r s calm fresh =
    let s1 : Station = record s {
      db = record s.db {
        tasks = s.db.tasks ++ new_row s.db.now (rule_task (new_id id) r) queued ∷ [];
      };
    } in
    let s2 : Station = record s1 {
      executions =
          s.executions
          ++ record { rule_id = id; task_id = new_id id; triggered_at = s.db.now } ∷ [];
    } in
    then_ok (on_tasks (create_task (rule_task (new_id id) r)))
      (attempt (record_rule_execution id (new_id id)) >> mark_rule_fired id)
      (create-calm (rule_task (new_id id) r) s calm fresh)
    ∙ then_ok (attempt (record_rule_execution id (new_id id))) (mark_rule_fired id)
        (attempt_runs (record_rule_execution id (new_id id)) (rule_sql-calm _ s1 calm))
    ∙ rule_sql-calm _ s2 calm

-- On a database that refuses nothing, the firing of an enabled rule whose new task has a fresh id
-- succeeds: the tables gain exactly one queued task with the rule's directory and prompt and one
-- execution that names both, and the rule's last fire is the time of the database.
pub fire-Fired :
    (new_id : String → String) (id : String) (r : Rule) (s : Station)
    → s.db.faults ≡ []
    → find_where (is_rule id) s.rules ≡ some r
    → r.enabled ≡ true
    → exists_where (has_id (new_id id)) s.db.tasks ≡ false
    → fire new_id id s ≡ (ok tt, fired_station id r (new_id id) s)
unfolding fire get_rule
fire-Fired new_id id r s calm row on fresh =
    bind_ok (get_rule id)
      (λ rule. if not rule.enabled then pure tt else fire_enabled new_id id rule) {s = s} {s' = s}
      {a = r} (rule_sql-calm _ s calm ∙ rw row refl)
    ∙ rw on (fire_enabled-calm new_id id r s calm fresh)

find-update_rule :
    (id : String) (at : ℕ) (rs : List Rule) (r : Rule)
    → find_where (is_rule id) rs ≡ some r
    → find_where
        (is_rule id)
        (update_where (is_rule id) (λ x. record x { last_fired_at = some at }) rs)
      ≡ some (record r { last_fired_at = some at })
find-update_rule id at rs r e =
    find_where-update_where (is_rule id) (is_rule id) (λ x. record x { last_fired_at = some at })
      (λ x. refl) rs
    ∙ rw (e, find_where-matches (is_rule id) rs r e) refl

either_done : (b : Bool) (s : Station) → (if b then pure tt else pure tt) s ≡ (ok tt, s)
unfolding pure
either_done true s = refl
either_done false s = refl

-- Not before the interval has passed.
module _ (parse_duration : Text → Option ℤ) (calendar : Calendar) where
  due_text-waits :
      (s : Text) (now last d : ℕ)
      → parse_duration s ≡ some (pos d)
      → now < last + d
      → due_text parse_duration calendar s now (some last) ≡ some false
  due_text-waits [] now last d e h = refl
  due_text-waits (c ∷ cs) now last d e h = rw e (ground arith)

  poll_cron_rule-waits :
      (new_id : String → String) (r : Rule) (now last d : ℕ) (s : Station)
      → parse_duration (trim_space (codes r.schedule)) ≡ some (pos d)
      → r.last_fired_at ≡ some last
      → now < last + d
      → poll_cron_rule new_id parse_duration calendar now r s ≡ (ok tt, s)
  unfolding poll_cron_rule cron_due pure
  poll_cron_rule-waits new_id r now last d s e l h =
      rw (l, due_text-waits (trim_space (codes r.schedule)) now last d e h) (either_done _ s)

  -- A rule with an interval: on a database that refuses nothing, when it has just fired, its row
  -- carries the time of the database, and a poll before the interval has passed since then does
  -- nothing.
  pub fire_then_wait :
      (new_id : String → String) (id : String) (r : Rule) (s : Station) (now d : ℕ)
      → s.db.faults ≡ []
      → find_where (is_rule id) s.rules ≡ some r
      → r.enabled ≡ true
      → exists_where (has_id (new_id id)) s.db.tasks ≡ false
      → parse_duration (trim_space (codes r.schedule)) ≡ some (pos d)
      → now < s.db.now + d
      → (r' : Rule) × (find_where (is_rule id) (fire new_id id s).1.rules ≡ some r')
        × (poll_cron_rule new_id parse_duration calendar now r' (fire new_id id s).1
            ≡ (ok tt, (fire new_id id s).1))
  fire_then_wait new_id id r s now d calm row on fresh interval early =
      let r' : Rule = record r { last_fired_at = some s.db.now } in
      (
        r',
        ap (λ (x : Result (Unit {0}) × Station). find_where (is_rule id) x.1.rules)
              (fire-Fired new_id id r s calm row on fresh)
            ∙ find-update_rule id s.db.now s.rules r row,
        poll_cron_rule-waits new_id r' now s.db.now d (fire new_id id s).1 interval refl early,
      )
