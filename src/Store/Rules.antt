-- ===== src/Store/Rules.antt =====
-- internal/store/rule.go and ruleexecution.go: the tables `rules` and `rule_executions`, beside the
-- database of tasks, whose clock and refusals they share.
use opencode_backend.Base.{
  ◌||◌, ℕ, Bool, true, false, String, Option, none, some, List, [], ◌∷◌, ◌++◌, ◌==◌, ltb, str_eq,
  if◌then◌else◌, not, ◌&&◌,
}
use opencode_backend.Exec.{Result, ok, err, not_found, database, Exec}
use opencode_backend.Sql.{
  delete_where, count_where, find_where, exists_where, update_where, order_by,
}
use opencode_backend.Store.Db.{Db, Query}

pub record Rule : Type 0 where
  pub id : String
  pub name : String
  pub kind : String
  pub schedule : String
  pub directory : String
  pub prompt : String
  pub enabled : Bool
  pub last_fired_at : Option ℕ
  pub created_at : ℕ

pub record RuleExecution : Type 0 where
  pub rule_id : String
  pub task_id : String
  pub triggered_at : ℕ

pub record Station : Type 0 where
  pub db : Db
  pub rules : List Rule
  pub executions : List RuleExecution

abbrev pub Rows : Type 0
Rows = List Rule × List RuleExecution

-- What one statement on the two tables does at a time.
abbrev pub RuleStatement : Type 0 → Type 0
RuleStatement A = ℕ → Rows → Result A × Rows

abbrev pub rule_answer : {A : Type 0} → List Bool → RuleStatement A → Station → Result A × Station
rule_answer [] stmt s =
    let r = stmt s.db.now (s.rules, s.executions) in
    (r.0, record s { rules = r.1.0; executions = r.1.1 })
rule_answer (true ∷ fs) stmt s = (err database, record s { db = record s.db { faults = fs } })
rule_answer (false ∷ fs) stmt s =
    let r = stmt s.db.now (s.rules, s.executions) in
    (r.0, record s { db = record s.db { faults = fs }; rules = r.1.0; executions = r.1.1 })

unfoldable pub rule_sql : {A : Type 0} → RuleStatement A → Exec Station A
rule_sql stmt s = rule_answer s.db.faults stmt s

abbrev pub is_rule : String → Rule → Bool
is_rule id r = str_eq r.id id

unfoldable pub create_rule : Rule → Exec Station (Unit {0})
create_rule r = rule_sql (λ now rows.
    if exists_where (is_rule r.id) rows.0
    then (err database, rows)
    else (ok tt, (rows.0 ++ record r { created_at = now; last_fired_at = none } ∷ [], rows.1)))

-- ORDER BY enabled DESC, created_at ASC
abbrev pub listed_before : Rule → Rule → Bool
listed_before y x =
    if y.enabled
    then not x.enabled || ltb y.created_at x.created_at
    else not x.enabled && ltb y.created_at x.created_at

unfoldable pub list_rules : Exec Station (List Rule)
list_rules = rule_sql (λ now rows. (ok (order_by listed_before rows.0), rows))

abbrev pub found_rule : Option Rule → Result Rule
found_rule none = err not_found
found_rule (some r) = ok r

unfoldable pub get_rule : String → Exec Station Rule
get_rule id = rule_sql (λ now rows. (found_rule (find_where (is_rule id) rows.0), rows))

unfoldable pub delete_rule : String → Exec Station (Unit {0})
delete_rule id = rule_sql (λ now rows. (
  if count_where (is_rule id) rows.0 == 0 then err not_found else ok tt,
  (delete_where (is_rule id) rows.0, rows.1),
))

unfoldable pub mark_rule_fired : String → Exec Station (Unit {0})
mark_rule_fired id = rule_sql (λ now rows. (
  ok tt,
  (update_where (is_rule id) (λ r. record r { last_fired_at = some now }) rows.0, rows.1),
))

unfoldable pub record_rule_execution : String → String → Exec Station (Unit {0})
record_rule_execution rule_id task_id = rule_sql (λ now rows. (
  ok tt,
  (rows.0, rows.1 ++ record { rule_id = rule_id; task_id = task_id; triggered_at = now } ∷ []),
))

-- A statement on the table of tasks.
unfoldable pub on_tasks : {A : Type 0} → Query A → Exec Station A
on_tasks q s = ((q s.db).0, record s { db = (q s.db).1 })
