-- ===== src/Store/Executions.antt =====
-- internal/store/ruleexecution.go: the history of the rules' firings.
use opencode_backend.Base.{ℕ, zero, suc, Bool, String, List, [], ◌∷◌, str_eq, ◌||◌, take}
use opencode_backend.Exec.{ok, Exec}
use opencode_backend.Sql.{select_where, count_where}
use opencode_backend.Store.Rules.{RuleExecution, Station, rule_sql}

abbrev pub of_rule : String → RuleExecution → Bool
of_rule rule_id e = str_eq rule_id "" || str_eq e.rule_id rule_id

-- ORDER BY id DESC: the ids grow with the order of insertion.
unfoldable pub newest_onto : List RuleExecution → List RuleExecution → List RuleExecution
newest_onto [] out = out
newest_onto (e ∷ es) out = newest_onto es (e ∷ out)

abbrev pub execution_limit : ℕ → ℕ
execution_limit zero = 50
execution_limit (suc n) = suc n

unfoldable pub list_rule_executions : String → ℕ → Exec Station (List RuleExecution)
unfolding rule_sql select_where newest_onto
list_rule_executions rule_id limit = rule_sql (λ now rows. (
  ok (take (execution_limit limit) (newest_onto (select_where (of_rule rule_id) rows.1) [])),
  rows,
))

unfoldable pub count_rule_executions : String → Exec Station ℕ
unfolding rule_sql count_where
count_rule_executions rule_id =
    rule_sql (λ now rows. (ok (count_where (of_rule rule_id) rows.1), rows))
