-- ===== src/Server/Rules.antt =====
-- internal/server/rules.go: the handlers over rules and the webhook. Whether requireWeb or
-- requireToken lets the caller in, the decoded body and the random id are arguments.
pub mod Webhook
use opencode_backend.Base.{
  ℕ, Bool, true, false, String, Option, none, some, List, [], ◌∷◌, if◌then◌else◌, not, ◌||◌, ◌&&◌,
  str_eq,
}
use opencode_backend.Exec.{Result, ok, err}
use opencode_backend.Store.Rules.{
  Rule, RuleExecution, Station, list_rules, create_rule, delete_rule,
}
use opencode_backend.Store.Executions.{list_rule_executions, count_rule_executions}
use opencode_backend.Automation.Engine.{fire_kind}

pub data Verb : Type 0 where
  get_verb post_verb delete_verb other_verb : Verb

pub data RuleReply : Type 0 where
  rule_refused : ℕ → String → RuleReply
  rules_page : List Rule → RuleReply
  rule_created : Rule → RuleReply
  rule_deleted : RuleReply
  executions_page : List RuleExecution → ℕ → RuleReply
  rule_fired : RuleReply

pub record RuleRequest : Type 0 where
  pub name : String
  pub kind : String
  pub schedule : String
  pub directory : String
  pub prompt : String
  pub enabled : Bool

-- The body as readBody leaves it: its answer, or the request.
pub data RuleBody : Type 0 where
  refused_body : ℕ → String → RuleBody
  rule_body : RuleRequest → RuleBody

abbrev pub Handled : Type 0
Handled = RuleReply × Station

abbrev pub rules_listed : Result (List Rule) × Station → Handled
rules_listed (err _, s) = (rule_refused 500 "list rules failed", s)
rules_listed (ok rules, s) = (rules_page rules, s)

abbrev pub new_rule : String → RuleRequest → Rule
new_rule id req = record {
  id = id;
  name = req.name;
  kind = req.kind;
  schedule = req.schedule;
  directory = req.directory;
  prompt = req.prompt;
  enabled = req.enabled;
  last_fired_at = none;
  created_at = 0;
}

abbrev pub is_kind : String → Bool
is_kind kind = str_eq kind "cron" || str_eq kind "git" || str_eq kind "http"

abbrev pub inserted : Rule → Result (Unit {0}) × Station → Handled
inserted rule (err _, s) = (rule_refused 500 "create rule failed", s)
inserted rule (ok _, s) = (rule_created rule, s)

unfoldable pub create_rule_handler : String → RuleBody → Station → Handled
unfolding create_rule
create_rule_handler id (refused_body code message) s = (rule_refused code message, s)
create_rule_handler id (rule_body req) s =
    if str_eq req.kind "" || str_eq req.prompt ""
    then (rule_refused 400 "kind and prompt are required", s)
    else if not (is_kind req.kind)
    then (rule_refused 400 "invalid kind", s)
    else inserted (new_rule id req) (create_rule (new_rule id req) s)

abbrev pub rules_by : Verb → String → RuleBody → Station → Handled
rules_by get_verb id body s = rules_listed (list_rules s)
rules_by post_verb id body s = create_rule_handler id body s
rules_by delete_verb id body s = (rule_refused 405 "method not allowed", s)
rules_by other_verb id body s = (rule_refused 405 "method not allowed", s)

unfoldable pub handle_rules : Bool → Verb → String → RuleBody → Station → Handled
unfolding list_rules create_rule_handler
handle_rules allowed verb id body s =
    if not allowed
    then (rule_refused 401 "web session or APP token required", s)
    else rules_by verb id body s

abbrev pub executions_counted : List RuleExecution → Result ℕ × Station → Handled
executions_counted execs (err _, s) = (rule_refused 500 "count executions failed", s)
executions_counted execs (ok n, s) = (executions_page execs n, s)

abbrev pub executions_listed : String → Result (List RuleExecution) × Station → Handled
executions_listed id (err _, s) = (rule_refused 500 "list executions failed", s)
executions_listed id (ok execs, s) = executions_counted execs (count_rule_executions id s)

unfoldable pub handle_rule_executions : Verb → String → Station → Handled
unfolding list_rule_executions count_rule_executions
handle_rule_executions get_verb id s = executions_listed id (list_rule_executions id 50 s)
handle_rule_executions post_verb id s = (rule_refused 405 "method not allowed", s)
handle_rule_executions delete_verb id s = (rule_refused 405 "method not allowed", s)
handle_rule_executions other_verb id s = (rule_refused 405 "method not allowed", s)

abbrev pub rule_gone : Result (Unit {0}) × Station → Handled
rule_gone (err _, s) = (rule_refused 404 "rule not found", s)
rule_gone (ok _, s) = (rule_deleted, s)

-- What the path has behind /api/rules/: nothing, an id, or an id and "/executions".
pub data RulePath : Type 0 where
  no_id : RulePath
  rule_id : String → RulePath
  executions_of : String → RulePath

abbrev pub rule_by : Verb → RulePath → Station → Handled
rule_by verb no_id s = (rule_refused 400 "missing rule id", s)
rule_by verb (executions_of id) s = handle_rule_executions verb id s
rule_by delete_verb (rule_id id) s = rule_gone (delete_rule id s)
rule_by get_verb (rule_id id) s = (rule_refused 405 "method not allowed", s)
rule_by post_verb (rule_id id) s = (rule_refused 405 "method not allowed", s)
rule_by other_verb (rule_id id) s = (rule_refused 405 "method not allowed", s)

unfoldable pub handle_rule_by_id : Bool → Verb → RulePath → Station → Handled
unfolding handle_rule_executions delete_rule
handle_rule_by_id allowed verb path s =
    if not allowed
    then (rule_refused 401 "web session or APP token required", s)
    else rule_by verb path s

-- `digest` is sha256.Sum256.
unfoldable pub secure_compare : (String → String) → String → String → Bool
secure_compare digest a b = str_eq (digest a) (digest b)

abbrev pub fired_reply : Result Bool × Station → Handled
fired_reply (err _, s) = (rule_refused 500 "fire rule failed", s)
fired_reply (ok false, s) = (rule_refused 404 "no matching rule", s)
fired_reply (ok true, s) = (rule_fired, s)

-- `secret` is the configured one, `provided` that of the header, `target` that of the query.
unfoldable pub handle_rule_webhook :
    (String → String) → (String → String) → Verb → String → String → String → Station → Handled
unfolding secure_compare fire_kind
handle_rule_webhook new_id digest post_verb secret provided target s =
    if str_eq secret ""
    then (rule_refused 403 "webhook disabled (no secret configured)", s)
    else if str_eq provided "" || not (secure_compare digest provided secret)
    then (rule_refused 401 "invalid webhook secret", s)
    else fired_reply (fire_kind new_id "http" target s)
handle_rule_webhook new_id digest get_verb secret provided target s =
    (rule_refused 405 "method not allowed", s)
handle_rule_webhook new_id digest delete_verb secret provided target s =
    (rule_refused 405 "method not allowed", s)
handle_rule_webhook new_id digest other_verb secret provided target s =
    (rule_refused 405 "method not allowed", s)
