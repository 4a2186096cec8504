-- ===== src/Server/Rules/Webhook.antt =====
-- internal/server/rules.go: who can fire rules through the webhook.
use opencode_backend.Base.{ℕ, false, String, ◌≡◌, str_eq}
use opencode_backend.Store.Rules.{Station}
use opencode_backend.Server.Rules.{RuleReply, rule_refused}

-- A secret is configured, and the call carries one with the same digest.
pub record IsAuthentic (digest : String → String) (secret provided : String) : Type 0 where
  pub configured : str_eq secret "" ≡ false
  pub carried : str_eq provided "" ≡ false
  pub same : digest provided ≡ digest secret

abbrev pub IsRefused : Station → RuleReply × Station → Type 0
IsRefused s r = (code : ℕ) × (message : String) × (r ≡ (rule_refused code message, s))
