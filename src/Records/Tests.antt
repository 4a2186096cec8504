-- ===== src/Records/Tests.antt =====
-- The theorems on the tables beside the tasks, at small tables.
use opencode_backend.Base.{true, false, String, none, some, List, [], ◌∷◌, ◌≡◌, ◌≢◌, refl, arith}
use opencode_backend.Automation.Text.{codes}
use opencode_backend.Records.Site.{Site, Token}
use opencode_backend.Records.Settings.{
  Write, get_setting, run_writes, replay, setting_of, answered, run_writes-replay,
}
use opencode_backend.Records.Tokens.{
  TokenTurn, touch, revoke_token, get_token_by_hash, run_token_turns,
}
use opencode_backend.Records.Tokens.Revoked.{revoke_token_final}
use opencode_backend.Records.WebSessions.{get_web_session, delete_expired_web_sessions}
use opencode_backend.Records.WebSessions.Expired.{get_web_session-delete_expired}
use opencode_backend.Records.Events.{sanitize_payload_for_jsonb}

abbrev pub bare : Site
bare = record {
  settings = [];
  tokens = [];
  web_sessions = [];
  events = [];
  next_event = 1;
  unread = [];
  archives = [];
  audit = [];
  next_entry = 1;
  now = 100;
  faults = [];
  postgres = true;
}

abbrev twice : List Write
twice =
    record { key = "a"; value = "1"; at = 5; refused = false }
    ∷ record { key = "a"; value = "2"; at = 6; refused = false }
    ∷ record { key = "a"; value = "3"; at = 7; refused = true }
    ∷ []

run_writes-replay_example :
    (get_setting "a" (record (run_writes twice bare) { faults = [] })).0
    ≡ answered (replay twice (setting_of bare) "a")
run_writes-replay_example = run_writes-replay twice bare "a"

last_value : replay twice (setting_of bare) "a" ≡ some "2"
unfolding replay
last_value = refl

abbrev device : String → String → Token
device id hash = record {
  id = id;
  name = id;
  token_hash = hash;
  created_at = 1;
  revoked_at = none;
  last_used = none;
}

abbrev two_devices : Site
two_devices = record bare { tokens = device "phone" "h1" ∷ device "tablet" "h2" ∷ [] }

abbrev one_left : Site
one_left = record bare {
  tokens = record (device "phone" "h1") { revoked_at = some 100 } ∷ device "tablet" "h2" ∷ [];
}

abbrev later_calls : List TokenTurn
later_calls = record { call = touch "phone"; at = 101; faults = [] } ∷ []

revoke_token_final_example : Token.id (device "tablet" "h2") ≢ "phone"
unfolding revoke_token get_token_by_hash run_token_turns
revoke_token_final_example =
    revoke_token_final "phone" two_devices one_left later_calls "h2" (device "tablet" "h2") refl
      refl

abbrev sessions : Site
sessions = record bare {
  web_sessions = record { id = "s"; expires_at = 90 } ∷ record { id = "t"; expires_at = 200 } ∷ [];
}

get_web_session-delete_expired_example :
    (get_web_session "s" (record (delete_expired_web_sessions (record sessions { faults = [] })).1 {
      now = 101;
      faults = [];
    })).0
    ≡ (get_web_session "s" (record sessions { now = 101; faults = [] })).0
unfolding opencode_backend.Sql.exists_where
get_web_session-delete_expired_example =
    get_web_session-delete_expired "s" sessions 101 (omega arith) (refl, (refl, tt))

nul_replaced :
    sanitize_payload_for_jsonb (codes "{\"a\":\"x\\u0000y\"}") ≡ codes "{\"a\":\"x\\ufffdy\"}"
unfolding sanitize_payload_for_jsonb
nul_replaced = refl
