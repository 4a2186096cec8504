-- ===== src/Access/Door.antt =====
-- internal/server/server.go and ratelimit.go: who a request comes from.
use opencode_backend.Base.{
  not, ℕ, ◌+◌, ◌-◌, ◌*◌, Bool, true, false, String, Option, none, some, List, [], ◌∷◌,
  if◌then◌else◌, ltb, ◌||◌, str_eq, drop, length,
}
use opencode_backend.Exec.{Result, ok, err}
use opencode_backend.Automation.Text.{Text, codes, trim_space, split_at}
use opencode_backend.Store.Db.{second}
use opencode_backend.Stt.Runes.{equal_runes, starts_with}
use opencode_backend.Records.Site.{Site, Token, WebSession}
use opencode_backend.Records.Tokens.{touch_token}
use opencode_backend.Records.WebSessions.{get_web_session, create_web_session}
use opencode_backend.Records.Audit.{record_audit}
use opencode_backend.Server.RateLimit.{LoginLimiter}
use opencode_backend.Access.Manager.{Crypto, verify_token}

-- The fields of Server that these functions change: the store, the login limiter and `touchSeen`.
pub record Door : Type 0 where
  pub site : Site
  pub limiter : LoginLimiter
  pub touched : List (String × ℕ)

-- A request: the record that its context caches, its headers and its query.
pub record Caller : Type 0 where
  pub cached : Option Token
  pub authorization : Text
  pub web_session : String
  pub query_token : Text

abbrev pub touch_interval : ℕ
touch_interval = 60 * second

unfoldable pub last_touch : String → List (String × ℕ) → Option ℕ
last_touch id [] = none
last_touch id ((k, at) ∷ rows) =
    let rest = last_touch id rows in if str_eq k id then some at else rest

unfoldable pub set_touch : String → ℕ → List (String × ℕ) → List (String × ℕ)
set_touch id now [] = (id, now) ∷ []
set_touch id now ((k, at) ∷ rows) =
    let rest = set_touch id now rows in if str_eq k id then (id, now) ∷ rows else (k, at) ∷ rest

abbrev pub touch_now : String → Door → Door
touch_now id d = record d {
  touched = set_touch id (Site.now d.site) d.touched;
  site = (touch_token id d.site).1;
}

abbrev pub touch_since : Option ℕ → String → Door → Door
touch_since none id d = touch_now id d
touch_since (some last) id d =
    if ltb (Site.now d.site - last) touch_interval then d else touch_now id d

unfoldable pub touch_token_throttled : String → Door → Door
unfolding last_touch set_touch touch_token
touch_token_throttled id d = touch_since (last_touch id d.touched) id d

abbrev pub bearer : Text
bearer = codes "Bearer "

-- `strings.CutPrefix(authz, "Bearer ")`
unfoldable pub cut_bearer : Text → Option Text
unfolding starts_with
cut_bearer t = if starts_with bearer t then some (drop (length bearer) t) else none

abbrev pub admitted : Caller → Result Token → Door → Option Token × Caller × Door
admitted r (err _) d = (none, r, d)
admitted r (ok rec) d =
    (some rec, record r { cached = some rec }, touch_token_throttled (Token.id rec) d)

abbrev pub with_site : Door → Site → Door
with_site d s = record d { site = s }

abbrev pub check_token : Crypto → Caller → Option Text → Door → Option Token × Caller × Door
check_token k r none d = (none, r, d)
check_token k r (some token) d = elim (trim_space token) [
  | [] ↦ (none, r, d)
  | _ ∷ _ ↦ let v = verify_token k token d.site in admitted r v.0 (with_site d v.1)
]

abbrev pub cached_or : Crypto → Caller → Option Token → Door → Option Token × Caller × Door
cached_or k r (some rec) d = (some rec, r, d)
cached_or k r none d = check_token k r (cut_bearer r.authorization) d

unfoldable pub require_token : Crypto → Caller → Door → Option Token × Caller × Door
unfolding cut_bearer trim_space verify_token touch_token_throttled
require_token k r d = cached_or k r r.cached d

abbrev pub queried : Caller → Result Token → Door → Option Token × Caller × Door
queried r (err _) d = (none, r, d)
queried r (ok rec) d = (some rec, r, touch_token_throttled (Token.id rec) d)

abbrev pub from_query : Crypto → Option Token × Caller × Door → Option Token × Caller × Door
from_query k (some rec, r, d) = (some rec, r, d)
from_query k (none, r, d) = elim (r.query_token) [
  | [] ↦ (none, r, d)
  | _ ∷ _ ↦ let v = verify_token k r.query_token d.site in queried r v.0 (with_site d v.1)
]

unfoldable pub token_from_request : Crypto → Caller → Door → Option Token × Caller × Door
unfolding require_token verify_token touch_token_throttled
token_from_request k r d = from_query k (require_token k r d)

abbrev pub is_found : Result WebSession → Bool
is_found (ok _) = true
is_found (err _) = false

unfoldable pub require_web : Caller → Door → Bool × Door
unfolding get_web_session
require_web r d =
    if str_eq r.web_session ""
    then (false, d)
    else let found = get_web_session r.web_session d.site in (is_found found.0, with_site d found.1)

abbrev pub session_life : ℕ
session_life = 24 * 3600 * second

-- `sid` is the random id.
abbrev pub registered : String → Result (Unit {0}) → Result String
registered sid (ok _) = ok sid
registered sid (err e) = err e

unfoldable pub register_web_session : String → Door → Result String × Door
unfolding create_web_session
register_web_session sid d =
    let made = create_web_session sid (Site.now d.site + session_life) d.site in
    (registered sid made.0, with_site d made.1)

abbrev pub log_call : String → String → ℕ → Option Token × Caller × Door → Door
log_call method path status (none, _, d) = d
log_call method path status (some rec, _, d) =
    with_site d
      (record_audit
        (record {
          id = 0;
          token_id = Token.id rec;
          token_name = Token.name rec;
          method = method;
          path = path;
          status = status;
          created_at = 0;
        })
        d.site).1

-- The audit part of logMiddleware, after the handler has written `status`.
unfoldable pub audit_request : Crypto → Text → String → String → ℕ → Caller → Door → Door
unfolding starts_with token_from_request record_audit
audit_request k path path_text method status r d =
    if not (starts_with (codes "/api/") path)
    then d
    else if starts_with (codes "/api/stt") path
    then d
    else log_call method path_text status (token_from_request k r d)

abbrev pub is_loopback : Text → Bool
is_loopback host =
    equal_runes host (codes "127.0.0.1")
    || equal_runes host (codes "::1")
    || equal_runes host (codes "localhost")

abbrev pub first_part : List Text → Text
first_part [] = []
first_part (p ∷ _) = p

abbrev pub full_or : Text → Text → Text
full_or [] host = host
full_or (c ∷ cs) host = c ∷ cs

-- `host` is that of net.SplitHostPort, or RemoteAddr where that fails.
unfoldable pub client_key : Text → Text → Text
unfolding equal_runes split_at trim_space
client_key host forwarded =
    if is_loopback host
    then full_or (trim_space (first_part (split_at b',' forwarded))) host
    else host
