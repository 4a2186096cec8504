-- ===== src/Access/Handlers.antt =====
-- internal/server/handlers.go: login and logout, the admin password and the tokens.
pub mod Login
use opencode_backend.Base.{
  ℕ, Bool, true, false, String, Option, none, some, List, [], ◌∷◌, if◌then◌else◌, not, ◌||◌, str_eq,
}
use opencode_backend.Exec.{Err, Result, ok, err}
use opencode_backend.Automation.Text.{Text, codes, trim_space}
use opencode_backend.Records.Site.{Site, Token}
use opencode_backend.Records.Tokens.{list_tokens, revoke_token}
use opencode_backend.Records.WebSessions.{delete_web_session}
use opencode_backend.Server.RateLimit.{LoginLimiter, allow, clear}
use opencode_backend.Access.Manager.{
  Crypto, Outcome, done, store_failed, weak_password, bcrypt_failed, random_failed, set_password,
  verify_password, create_api_token,
}
use opencode_backend.Access.Door.{
  Door, Caller, require_token, require_web, register_web_session, with_site,
}

pub data Method : Type 0 where
  get_method post delete other_method : Method

-- What readBody makes of a body: `too_large` is answered 413, `malformed` 400.
pub data Decoded {ℓ} (A : Type ℓ) : Type ℓ where
  too_large malformed : Decoded A
  decoded : A → Decoded A

pub data Answer : Type 0 where
  error_answer : ℕ → String → Answer
  session_answer : String → Answer
  token_answer : Text → Answer
  tokens_answer : List Token → Answer
  ok_answer : Answer

abbrev pub registered_answer : Result String × Door → Answer × Door
registered_answer (err e, d) = (error_answer 500 "create session failed", d)
registered_answer (ok sid, d) = (session_answer sid, d)

-- From the outcome of VerifyPassword on.
abbrev pub checked : String → String → Result Bool → Door → Answer × Door
checked key sid (err e) d = (error_answer 500 "auth error", d)
checked key sid (ok false) d = (error_answer 401 "invalid password", d)
checked key sid (ok true) d =
    registered_answer (register_web_session sid (record d { limiter = clear key d.limiter }))

abbrev pub limited : Crypto → String → String → Text → Bool × LoginLimiter → Door → Answer × Door
limited k key sid password (false, l) d =
    (error_answer 429 "too many login attempts, try again later", record d { limiter = l })
limited k key sid password (true, l) d =
    let v = verify_password k password d.site in
    checked key sid v.0 (record d { limiter = l; site = v.1 })

-- The POST of handleWebSession; `key` is clientKey's, `sid` the random id.
unfoldable pub login : Crypto → String → String → Decoded Text → Door → Answer × Door
unfolding allow verify_password clear register_web_session
login k key sid too_large d = (error_answer 413 "request body too large", d)
login k key sid malformed d = (error_answer 400 "invalid request body", d)
login k key sid (decoded password) d =
    limited k key sid password (allow key (Site.now d.site) d.limiter) d

abbrev pub log_out : Caller → Bool × Door → Answer × Door
log_out r (false, d) = (error_answer 401 "not authorized", d)
log_out r (true, d) = (ok_answer, with_site d (delete_web_session r.web_session d.site).1)

unfoldable pub handle_web_session :
    Crypto → Method → String → String → Decoded Text → Caller → Door → Answer × Door
unfolding login require_web delete_web_session
handle_web_session k post key sid body r d = login k key sid body d
handle_web_session k delete key sid body r d = log_out r (require_web r d)
handle_web_session k get_method key sid body r d = (error_answer 405 "method not allowed", d)
handle_web_session k other_method key sid body r d = (error_answer 405 "method not allowed", d)

-- `err.Error()` is the body; "store", "bcrypt" and "rand" stand for the texts of other packages.
abbrev pub password_set : Outcome (Unit {0}) × Site → Door → Answer × Door
password_set (done _, s) d = (ok_answer, with_site d s)
password_set (store_failed e, s) d = (error_answer 400 "store", with_site d s)
password_set (bcrypt_failed, s) d = (error_answer 400 "bcrypt", with_site d s)
password_set (random_failed, s) d = (error_answer 400 "rand", with_site d s)
password_set (weak_password, s) d = (
  error_answer 400 "password must be at least 8 characters and not a common weak password",
  with_site d s,
)

abbrev pub new_password : Crypto → Decoded Text → Bool × Door → Answer × Door
new_password k body (false, d) = (error_answer 401 "not authorized", d)
new_password k too_large (true, d) = (error_answer 413 "request body too large", d)
new_password k malformed (true, d) = (error_answer 400 "invalid request body", d)
new_password k (decoded plain) (true, d) = password_set (set_password k plain d.site) d

unfoldable pub handle_web_password : Crypto → Method → Decoded Text → Caller → Door → Answer × Door
unfolding require_web set_password
handle_web_password k post body r d = new_password k body (require_web r d)
handle_web_password k get_method body r d = (error_answer 405 "method not allowed", d)
handle_web_password k delete body r d = (error_answer 405 "method not allowed", d)
handle_web_password k other_method body r d = (error_answer 405 "method not allowed", d)

abbrev pub by_token : Option Token × Caller × Door → Bool × Door
by_token (none, _, d) = (false, d)
by_token (some _, _, d) = (true, d)

abbrev pub or_token : Crypto → Caller → Bool × Door → Bool × Door
or_token k r (true, d) = (true, d)
or_token k r (false, d) = by_token (require_token k r d)

-- `requireWeb`, or else `requireToken`.
unfoldable pub web_or_token : Crypto → Caller → Door → Bool × Door
unfolding require_web require_token
web_or_token k r d = or_token k r (require_web r d)

abbrev pub listed_tokens : Result (List Token) × Site → Door → Answer × Door
listed_tokens (err e, s) d = (error_answer 500 "list tokens failed", with_site d s)
listed_tokens (ok ts, s) d = (tokens_answer ts, with_site d s)

abbrev pub issued_token : Outcome Text × Site → Door → Answer × Door
issued_token (done raw, s) d = (token_answer raw, with_site d s)
issued_token (store_failed e, s) d = (error_answer 500 "create token failed", with_site d s)
issued_token (weak_password, s) d = (error_answer 500 "create token failed", with_site d s)
issued_token (bcrypt_failed, s) d = (error_answer 500 "create token failed", with_site d s)
issued_token (random_failed, s) d = (error_answer 500 "create token failed", with_site d s)

-- The name of a new token: its text, and the code points of it.
abbrev pub new_token :
    Crypto → Option (List ℕ) → Option String → Decoded (String × Text) → Door → Answer × Door
new_token k bytes id too_large d = (error_answer 413 "request body too large", d)
new_token k bytes id malformed d = (error_answer 400 "invalid request body", d)
new_token k bytes id (decoded (name, runes)) d = elim (trim_space runes) [
  | [] ↦ (error_answer 400 "name is required", d)
  | _ ∷ _ ↦ issued_token (create_api_token k bytes id name d.site) d
]

abbrev pub tokens_by :
    Crypto
    → Method
    → Option (List ℕ)
    → Option String
    → Decoded (String × Text)
    → Bool × Door
    → Answer × Door
tokens_by k m bytes id body (false, d) = (error_answer 401 "web session or APP token required", d)
tokens_by k get_method bytes id body (true, d) = listed_tokens (list_tokens d.site) d
tokens_by k post bytes id body (true, d) = new_token k bytes id body d
tokens_by k delete bytes id body (true, d) = (error_answer 405 "method not allowed", d)
tokens_by k other_method bytes id body (true, d) = (error_answer 405 "method not allowed", d)

unfoldable pub handle_tokens :
    Crypto
    → Method
    → Option (List ℕ)
    → Option String
    → Decoded (String × Text)
    → Caller
    → Door
    → Answer × Door
unfolding web_or_token list_tokens trim_space create_api_token
handle_tokens k m bytes id body r d = tokens_by k m bytes id body (web_or_token k r d)

abbrev pub revoked_answer : Result (Unit {0}) × Site → Door → Answer × Door
revoked_answer (err e, s) d = (error_answer 404 "token not found", with_site d s)
revoked_answer (ok _, s) d = (ok_answer, with_site d s)

abbrev pub token_by_id : Method → String → Bool × Door → Answer × Door
token_by_id m id (false, d) = (error_answer 401 "web session or APP token required", d)
token_by_id delete id (true, d) =
    if str_eq id ""
    then (error_answer 400 "missing token id", d)
    else revoked_answer (revoke_token id d.site) d
token_by_id get_method id (true, d) = (error_answer 405 "method not allowed", d)
token_by_id post id (true, d) = (error_answer 405 "method not allowed", d)
token_by_id other_method id (true, d) = (error_answer 405 "method not allowed", d)

-- `id` is what the path has behind /api/tokens/.
unfoldable pub handle_token_by_id : Crypto → Method → String → Caller → Door → Answer × Door
unfolding web_or_token revoke_token
handle_token_by_id k m id r d = token_by_id m id (web_or_token k r d)
