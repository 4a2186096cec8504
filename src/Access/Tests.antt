-- ===== src/Access/Tests.antt =====
-- The theorems on passwords, tokens and sessions, with a toy hash.
use opencode_backend.Base.{ℕ, ◌+◌, true, some, List, [], ◌∷◌, ◌≡◌, refl}
use opencode_backend.Exec.{ok}
use opencode_backend.Automation.Text.{codes}
use opencode_backend.Stt.Runes.{equal_runes}
use opencode_backend.Records.Site.{Site}
use opencode_backend.Records.Tests.{bare}
use opencode_backend.Server.RateLimit.{new_login_limiter}
use opencode_backend.Access.Manager.{
  Crypto, weak_password, token_row, random_token, create_api_token, verify_token, set_password,
  verify_password, initialize,
}
use opencode_backend.Access.Manager.RoundTrips.{create_api_token-verify_token}
use opencode_backend.Access.Door.{Door, client_key, session_life}
use opencode_backend.Access.Handlers.{decoded, login}
use opencode_backend.Access.Handlers.Login.{IsSession, login-IsSession}

-- A single password has a hash.
abbrev toy : Crypto
toy = record {
  generate = λ p. some "hash";
  compare_hash = λ h p. equal_runes p (codes "correct horse");
  hash_token = λ t. "token hash";
}

-- The default password of the configuration is refused on the first start.
default_refused : (initialize toy (codes "admin") bare).0 ≡ weak_password
unfolding initialize
default_refused = refl

proxied_peer : client_key (codes "127.0.0.1") (codes " 10.0.0.7, 10.0.0.1") ≡ codes "10.0.0.7"
unfolding client_key
proxied_peer = refl

abbrev drawn_bytes : List ℕ
drawn_bytes = 0 ∷ 63 ∷ []

abbrev with_token : Site
with_token = (create_api_token toy (some drawn_bytes) (some "id1") "phone" bare).1

create_api_token-verify_token_example :
    (at : ℕ) × ((verify_token toy (random_token drawn_bytes) (record with_token { faults = [] })).0
      ≡ ok (record (token_row "id1" "phone" "token hash") { created_at = at }))
unfolding create_api_token
create_api_token-verify_token_example =
    create_api_token-verify_token toy drawn_bytes "id1" "phone" bare with_token
      (random_token drawn_bytes) refl

abbrev with_password : Site
with_password = (set_password toy (codes "correct horse") bare).1

abbrev closed : Door
closed = record { site = with_password; limiter = new_login_limiter 10 60; touched = [] }

abbrev opened : Door
opened = (login toy "10.0.0.7" "sid" (decoded (codes "correct horse")) closed).1

login-IsSession_example :
    ((verify_password toy (codes "correct horse") closed.site).0 ≡ ok true)
    × IsSession "sid" (Site.now closed.site + session_life) opened
unfolding login set_password equal_runes new_login_limiter opencode_backend.Sql.select_where
login-IsSession_example =
    login-IsSession toy "10.0.0.7" "sid" "sid" (codes "correct horse") closed opened refl refl
