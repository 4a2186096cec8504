-- ===== src/Access/Manager.antt =====
-- internal/auth/auth.go: the Manager over the store. bcrypt, sha256 and crypto/rand are parameters.
pub mod RoundTrips
use opencode_backend.Base.{
  ℕ, zero, suc, ◌%◌, Bool, true, false, String, Option, none, some, List, [], ◌∷◌, ◌++◌, map,
  if◌then◌else◌,
}
use opencode_backend.Exec.{Err, Result, ok, err, not_found, database, Exec}
use opencode_backend.Automation.Text.{Text, codes, trim_space}
use opencode_backend.Records.Site.{Site, Token}
use opencode_backend.Records.Settings.{get_setting, set_setting}
use opencode_backend.Records.Tokens.{create_token, get_token_by_hash}
use opencode_backend.Access.Passwords.{is_strong_password}

pub record Crypto : Type 0 where
  -- bcrypt.GenerateFromPassword and CompareHashAndPassword
  pub generate : Text → Option String
  pub compare_hash : String → Text → Bool
  -- HashToken
  pub hash_token : Text → String

-- What a method returns: a value, or an error of the store, or one of its own.
pub data Outcome {ℓ} (A : Type ℓ) : Type ℓ where
  done : A → Outcome A
  store_failed : Err → Outcome A
  weak_password bcrypt_failed random_failed : Outcome A

abbrev pub setting_admin_password_hash : String
setting_admin_password_hash = "admin.password_hash"

abbrev pub setting_default_token_set : String
setting_default_token_set = "admin.default_token_set"

abbrev pub stored_unit : Result (Unit {0}) → Outcome (Unit {0})
stored_unit (ok u) = done u
stored_unit (err e) = store_failed e

abbrev pub save_hash : Option String → Site → Outcome (Unit {0}) × Site
save_hash none s = (bcrypt_failed, s)
save_hash (some h) s = let r = set_setting setting_admin_password_hash h s in (stored_unit r.0, r.1)

unfoldable pub set_password : Crypto → Text → Site → Outcome (Unit {0}) × Site
unfolding is_strong_password set_setting
set_password k plain s =
    if is_strong_password plain then save_hash (k.generate plain) s else (weak_password, s)

-- Whether the password was created.
abbrev pub created : Outcome (Unit {0}) × Site → Outcome Bool × Site
created (done _, s) = (done true, s)
created (store_failed e, s) = (store_failed e, s)
created (weak_password, s) = (weak_password, s)
created (bcrypt_failed, s) = (bcrypt_failed, s)
created (random_failed, s) = (random_failed, s)

abbrev pub first_run : Crypto → Text → Result String → Site → Outcome Bool × Site
first_run k plain (ok _) s = (done false, s)
first_run k plain (err database) s = (store_failed database, s)
first_run k plain (err not_found) s = created (set_password k plain s)

unfoldable pub initialize : Crypto → Text → Site → Outcome Bool × Site
unfolding get_setting set_password
initialize k default_password s =
    let r = get_setting setting_admin_password_hash s in first_run k default_password r.0 r.1

abbrev pub marked : Text → Result (Unit {0}) × Site → Outcome Text × Site
marked raw (err e, s) = (store_failed e, s)
marked raw (ok _, s) = (done raw, s)

abbrev pub mark_default : Text → Result (Unit {0}) × Site → Outcome Text × Site
mark_default raw (err e, s) = (store_failed e, s)
mark_default raw (ok _, s) = marked raw (set_setting setting_default_token_set "1" s)

abbrev pub token_row : String → String → String → Token
token_row id name hash = record {
  id = id;
  name = name;
  token_hash = hash;
  created_at = 0;
  revoked_at = none;
  last_used = none;
}

abbrev pub provision : Crypto → Text → Result String → Site → Outcome Text × Site
provision k raw (ok _) s = (done [], s)
provision k raw (err database) s = (store_failed database, s)
provision k raw (err not_found) s =
    mark_default raw (create_token (token_row "default" "default" (k.hash_token raw)) s)

abbrev pub after_blank : Crypto → Text → Text → Site → Outcome Text × Site
after_blank k raw [] s = (done [], s)
after_blank k raw (c ∷ cs) s =
    let r = get_setting setting_default_token_set s in provision k raw r.0 r.1

unfoldable pub ensure_default_token : Crypto → Text → Site → Outcome Text × Site
unfolding trim_space get_setting create_token set_setting
ensure_default_token k default_token s = after_blank k default_token (trim_space default_token) s

abbrev pub compared : Crypto → Text → Result String → Result Bool
compared k plain (ok h) = ok (k.compare_hash h plain)
compared k plain (err not_found) = ok false
compared k plain (err database) = err database

unfoldable pub verify_password : Crypto → Text → Exec Site Bool
unfolding get_setting
verify_password k plain s =
    let r = get_setting setting_admin_password_hash s in (compared k plain r.0, r.1)

abbrev pub token_charset : Text
token_charset = codes "abcdefghijklmnopqrstuvwxyzABCDEFGHIJKLMNOPQRSTUVWXYZ0123456789"

abbrev pub rune_at : ℕ → Text → ℕ
rune_at n [] = 0
rune_at zero (c ∷ cs) = c
rune_at (suc n) (c ∷ cs) = rune_at n cs

-- `randomToken`, on the 32 bytes that crypto/rand gives.
unfoldable pub random_token : List ℕ → Text
random_token bytes = codes "ocb_" ++ map (λ b. rune_at (b % 62) token_charset) bytes

abbrev pub issued : Text → Result (Unit {0}) × Site → Outcome Text × Site
issued raw (ok _, s) = (done raw, s)
issued raw (err e, s) = (store_failed e, s)

-- The bytes of randomToken and the id of randomID, where crypto/rand gives them.
unfoldable pub create_api_token :
    Crypto → Option (List ℕ) → Option String → String → Site → Outcome Text × Site
unfolding random_token create_token
create_api_token k none id name s = (random_failed, s)
create_api_token k (some bytes) none name s = (random_failed, s)
create_api_token k (some bytes) (some id) name s =
    let raw = random_token bytes in
    issued raw (create_token (token_row id name (k.hash_token raw)) s)

abbrev pub verify_full : Crypto → Text → Text → Exec Site Token
verify_full k raw [] s = (err not_found, s)
verify_full k raw (c ∷ cs) s = get_token_by_hash (k.hash_token raw) s

unfoldable pub verify_token : Crypto → Text → Exec Site Token
unfolding trim_space get_token_by_hash
verify_token k raw s = verify_full k raw (trim_space raw) s
