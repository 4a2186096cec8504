-- ===== src/Server/RateLimit.antt =====
-- internal/server/ratelimit.go: the limiter of login attempts. The map is an association list, with
-- the key once; Go's order of iteration does not matter to `prune`, which treats each key alone.
pub mod Window
pub mod Admission
use opencode_backend.Base.{
  ℕ, ◌+◌, Bool, true, false, String, List, [], ◌∷◌, ◌++◌, ltb, leb, length, str_eq, if◌then◌else◌,
}
use opencode_backend.Sql.{select_where}

pub record LoginLimiter : Type 0 where
  pub attempts : List (String × List ℕ)
  pub limit : ℕ
  pub window : ℕ

unfoldable pub new_login_limiter : ℕ → ℕ → LoginLimiter
new_login_limiter limit window = record { attempts = []; limit = limit; window = window }

-- `ts.After(now.Add(-l.window))`
abbrev pub is_recent : ℕ → ℕ → ℕ → Bool
is_recent window now ts = ltb now (ts + window)

-- `l.attempts[key]`, which is empty for a key that is not there.
unfoldable pub attempts_of : String → List (String × List ℕ) → List ℕ
attempts_of key [] = []
attempts_of key ((k, ts) ∷ m) = let rest = attempts_of key m in if str_eq k key then ts else rest

-- `l.attempts[key] = ts`
unfoldable pub set_attempts : String → List ℕ → List (String × List ℕ) → List (String × List ℕ)
set_attempts key ts [] = (key, ts) ∷ []
set_attempts key ts ((k, us) ∷ m) =
    let rest = set_attempts key ts m in if str_eq k key then (key, ts) ∷ m else (k, us) ∷ rest

-- `delete(l.attempts, key)`
unfoldable pub delete_key : String → List (String × List ℕ) → List (String × List ℕ)
delete_key key [] = []
delete_key key ((k, us) ∷ m) =
    let rest = delete_key key m in if str_eq k key then rest else (k, us) ∷ rest

abbrev pub keep_alive : String → List ℕ → List (String × List ℕ) → List (String × List ℕ)
keep_alive k [] m = m
keep_alive k (t ∷ ts) m = (k, t ∷ ts) ∷ m

unfoldable pub prune : ℕ → ℕ → List (String × List ℕ) → List (String × List ℕ)
prune window now [] = []
prune window now ((k, ts) ∷ m) =
    keep_alive k (select_where (is_recent window now) ts) (prune window now m)

unfoldable pub allow : String → ℕ → LoginLimiter → Bool × LoginLimiter
unfolding attempts_of set_attempts prune
allow key now l =
    let hits = select_where (is_recent l.window now) (attempts_of key l.attempts) in
    if leb l.limit (length hits)
    then (false, record l { attempts = set_attempts key hits l.attempts })
    else (
      true,
      record l { attempts = prune l.window now (set_attempts key (hits ++ now ∷ []) l.attempts) },
    )

unfoldable pub clear : String → LoginLimiter → LoginLimiter
unfolding delete_key
clear key l = record l { attempts = delete_key key l.attempts }
