-- ===== src/Config.antt =====
-- internal/config/config.go: the configuration from flags and the environment, on code points.
-- Durations are nanoseconds.
pub mod Valid
pub mod Tests
use opencode_backend.Base.{
  ltb, ℕ, zero, suc, ◌*◌, ◌^◌, Bool, true, false, String, Option, none, some, List, [], ◌∷◌,
  if◌then◌else◌, not, ◌&&◌, ◌==◌,
}
use opencode_backend.Base.Int.{ℤ, pos, negsuc}
use opencode_backend.Automation.Text.{Text, codes, trim_space, atoi}
use opencode_backend.Stt.Runes.{equal_runes}

abbrev pub is_blank : Text → Bool
is_blank t = equal_runes (trim_space t) []

-- `<` of Go's signed integers.
unfoldable pub ltz : ℤ → ℤ → Bool
ltz (pos m) (pos n) = ltb m n
ltz (pos m) (negsuc n) = false
ltz (negsuc m) (pos n) = true
ltz (negsuc m) (negsuc n) = ltb n m

abbrev pub filled_or : Text → Option Text → Text
filled_or fallback none = fallback
filled_or fallback (some v) = if is_blank v then fallback else v

-- `env` is os.LookupEnv.
unfoldable pub env_or : (String → Option Text) → String → Text → Text
unfolding trim_space equal_runes
env_or env key fallback = filled_or fallback (env key)

abbrev pub given : Option Text → Text
given none = []
given (some v) = v

-- os.Getenv.
unfoldable pub getenv : (String → Option Text) → String → Text
getenv env key = given (env key)

abbrev pub or_else : ℤ → Option ℤ → ℤ
or_else fallback none = fallback
or_else fallback (some n) = n

abbrev pub read_or : (Text → Option ℤ) → ℤ → Option Text → ℤ
read_or reader fallback none = fallback
read_or reader fallback (some v) =
    if is_blank v then fallback else or_else fallback (reader (trim_space v))

unfoldable pub env_int : (String → Option Text) → String → ℤ → ℤ
unfolding trim_space equal_runes atoi
env_int env key fallback = read_or atoi fallback (env key)

-- `duration` is time.ParseDuration.
unfoldable pub env_duration : (String → Option Text) → (Text → Option ℤ) → String → ℤ → ℤ
unfolding trim_space equal_runes
env_duration env duration key fallback = read_or duration fallback (env key)

unfoldable pub stt_timeout_or_default : ℤ → ℤ → ℤ
unfolding ltz
stt_timeout_or_default d fallback = if ltz (pos 0) d then d else fallback

unfoldable pub clamp_int : ℤ → ℤ → ℤ → ℤ
unfolding ltz
clamp_int n lo hi = if ltz n lo then lo else if ltz hi n then hi else n

abbrev pub unless_last : ℕ → Text → Text
unless_last c [] = if c == b'/' then [] else c ∷ []
unless_last c (d ∷ ds) = c ∷ d ∷ ds

-- strings.TrimRight at "/".
unfoldable pub trim_slashes : Text → Text
trim_slashes [] = []
trim_slashes (c ∷ cs) = unless_last c (trim_slashes cs)

-- The values of the flags.
pub record Flags : Type 0 where
  pub listen : Text
  pub opencode_url : Text
  pub db : Text
  pub sqlite_path : Text
  pub pg_dsn : Text
  pub default_admin_password : Text
  pub default_token : Text
  pub webhook_secret : Text
  pub workers : ℤ
  pub task_retention : ℤ
  pub llm_url : Text
  pub llm_key : Text
  pub llm_model : Text
  pub stt_url : Text
  pub stt_timeout : ℤ
  pub stt_max_chunk_bytes : ℤ
  pub version : Bool
  pub health_check : Bool

pub record Config : Type 0 where
  pub listen_addr : Text
  pub opencode_url : Text
  pub db_driver : Text
  pub sqlite_path : Text
  pub postgres_dsn : Text
  pub default_admin_password : Text
  pub default_token : Text
  pub webhook_secret : Text
  pub workers : ℤ
  pub task_retention : ℤ
  pub llm_url : Text
  pub llm_key : Text
  pub llm_model : Text
  pub stt_url : Text
  pub stt_timeout : ℤ
  pub stt_max_chunk_bytes : ℤ
  pub show_version : Bool
  pub health_check : Bool

abbrev pub default_stt_timeout : ℤ
default_stt_timeout = pos (30 * 1000000000)

-- The defaults that the environment gives.
unfoldable pub default_flags : (String → Option Text) → (Text → Option ℤ) → Flags
unfolding env_or getenv env_int env_duration
default_flags env duration = record {
  listen = env_or env "OCB_LISTEN" (codes ":18880");
  opencode_url = env_or env "OCB_OPENCODE_URL" (codes "http://127.0.0.1:4096");
  db = env_or env "OCB_DB" (codes "sqlite");
  sqlite_path = env_or env "OCB_SQLITE_PATH" (codes "starburst-backend.db");
  pg_dsn = getenv env "OCB_PG_DSN";
  default_admin_password = env_or env "OCB_ADMIN_PASSWORD" (codes "admin");
  default_token = getenv env "OCB_DEFAULT_TOKEN";
  webhook_secret = getenv env "OCB_WEBHOOK_SECRET";
  workers = env_int env "OCB_WORKERS" (pos 4);
  task_retention = env_duration env duration "OCB_TASK_RETENTION" (pos 0);
  llm_url = env_or env "OCB_LLM_URL" [];
  llm_key = getenv env "OCB_LLM_KEY";
  llm_model = env_or env "OCB_LLM_MODEL" [];
  stt_url = env_or env "OCB_STT_URL" [];
  stt_timeout = env_duration env duration "OCB_STT_TIMEOUT" default_stt_timeout;
  stt_max_chunk_bytes = env_int env "OCB_STT_MAX_CHUNK_BYTES" (pos (2 * 1024 * 1024));
  version = false;
  health_check = false;
}

unfoldable pub config_of : Text → Flags → Config
unfolding trim_slashes clamp_int stt_timeout_or_default
config_of driver f = record {
  listen_addr = f.listen;
  opencode_url = trim_slashes f.opencode_url;
  db_driver = driver;
  sqlite_path = f.sqlite_path;
  postgres_dsn = f.pg_dsn;
  default_admin_password = f.default_admin_password;
  default_token = f.default_token;
  webhook_secret = f.webhook_secret;
  workers = clamp_int f.workers (pos 1) (pos 64);
  task_retention = f.task_retention;
  llm_url = trim_slashes f.llm_url;
  llm_key = f.llm_key;
  llm_model = f.llm_model;
  stt_url = trim_slashes f.stt_url;
  stt_timeout = stt_timeout_or_default f.stt_timeout default_stt_timeout;
  stt_max_chunk_bytes = clamp_int f.stt_max_chunk_bytes (pos 1024) (pos (8 * 1024 * 1024));
  show_version = f.version;
  health_check = f.health_check;
}

pub data Parsed : Type 0 where
  bad_flags : Parsed
  bad_driver : Parsed
  missing_dsn : Parsed
  parsed : Config → Parsed

abbrev pub checked_config : Text → Flags → Parsed
checked_config driver f =
    if not (equal_runes driver (codes "sqlite")) && not (equal_runes driver (codes "postgres"))
    then bad_driver
    else if equal_runes driver (codes "postgres") && is_blank f.pg_dsn
    then missing_dsn
    else parsed (config_of driver f)

abbrev pub parsed_flags : (Text → Text) → Option Flags → Parsed
parsed_flags lower none = bad_flags
parsed_flags lower (some f) = checked_config (lower f.db) f

-- `flags` is FlagSet.Parse over the arguments: it gets the defaults. `lower` is strings.ToLower.
unfoldable pub parse :
    (String → Option Text) → (Text → Option ℤ) → (Text → Text) → (Flags → Option Flags) → Parsed
unfolding default_flags config_of trim_space equal_runes
parse env duration lower flags = parsed_flags lower (flags (default_flags env duration))

abbrev pub or_this : Option Text → Option Text → Option Text
or_this (some rest) other = some rest
or_this none other = other

-- What stands behind the last colon.
unfoldable pub after_last_colon : Text → Option Text
after_last_colon [] = none
after_last_colon (c ∷ cs) = or_this (after_last_colon cs) (if c == b':' then some cs else none)

abbrev pub number_behind : Option Text → ℤ
number_behind none = pos 0
number_behind (some []) = pos 0
number_behind (some (c ∷ cs)) = or_else (pos 0) (atoi (c ∷ cs))

unfoldable pub port : Config → ℤ
unfolding after_last_colon atoi
port c = number_behind (after_last_colon c.listen_addr)
