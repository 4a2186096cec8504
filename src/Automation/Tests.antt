-- ===== src/Automation/Tests.antt =====
-- The theorems on cron fields, fire times and rules at small inputs.
use opencode_backend.Base.{
  ◌-◌, ◌^◌, arith, ◌/◌, ℕ, ◌+◌, ◌*◌, true, String, Option, none, some, [], ◌∷◌, ◌≡◌, refl,
}
use opencode_backend.Base.Int.{ℤ, pos}
use opencode_backend.Exec.{ok}
use opencode_backend.Automation.Cron.{Calendar, Allowed, contains, parse_field, next_time, fires_at}
use opencode_backend.Automation.Cron.Fields.{IsField, parse_field-IsField}
use opencode_backend.Automation.Cron.NextTime.{IsFirst, next_time-IsFirst}
use opencode_backend.Automation.Engine.{fire}
use opencode_backend.Automation.Engine.Firing.{fired_station, fire-Fired}
use opencode_backend.Automation.Text.{Text, codes}
use opencode_backend.Sql.{find_where}
use opencode_backend.Store.Db.{second}
use opencode_backend.Store.Rules.{Rule, Station}
use opencode_backend.Store.Tests.{table}

-- A calendar of a single minute, and a horizon of ten seconds.
abbrev seconds_only : Calendar
seconds_only = record {
  month = λ t. 1;
  day = λ t. 1;
  weekday = λ t. 0;
  hour = λ t. 0;
  minute = λ t. 0;
  seconds = λ t. t / second;
  three_years_later = λ t. t + 10 * second;
}

abbrev on_second : ℕ → Allowed
on_second n = record {
  secs = n ∷ [];
  mins = 0 ∷ [];
  hours = 0 ∷ [];
  days = 1 ∷ [];
  months = 1 ∷ [];
  weeks = 0 ∷ [];
}

next_time-IsFirst_example :
    IsFirst seconds_only (on_second 3) (0 + second) (10 * second) (3 * second)
unfolding next_time fires_at contains
next_time-IsFirst_example = next_time-IsFirst seconds_only (on_second 3) 0 (3 * second) refl

parse_field-IsField_example : IsField 0 59 (5 ∷ 10 ∷ [])
unfolding parse_field opencode_backend.Automation.Text.trim_space
    opencode_backend.Automation.Text.split_at opencode_backend.Automation.Text.atoi
parse_field-IsField_example =
    parse_field-IsField (codes "5,10,5") 0 59 (5 ∷ 10 ∷ []) (omega arith, omega arith) refl

-- The step 2^63 - 1 in a field of months: 1, and the 64 bits of two negative numbers.
step_wraps :
    parse_field (codes "*/9223372036854775807") 1 12 ≡ some (1 ∷ (2 ^ 63) ∷ (2 ^ 64 - 1) ∷ [])
unfolding parse_field opencode_backend.Automation.Text.trim_space
    opencode_backend.Automation.Text.split_at opencode_backend.Automation.Text.atoi
step_wraps = refl

abbrev minutely : Rule
minutely = record {
  id = "r";
  name = "tidy";
  kind = "cron";
  schedule = "60s";
  directory = "/srv";
  prompt = "tidy up";
  enabled = true;
  last_fired_at = none;
  created_at = 1;
}

abbrev station : Station
station = record { db = table; rules = minutely ∷ []; executions = [] }

abbrev drawn : String → String
drawn id = "new"

-- Every text stands for a minute.
abbrev minute_of : Text → Option ℤ
minute_of s = some (pos (60 * second))

fire-Fired_example : fire drawn "r" station ≡ (ok tt, fired_station "r" minutely "new" station)
unfolding find_where opencode_backend.Sql.exists_where
fire-Fired_example = fire-Fired drawn "r" minutely station refl refl refl refl
