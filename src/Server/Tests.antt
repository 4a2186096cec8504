-- ===== src/Server/Tests.antt =====
-- The theorems on the server at small worlds, requests and attempts.
use opencode_backend.Base.{
  ◌≡◌, ◌*◌, ◌+◌, ℕ, ◌≤◌, true, false, String, Option, none, some, ◌≡◌, List, [], ◌∷◌, refl, length,
  arith,
}
use opencode_backend.Automation.Cron.{Calendar}
use opencode_backend.Executor.World.{World}
use opencode_backend.Server.Cancel.{
  CanceledWith, OnlyCanceled, cancel_handler-CanceledWith, cancel_handler-OnlyCanceled,
}
use opencode_backend.Server.Create.{Startable, choose_status-Startable}
use opencode_backend.Server.Fire.{RolledBack, fire_recurring-RolledBack}
use opencode_backend.Automation.Text.{Text, codes}
use opencode_backend.Server.Projects.{SessionInfo, list_projects}
use opencode_backend.Server.Projects.Counts.{total, appearances, sessions_in, list_projects-counts}
use opencode_backend.Server.RateLimit.{new_login_limiter}
use opencode_backend.Server.RateLimit.Admission.{Event, tries, admitted_times, allow-Limited}
use opencode_backend.Server.RateLimit.Window.{recent}
use opencode_backend.Server.Scheduler.{fire_recurring}
use opencode_backend.Server.Tasks.{choose_status, CreateRequest, cancel_handler}
use opencode_backend.Store.Db.{second}
use opencode_backend.Store.Rules.{Rule, Station}
use opencode_backend.Store.Task.{Task, pending}
use opencode_backend.Store.Tests.{first, template, table, table-HasDistinctIds}

abbrev start_world : World
start_world = record { db = table; pushed = []; started = [] }

-- A calendar in which every second is the same, and the horizon is three seconds away.
abbrev still : Calendar
still = record {
  month = λ t. 1;
  day = λ t. 1;
  weekday = λ t. 0;
  hour = λ t. 0;
  minute = λ t. 0;
  seconds = λ t. 0;
  three_years_later = λ t. t + 3 * second;
}

abbrev drawn : Task → String
drawn t = "new"

abbrev no_time : String → Option ℕ
no_time s = none

abbrev knocks : List Event
knocks = tries "eve" 1 ∷ tries "eve" 2 ∷ tries "bob" 2 ∷ tries "eve" 3 ∷ []

allow-Limited_example :
    length (recent 60 5 (admitted_times "eve" knocks (new_login_limiter 2 60) [])) ≤ 2
allow-Limited_example =
    allow-Limited "eve" 2 60 0 5 knocks
      (omega arith, (omega arith, (omega arith, (omega arith, tt)))) (omega arith)

cancel_handler-CanceledWith_example : CanceledWith "a" first 10 (cancel_handler "a" [] start_world)
unfolding opencode_backend.Sql.find_where
cancel_handler-CanceledWith_example =
    cancel_handler-CanceledWith "a" start_world first refl table-HasDistinctIds refl refl

cancel_handler-OnlyCanceled_example :
    OnlyCanceled "c" start_world (cancel_handler "c" [] start_world)
unfolding opencode_backend.Sql.find_where
cancel_handler-OnlyCanceled_example =
    cancel_handler-OnlyCanceled "c" start_world template refl table-HasDistinctIds refl refl

abbrev faulty : World
faulty = record start_world { db = record table { faults = false ∷ true ∷ [] } }

fire_recurring-RolledBack_example :
    RolledBack template faulty (fire_recurring still drawn [] template (9 * second) faulty).1
unfolding opencode_backend.Sql.find_where opencode_backend.Automation.Cron.next_cron_of
    opencode_backend.Automation.Text.fields opencode_backend.Automation.Cron.parse_field
    opencode_backend.Automation.Text.trim_space opencode_backend.Automation.Text.split_at
    opencode_backend.Automation.Cron.fires_at
fire_recurring-RolledBack_example =
    fire_recurring-RolledBack still drawn template (9 * second) faulty refl table-HasDistinctIds
      refl refl refl

abbrev after_a : CreateRequest
after_a = record {
  name = "";
  prompt = "go";
  session_id = "";
  directory = "";
  depends_on = "a";
  scheduled_at = "";
  cron = "";
}

choose_status-Startable_example : Startable 9 after_a none table.tasks pending
unfolding choose_status opencode_backend.Executor.World.◌>>=◌ opencode_backend.Executor.World.give
    opencode_backend.Executor.World.call opencode_backend.Store.Tasks.get_task
    opencode_backend.Store.Db.sql opencode_backend.Sql.find_where
choose_status-Startable_example =
    choose_status-Startable 9 after_a none start_world pending refl refl

abbrev on_push : Rule
on_push = record {
  id = "r";
  name = "deploy";
  kind = "http";
  schedule = "";
  directory = "/srv";
  prompt = "deploy";
  enabled = true;
  last_fired_at = none;
  created_at = 1;
}

-- A digest that keeps the text.
abbrev same : String → String
same text = text

abbrev id_for : String → String
id_for id = "new"

abbrev hooked : Station
hooked = record { db = table; rules = on_push ∷ []; executions = [] }

abbrev in_dir : Text → SessionInfo
in_dir dir = record { directory = dir; path = [] }

list_projects-counts_example :
    (total (codes "/a") (
        list_projects
          (in_dir (codes "/a") ∷ in_dir (codes "/a/") ∷ in_dir (codes "/b") ∷ [])
          (some (codes "/a" ∷ codes "/c/" ∷ [])))
      ≡ 2)
    × (appearances (codes "/a") (
          list_projects
            (in_dir (codes "/a") ∷ in_dir (codes "/a/") ∷ in_dir (codes "/b") ∷ [])
            (some (codes "/a" ∷ codes "/c/" ∷ [])))
        ≤ 1)
unfolding sessions_in opencode_backend.Stt.Runes.equal_runes opencode_backend.Config.trim_slashes
    opencode_backend.Server.Projects.session_dir
list_projects-counts_example =
    list_projects-counts (in_dir (codes "/a") ∷ in_dir (codes "/a/") ∷ in_dir (codes "/b") ∷ [])
      (some (codes "/a" ∷ codes "/c/" ∷ [])) (codes "/a") refl
