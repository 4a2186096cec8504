-- ===== src/Config/Tests.antt =====
-- The theorem on configurations at a small environment.
use opencode_backend.Base.{String, Option, none, some, ◌≡◌, refl, if◌then◌else◌, str_eq}
use opencode_backend.Base.Int.{ℤ, pos}
use opencode_backend.Automation.Text.{Text, codes}
use opencode_backend.Config.{Flags, default_flags, parse, parsed, port, config_of, clamp_int}
use opencode_backend.Config.Valid.{IsAnswer, parse-IsAnswer}

abbrev environment : String → Option Text
environment key =
    if str_eq key "OCB_WORKERS"
    then some (codes " 100 ")
    else if str_eq key "OCB_STT_URL"
    then some (codes "http://stt//")
    else none

abbrev no_duration : Text → Option ℤ
no_duration t = none

abbrev same_case : Text → Text
same_case t = t

abbrev defaults : Flags
defaults = default_flags environment no_duration

workers_are_clamped : clamp_int defaults.workers (pos 1) (pos 64) ≡ pos 64
unfolding default_flags opencode_backend.Config.env_int clamp_int
workers_are_clamped = refl

port_of_default : port (config_of (codes "sqlite") defaults) ≡ pos 18880
unfolding default_flags opencode_backend.Config.env_or config_of port
port_of_default = refl

parse-IsAnswer_example :
    IsAnswer same_case (some defaults) (parse environment no_duration same_case some)
parse-IsAnswer_example = parse-IsAnswer environment no_duration same_case some (some defaults) refl
