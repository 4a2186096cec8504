-- ===== src/Push/Message.antt =====
-- internal/push/hub.go: `Message` and `SeverityFor`. A payload is the JSON object that the callers
-- marshal, its fields in the order in which they are written.
use opencode_backend.Base.{String, List, if◌then◌else◌, ◌||◌, str_eq}

abbrev pub info : String
info = "info"

abbrev pub warning : String
warning = "warning"

abbrev pub critical : String
critical = "critical"

pub record Message : Type 0 where
  pub type_name : String
  pub payload : List (String × String)
  pub severity : String

unfoldable pub severity_for : String → String
severity_for status =
    if str_eq status "failed"
    then critical
    else if str_eq status "retrying" || str_eq status "blocked"
    then warning
    else info
