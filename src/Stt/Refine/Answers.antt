-- ===== src/Stt/Refine/Answers.antt =====
-- handleSTTRefine of internal/server/stt_refine.go: a readable request is always answered.
use opencode_backend.Base.{Option, String, ◌≡◌, ◌⊎◌}
use opencode_backend.Automation.Text.{Text}
use opencode_backend.Stt.Refine.{RefineReply, respond, local_repair}
use opencode_backend.Stt.Refine.Share.{IsRepair}

-- The answer holds the local repair of the transcript or a believable repair by the model.
abbrev pub IsAnswer : Text → RefineReply → Type 0
IsAnswer original reply =
    (cleaned : Text) × (reason : Option String) × (reply ≡ respond original cleaned reason)
    × ((cleaned ≡ local_repair original) ⊎ IsRepair original cleaned)
