-- ===== src/Push/Tests.antt =====
-- The ledger of the hub over two clients, one of which cannot be written to.
use opencode_backend.Base.{◌==◌, some, List, [], ◌∷◌}
use opencode_backend.Push.Hub.{new_hub, registers, unregisters, stops, runs}
use opencode_backend.Push.Hub.Ledger.{
  Balanced, HubCall, operates, broadcasts, run_calls, run_calls-Balanced,
}
use opencode_backend.Push.Message.{Message, info}

abbrev hello : Message
hello = record { type_name = "task.event"; payload = []; severity = info }

abbrev calls : List HubCall
calls =
    operates registers
    ∷ operates registers
    ∷ broadcasts (λ c. c == 0) (λ c. unregisters (some 1) ∷ []) hello
    ∷ operates stops
    ∷ operates runs
    ∷ []

run_calls-Balanced_example : Balanced (run_calls calls new_hub)
run_calls-Balanced_example = run_calls-Balanced calls
