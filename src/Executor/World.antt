-- ===== src/Executor/World.antt =====
-- What a worker of internal/tasks acts on: the database, the messages that were broadcast and the
-- goroutines that it started. Errors that the Go code assigns to `_` are dropped here too.
use opencode_backend.Base.{String, List, [], ◌∷◌, ◌++◌}
use opencode_backend.Exec.{Result}
use opencode_backend.Push.Message.{Message, severity_for}
use opencode_backend.Store.Calls.{Turn, run_turns}
use opencode_backend.Store.Db.{Db, Query}

-- A goroutine of `pushSummary` or `pushFailureAnalysis`, for the task and with the text to send.
pub data Job : Type 0 where
  summary analysis : String → String → Job

pub record World : Type 0 where
  pub db : Db
  pub pushed : List Message
  pub started : List Job

abbrev pub Act : Type 0 → Type 0
Act A = World → A × World

infixl 5 ◌>>=◌ ◌>>◌
unfoldable pub ◌>>=◌ : {A B : Type 0} → Act A → (A → Act B) → Act B
◌>>=◌ m f w = f (m w).0 (m w).1

unfoldable pub ◌>>◌ : {B : Type 0} → Act (Unit {0}) → Act B → Act B
unfolding ◌>>=◌
m >> k = m >>= λ _. k

unfoldable pub done : Act (Unit {0})
done w = (tt, w)

unfoldable pub give : {A : Type 0} → A → Act A
give a w = (a, w)

unfoldable pub call : {A : Type 0} → Query A → Act (Result A)
call q w = ((q w.db).0, record w { db = (q w.db).1 })

unfoldable pub ignore : {A : Type 0} → Query A → Act (Unit {0})
ignore q w = (tt, record w { db = (q w.db).1 })

-- What the other goroutines and processes do to the database while this one waits.
unfoldable pub others : List Turn → Act (Unit {0})
others turns w = (tt, record w { db = run_turns w.db turns })

-- `e.hub.Broadcast`
unfoldable pub broadcast : Message → Act (Unit {0})
broadcast m w = (tt, record w { pushed = w.pushed ++ m ∷ [] })

unfoldable pub push_task_event : String → List (String × String) → Act (Unit {0})
unfolding broadcast
push_task_event status payload =
    broadcast
      (record { type_name = "task.event"; payload = payload; severity = severity_for status })

unfoldable pub start : Job → Act (Unit {0})
start j w = (tt, record w { started = w.started ++ j ∷ [] })
