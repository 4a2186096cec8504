-- ===== src/Store/Calm.antt =====
-- A database that refuses nothing goes on so, and its clock stands still within a call.
use opencode_backend.Base.{ℕ, String, [], ◌≡◌, Option}
use opencode_backend.Exec.Keeps.{Keeps, keeps_rules}
use opencode_backend.Store.Answers.{sql-calm}
use opencode_backend.Store.Db.{Db, Statement, sql}
use opencode_backend.Store.Tasks.{Update, exec_update, cancel_task, claim_recurring_fire}

abbrev pub Calm : ℕ → Db → Type 0
Calm now d = (d.faults ≡ []) × (d.now ≡ now)

module _ (now : ℕ) where
  pub Calm-sql : {A : Type 0} (stmt : Statement A) → Keeps (Calm now) (sql stmt)
  Calm-sql stmt = record { at = λ d h. rw (sql-calm stmt d h.0) h }

  Calm-exec_update : (u : Update) → Keeps (Calm now) (exec_update u)
  unfolding exec_update
  Calm-exec_update u = Calm-sql _

  pub Calm-cancel_task : (id : String) → Keeps (Calm now) (cancel_task id)
  unfolding cancel_task
  Calm-cancel_task id = search (keeps_rules, Calm-exec_update)

  pub Calm-claim_recurring_fire :
      (id : String) (e : Option ℕ) (fire : ℕ) → Keeps (Calm now) (claim_recurring_fire id e fire)
  unfolding claim_recurring_fire
  Calm-claim_recurring_fire id e fire = search (keeps_rules, Calm-exec_update)
