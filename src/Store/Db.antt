-- ===== src/Store/Db.antt =====
-- The database as the methods of internal/store see it: the rows of `tasks`, the clock that
-- CURRENT_TIMESTAMP reads, and for each coming statement whether the database refuses it. A
-- refused statement changes no row, as a single SQL statement is atomic.
use opencode_backend.Base.{ℕ, Bool, true, false, List, [], ◌∷◌}
use opencode_backend.Exec.{Result, err, database, Exec}
use opencode_backend.Store.Task.{Task}

-- Times are nanoseconds since the epoch, the unit of Go's `time.Time`.
abbrev pub second : ℕ
second = 1_000_000_000

pub record Db : Type 0 where
  pub tasks : List Task
  pub now : ℕ
  pub faults : List Bool
  -- `isPostgres(s.driver)`
  pub postgres : Bool

abbrev pub Query : Type 0 → Type 0
Query A = Exec Db A

-- What one statement does at the time `now`: its result, or a constraint that it breaks, and the
-- rows.
abbrev pub Statement : Type 0 → Type 0
Statement A = ℕ → List Task → Result A × List Task

abbrev pub answer : {A : Type 0} → List Bool → Statement A → Db → Result A × Db
answer [] stmt d = ((stmt d.now d.tasks).0, record d { tasks = (stmt d.now d.tasks).1 })
answer (true ∷ fs) stmt d = (err database, record d { faults = fs })
answer (false ∷ fs) stmt d =
    ((stmt d.now d.tasks).0, record d { tasks = (stmt d.now d.tasks).1; faults = fs })

-- `s.db.ExecContext` or `s.db.QueryContext` of one statement.
unfoldable pub sql : {A : Type 0} → Statement A → Query A
sql stmt d = answer d.faults stmt d
