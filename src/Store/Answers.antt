-- ===== src/Store/Answers.antt =====
-- What the result of a statement says of the rows that it leaves.
use opencode_backend.Base.{Bool, true, false, List, [], ◌∷◌, ◌≡◌, refl}
use opencode_backend.Exec.{Result, ok, err, not_found}
use opencode_backend.Store.Db.{Db, Statement, answer, sql}

-- The statement ran, and answered `r`.
pub record Ran {A : Type 0} (stmt : Statement A) (d : Db) (r : Result A) (d' : Db) : Type 0 where
  pub result : (stmt d.now d.tasks).0 ≡ r
  pub tasks : d'.tasks ≡ (stmt d.now d.tasks).1
  pub now : d'.now ≡ d.now
  pub postgres : d'.postgres ≡ d.postgres

answer-Ran_ok :
    {A : Type 0} (fs : List Bool) (stmt : Statement A) (d : Db) (a : A)
    → (answer fs stmt d).0 ≡ ok a
    → Ran stmt d (ok a) (answer fs stmt d).1
answer-Ran_ok [] stmt d a e = record { result = e; tasks = refl; now = refl; postgres = refl }
answer-Ran_ok (true ∷ fs) stmt d a e = cc
answer-Ran_ok (false ∷ fs) stmt d a e = record {
  result = e;
  tasks = refl;
  now = refl;
  postgres = refl;
}

pub sql-Ran_ok :
    {A : Type 0} (stmt : Statement A) (d : Db) (a : A)
    → (sql stmt d).0 ≡ ok a
    → Ran stmt d (ok a) (sql stmt d).1
unfolding sql
sql-Ran_ok stmt d a e = answer-Ran_ok d.faults stmt d a e

answer-Ran_not_found :
    {A : Type 0} (fs : List Bool) (stmt : Statement A) (d : Db)
    → (answer fs stmt d).0 ≡ err not_found
    → Ran stmt d (err not_found) (answer fs stmt d).1
answer-Ran_not_found [] stmt d e = record { result = e; tasks = refl; now = refl; postgres = refl }
answer-Ran_not_found (true ∷ fs) stmt d e = cc
answer-Ran_not_found (false ∷ fs) stmt d e = record {
  result = e;
  tasks = refl;
  now = refl;
  postgres = refl;
}

pub sql-Ran_not_found :
    {A : Type 0} (stmt : Statement A) (d : Db)
    → (sql stmt d).0 ≡ err not_found
    → Ran stmt d (err not_found) (sql stmt d).1
unfolding sql
sql-Ran_not_found stmt d e = answer-Ran_not_found d.faults stmt d e

-- A database that refuses nothing.
pub sql-calm :
    {A : Type 0} (stmt : Statement A) (d : Db)
    → d.faults ≡ []
    → sql stmt d ≡ ((stmt d.now d.tasks).0, record d { tasks = (stmt d.now d.tasks).1 })
unfolding sql
sql-calm stmt d h = rw h
