-- ===== src/Server/Create.antt =====
-- The status in which POST /api/tasks starts a task, against its time and its upstream.
use opencode_backend.Base.{
  [], ℕ, true, false, Option, none, some, List, inl, inr, ◌≡◌, refl, ap, str_eq, Bool-cases,
}
use mathlib.Core.Path.{subst}
use opencode_backend.Executor.World.{World, ◌>>=◌, give, call}
use opencode_backend.Server.Tasks.{
  CreateRequest, Choice, refuse, start_in, is_future, choice_after, after_upstream, choose_status,
}
use opencode_backend.Store.Answers.{sql-calm}
use opencode_backend.Store.Lookup.{row_of}
use opencode_backend.Store.Task.{
  Task, Status, queued, running, succeeded, failed, canceled, pending, blocked, scheduled,
  is_terminal, is_blocked,
}
use opencode_backend.Store.Tasks.{found_row, get_task}

-- Why a new task may start in a status, given the rows of the table.
pub data Startable (now : ℕ) (req : CreateRequest) (at : Option ℕ) (ts : List Task)
    : Status → Type 0 where
  has_cron : str_eq req.cron "" ≡ false → Startable now req at ts scheduled
  is_later : is_future now at ≡ true → Startable now req at ts scheduled
  waits_for_none : str_eq req.depends_on "" ≡ true → Startable now req at ts queued
  upstream_done :
      (up : Task)
      → row_of req.depends_on ts ≡ some up
      → up.status ≡ succeeded
      → Startable now req at ts queued
  upstream_goes_on :
      (up : Task)
      → row_of req.depends_on ts ≡ some up
      → is_terminal up.status ≡ false
      → is_blocked up.status ≡ false
      → Startable now req at ts pending

abbrev chosen : Choice → Status
chosen (refuse code message) = queued
chosen (start_in s) = s

module _ (now : ℕ) (req : CreateRequest) (at : Option ℕ) (ts : List Task) where
  from_choice :
      (s z : Status)
      → Startable now req at ts z
      → start_in z ≡ start_in s
      → Startable now req at ts s
  from_choice s z k h = subst (λ x. Startable now req at ts x) (ap chosen h) k

  from_status :
      (up : Task) (q s : Status)
      → row_of req.depends_on ts ≡ some up
      → up.status ≡ q
      → choice_after q ≡ start_in s
      → Startable now req at ts s
  unfolding choice_after
  from_status up queued s row e h =
      from_choice s pending (upstream_goes_on up row (rw e refl) (rw e refl)) h
  from_status up running s row e h =
      from_choice s pending (upstream_goes_on up row (rw e refl) (rw e refl)) h
  from_status up pending s row e h =
      from_choice s pending (upstream_goes_on up row (rw e refl) (rw e refl)) h
  from_status up scheduled s row e h =
      from_choice s pending (upstream_goes_on up row (rw e refl) (rw e refl)) h
  from_status up succeeded s row e h = from_choice s queued (upstream_done up row e) h
  from_status up failed s row e h = cc
  from_status up canceled s row e h = cc
  from_status up blocked s row e h = cc

  from_upstream :
      (o : Option Task) (s : Status)
      → row_of req.depends_on ts ≡ o
      → after_upstream (found_row o) ≡ start_in s
      → Startable now req at ts s
  unfolding after_upstream
  from_upstream none s row h = cc
  from_upstream (some up) s row h = from_status up up.status s row refl h

-- On a database that refuses nothing: when a request is not refused, its task starts planned only
-- with a cron expression or a time to come, queued only if it names no upstream or one that has
-- succeeded, and pending only on an upstream that is there, has not ended and is not blocked.
pub choose_status-Startable :
    (now : ℕ) (req : CreateRequest) (at : Option ℕ) (w : World) (s : Status)
    → w.db.faults ≡ []
    → (choose_status now req at w).0 ≡ start_in s
    → Startable now req at w.db.tasks s
unfolding choose_status ◌>>=◌ give call get_task
choose_status-Startable now req at w s calm h = elim (Bool-cases (str_eq req.cron "")) [
  | inr c ↦ from_choice now req at w.db.tasks s scheduled (has_cron c) (rw c at h)
  | inl c ↦ elim (Bool-cases (is_future now at)) [
    | inl f ↦ from_choice now req at w.db.tasks s scheduled (is_later f) (rw (c, f) at h)
    | inr f ↦ elim (Bool-cases (str_eq req.depends_on "")) [
      | inl d ↦ from_choice now req at w.db.tasks s queued (waits_for_none d) (rw (c, f, d) at h)
      | inr d ↦ from_upstream now req at w.db.tasks (row_of req.depends_on w.db.tasks) s refl (
          rw
            (c, f, d, sql-calm (λ t rows. (found_row (row_of req.depends_on rows), rows)) w.db calm)
            at h)
    ]
  ]
]
