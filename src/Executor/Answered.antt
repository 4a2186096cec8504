-- ===== src/Executor/Answered.antt =====
-- `execute` as a whole in internal/tasks/executor.go: a task whose session answers, and a task that
-- is canceled before it has a session.
use opencode_backend.Base.{
  ℕ, Bool, true, false, String, none, some, List, [], ◌∷◌, ◌≡◌, refl, ap, ◌∙◌, arith, All, str_eq,
  eq_refl, Bool-cases, inl, inr,
}
use opencode_backend.Exec.{pure}
use opencode_backend.Exec.Runs.{then_ok}
use opencode_backend.Sql.{update_where}
use opencode_backend.Executor.Execute.{
  Executor, Script, Round, execute, run_in_session, ensure_session, after_create, prompt_session,
  after_prompt, read_answer, wait_until_idle, start_round, next_round, push_task, canceled_now,
  finish_canceled, fail_with_retry,
}
use opencode_backend.Executor.Outcomes.{
  Succeeded, succeeded_row, settle-success, db-stop_dependents,
}
use opencode_backend.Executor.Upstream.{
  success, create_session, is_session_busy, admitted, last_assistant_text,
}
use opencode_backend.Executor.Waiting.{noted, canceled_now-calm}
use opencode_backend.Executor.World.{World, ◌>>=◌, ◌>>◌, give, ignore, others, push_task_event}
use opencode_backend.Store.Calls.{run_turns}
use opencode_backend.Store.Answers.{sql-calm}
use opencode_backend.Store.Db.{Db}
use opencode_backend.Store.Dependents.{
  pending_on, blocked_by, promoted, waits_on, block_dependents-Released,
}
use opencode_backend.Store.Lookup.{row_of, change, row_of-update}
use opencode_backend.Store.Task.{Task, running, is_canceled}
use opencode_backend.Store.Tasks.{
  has_id, session_update, set_task_session, exec_update, progress_update, update_task_progress,
}

-- From the table of `d`, where `r` is the row of the id, to that of `d'`, only the progress note of
-- that row, its session and its time of update have changed.
record Noted (id : String) (r : Task) (d d' : Db) : Type 0 where
  calm : d'.faults ≡ []
  same_now : d'.now ≡ d.now
  session : String
  note : String
  updated : ℕ
  row :
      row_of id d'.tasks
      ≡ some (record r { session_id = session; progress = note; updated_at = updated })
  rest : (x : String) → str_eq x id ≡ false → row_of x d'.tasks ≡ row_of x d.tasks

progress-calm :
    (id text : String) (d : Db)
    → d.faults ≡ []
    → (update_task_progress id text d).1
      ≡ record d { tasks = update_where (has_id id) (noted d.now text) d.tasks }
unfolding update_task_progress exec_update progress_update pure
progress-calm id text d calm =
    ap (λ r. r.1) (then_ok (exec_update (progress_update id text)) (pure tt) (sql-calm _ d calm))

Noted-progress :
    (id text : String) (r : Task) (d d' : Db)
    → Noted id r d d'
    → Noted id r d (update_task_progress id text d').1
Noted-progress id text r d d' h = rw (progress-calm id text d' h.calm) (record {
  calm = h.calm;
  same_now = h.same_now;
  session = h.session;
  note = text;
  updated = d'.now;
  row = rw (row_of-update id (noted d'.now text) (λ t. refl) id d'.tasks, eq_refl, h.row) refl;
  rest = λ x other.
      rw (row_of-update id (noted d'.now text) (λ t. refl) x d'.tasks, other) (h.rest x other);
})

Noted-refl :
    (id : String) (r : Task) (d : Db) → d.faults ≡ [] → row_of id d.tasks ≡ some r → Noted id r d d
Noted-refl id r d calm row = record {
  calm = calm;
  same_now = refl;
  session = r.session_id;
  note = r.progress;
  updated = r.updated_at;
  row = row;
  rest = λ x other. refl;
}

session-calm :
    (id session : String) (d : Db)
    → d.faults ≡ []
    → (set_task_session id session d).1 ≡ record d {
      tasks =
          update_where
            (has_id id)
            (λ t. record t { session_id = session; updated_at = d.now })
            d.tasks;
    }
unfolding set_task_session exec_update session_update pure
session-calm id session d calm =
    ap (λ r. r.1) (then_ok (exec_update (session_update id session)) (pure tt) (sql-calm _ d calm))

Noted-session :
    (id session : String) (r : Task) (d d' : Db)
    → Noted id r d d'
    → Noted id r d (set_task_session id session d').1
Noted-session id session r d d' h =
    let in_session : Task → Task = λ t. record t { session_id = session; updated_at = d'.now } in
    rw (session-calm id session d' h.calm) (record {
      calm = h.calm;
      same_now = h.same_now;
      session = session;
      note = h.note;
      updated = d'.now;
      row = rw (row_of-update id in_session (λ t. refl) id d'.tasks, eq_refl, h.row) refl;
      rest = λ x other.
          rw (row_of-update id in_session (λ t. refl) x d'.tasks, other) (h.rest x other);
    })

-- A turn of the loop in which nobody else calls the store, the context is alive and the status of
-- the session can be read.
pub record IsQuiet (session : String) (round : Round) : Type 0 where
  pub alive : round.context_error ≡ none
  pub alone : round.meanwhile ≡ []
  pub busy : Bool
  pub polled : is_session_busy session round.status ≡ success busy

-- What a step of the executor ends in.
abbrev EndsIn : {A : Type 0} → String → Task → Db → A → A × World → Type 0
EndsIn id r d a x = (w' : World) × (x ≡ (a, w')) × Noted id r d w'.db

wait_until_idle-quiet :
    (t : Task) (session : String) (rs : List Round) (r : Task) (d : Db) (w : World)
    → r.status ≡ running
    → All (IsQuiet session) rs
    → Noted t.id r d w.db
    → EndsIn t.id r d (success tt) (wait_until_idle t session rs w)
unfolding wait_until_idle start_round next_round ◌>>=◌ ◌>>◌ give others ignore run_turns
wait_until_idle-quiet t session [] r d w run quiet h = (w, refl, h)
wait_until_idle-quiet t session (p ∷ ps) r d w run (q, qs) h =
    let r' : Task = record r {
      session_id = h.session;
      progress = h.note;
      updated_at = h.updated;
    } in
    let here : canceled_now t.id w ≡ (false, w) =
      canceled_now-calm t.id w r' h.calm h.row ∙ ap (λ st. (is_canceled st, w)) run in
    let noted_world = record w { db = (update_task_progress t.id "agent working..." w.db).1 } in
    let goes_on =
      wait_until_idle-quiet t session ps r d noted_world run qs
        (Noted-progress t.id "agent working..." r d w.db h) in
    elim (Bool-cases q.busy) [
      | inl yes' ↦
          let polled : is_session_busy session p.status ≡ success true =
            q.polled ∙ ap success yes' in
          rw q.alive (rw here (rw q.alone (rw polled goes_on)))
      | inr no' ↦
          let polled : is_session_busy session p.status ≡ success false =
            q.polled ∙ ap success no' in
          rw q.alive (rw here (rw q.alone (rw polled (w, refl, h))))
    ]

prompt_session-quiet :
    (s : Script) (t : Task) (session result : String) (r : Task) (d : Db) (w : World)
    → r.status ≡ running
    → s.before_prompt ≡ []
    → admitted s.prompted ≡ success tt
    → All (IsQuiet session) s.rounds
    → s.before_messages ≡ []
    → last_assistant_text s.messages ≡ success result
    → Noted t.id r d w.db
    → EndsIn t.id r d (success result) (prompt_session s t session w)
unfolding prompt_session after_prompt read_answer ◌>>=◌ ◌>>◌ give others ignore run_turns
prompt_session-quiet s t session result r d w run alone taken quiet alone' answer h =
    let admitted_world = record w { db = (update_task_progress t.id "prompt admitted" w.db).1 } in
    let (w', waited, h') =
      wait_until_idle-quiet t session s.rounds r d admitted_world run quiet
        (Noted-progress t.id "prompt admitted" r d w.db h) in
    rw alone (rw taken (rw waited (rw alone' (rw answer (w', refl, h')))))

-- The task has a session, or OpenCode creates one for it.
pub data GetsSession (s : Script) (t : Task) : String → Type 0 where
  own : str_eq t.session_id "" ≡ false → GetsSession s t t.session_id
  created :
      (session : String)
      → str_eq t.session_id "" ≡ true
      → s.before_create ≡ []
      → create_session s.created ≡ success session
      → GetsSession s t session

-- OpenCode admits the prompt, can be polled, and its session answers with `result`; nobody else calls
-- the store in the meantime.
pub record IsAnswered (s : Script) (session result : String) : Type 0 where
  pub alone_before : s.before_prompt ≡ []
  pub taken : admitted s.prompted ≡ success tt
  pub quiet : All (IsQuiet session) s.rounds
  pub alone_after : s.before_messages ≡ []
  pub answer : last_assistant_text s.messages ≡ success result

-- The row of a task that has its answer.
abbrev pub answered_row : ℕ → String → String → String → Task → Task
answered_row now result session note r =
    succeeded_row now result (record r { session_id = session; progress = note })

abbrev pub EndsSucceeded : String → String → Task → Db → Db → Type 0
EndsSucceeded id result r d d' =
    (session : String) × (note : String) × Succeeded id (answered_row d.now result session note r) d
      d'

Succeeded-Noted :
    (id result : String) (r : Task) (d d' d'' : Db)
    → (h : Noted id r d d') → Succeeded id (answered_row d'.now result h.session h.note r) d' d''
    → Succeeded id (answered_row d.now result h.session h.note r) d d''
Succeeded-Noted id result r d d' d'' h done = record {
  row = done.row ∙ ap (λ now. some (answered_row now result h.session h.note r)) h.same_now;
  others = λ x other.
      done.others x other
      ∙ ap (λ now. change (waits_on id) (promoted now) (row_of x d'.tasks)) h.same_now
      ∙ ap (change (waits_on id) (promoted d.now)) (h.rest x other);
  none_waiting = done.none_waiting;
}

run_in_session-answered :
    (e : Executor) (s : Script) (t : Task) (session result : String) (r : Task) (d : Db) (w : World)
    → r.status ≡ running
    → IsAnswered s session result
    → Noted t.id r d w.db
    → EndsSucceeded t.id result r d (run_in_session e s t session w).1.db
unfolding run_in_session ◌>>=◌
run_in_session-answered e s t session result r d w run a h =
    let (w', prompted, h') =
      prompt_session-quiet s t session result r d w run a.alone_before a.taken a.quiet a.alone_after
        a.answer h in
    rw prompted (
      h'.session,
      h'.note,
      Succeeded-Noted t.id result r d w'.db _ h' (settle-success e s t result w' _ h'.calm h'.row),
    )

-- On a database that refuses nothing, while nobody else calls the store: the execution of a running
-- task that has a session, or for which OpenCode creates one, ends with the task succeeded if the
-- prompt is admitted, the session can be polled until it is idle or the time is over, and it has an
-- answer: the row holds the answer as its result and a finish time, every other row that waited on
-- the task is queued, available now and with its error cleared, and every other row stays.
pub execute-answered :
    (e : Executor) (s : Script) (t : Task) (session result : String) (r : Task) (w : World)
    → w.db.faults ≡ []
    → row_of t.id w.db.tasks ≡ some r
    → r.status ≡ running
    → GetsSession s t session
    → IsAnswered s session result
    → EndsSucceeded t.id result r w.db (execute e s t w).1.db
unfolding execute ensure_session after_create push_task push_task_event ◌>>=◌ ◌>>◌ others run_turns
    ignore fail_with_retry prompt_session
execute-answered e s t _ result r w calm row run (own has) a = rw has (
    run_in_session-answered e s t t.session_id result r w.db (push_task t "running" w).1 run a
      (Noted-refl t.id r w.db calm row))
execute-answered e s t _ result r w calm row run (created session none' alone made) a =
    let pushed = (push_task t "running" w).1 in
    let here : canceled_now t.id pushed ≡ (false, pushed) =
      canceled_now-calm t.id pushed r calm row ∙ ap (λ st. (is_canceled st, pushed)) run in
    let d1 = (set_task_session t.id session w.db).1 in
    let d2 = (update_task_progress t.id "session created" d1).1 in
    rw none' (
      rw here (
        rw alone (
          rw made (
            run_in_session-answered e s t session result r w.db (record pushed { db = d2 }) run a
              (Noted-progress t.id "session created" r w.db d1
                (Noted-session t.id session r w.db w.db (Noted-refl t.id r w.db calm row)))))))

-- The end of a canceled task: its row stays; the rows that were pending on it are blocked, now and
-- with the reason that their upstream was canceled, and every other row stays.
pub record EndsCanceled (id : String) (r : Task) (d d' : Db) : Type 0 where
  pub row : row_of id d'.tasks ≡ some r
  pub rows :
      (x : String)
      → row_of x d'.tasks
        ≡ change (pending_on id) (blocked_by d.now "upstream task canceled") (row_of x d.tasks)
  pub none_pending : All (λ t. pending_on id t ≡ false) d'.tasks

-- On a database that refuses nothing, the execution of a task that was canceled before it had a
-- session leaves its row canceled, whatever OpenCode and the LLM would answer and others would call
-- later; the rows that were pending on it are blocked, as their upstream was canceled, and every
-- other row stays.
pub execute-canceled :
    (e : Executor) (s : Script) (t : Task) (r : Task) (w : World)
    → w.db.faults ≡ []
    → row_of t.id w.db.tasks ≡ some r
    → is_canceled r.status ≡ true
    → str_eq t.session_id "" ≡ true
    → EndsCanceled t.id r w.db (execute e s t w).1.db
unfolding execute ensure_session finish_canceled push_task push_task_event ◌>>=◌ ◌>>◌
execute-canceled e s t r w calm row gone no_session =
    let pushed = (push_task t "running" w).1 in
    let here : canceled_now t.id pushed ≡ (true, pushed) =
      canceled_now-calm t.id pushed r calm row ∙ ap (λ b. (b, pushed)) gone in
    let why : String = "upstream task canceled" in
    let blocked = block_dependents-Released t.id why w.db calm in
    rw no_session (
      rw here (
        rw (db-stop_dependents t.id why pushed) (record {
          row = blocked.rows t.id ∙ rw row (ground (arith, gone));
          rows = blocked.rows;
          none_pending = blocked.none_left;
        })))
