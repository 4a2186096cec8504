-- ===== src/Store/Changes.antt =====
-- The guarded updates of one task: what `RetryTask`, `CancelTask`, `UnblockTask`,
-- `CancelScheduledTask`, `PromoteScheduledTask` and `ClaimRecurringFire` do to a row, and when they
-- do nothing.
use opencode_backend.Base.{
  ◌∙◌, ◌⊎◌, ℕ, zero, suc, ◌+◌, ◌*◌, Bool, true, false, Option, none, some, List, [], ◌∷◌, ◌≡◌, ◌≢◌,
  refl, ap, ltb, String, if◌then◌else◌, arith, Bool-cases, inl, inr, str_eq, eq_iff, eq_refl, ◌&&◌,
  ◌||◌,
}
use opencode_backend.Base.Int.{pos}
use opencode_backend.Exec.{Result, ok, err, not_found, pure, ◌>>=◌}
use opencode_backend.Sql.{find_where, update_where, count_where, exists_where}
use opencode_backend.Store.Answers.{sql-calm}
use opencode_backend.Store.Db.{Db, second}
use opencode_backend.Store.Lookup.{row_of, change, row_of-update_if}
use opencode_backend.Store.Tables.{HasDistinctIds}
use opencode_backend.Store.Task.{
  Task, queued, canceled, is_queued, is_pending, is_running, is_failed, is_blocked, is_scheduled,
}
use opencode_backend.Store.Tasks.{
  expected_matches, Update, has_id, exec_update, retry_update, retry_rows, not_found_if_zero,
  retry_task, cancel_update, cancel_task, unblock_update, unblock_task, recurring_update,
  claim_recurring_fire, cancel_scheduled_update, cancel_scheduled_task, promote_scheduled_update,
  promote_scheduled_task,
}

-- Whether there is a row and it passes `g`.
abbrev pub passes : (Task → Bool) → Option Task → Bool
passes g none = false
passes g (some t) = g t

none_fresh :
    (i : String) (g : Task → Bool) (ts : List Task)
    → exists_where (has_id i) ts ≡ false
    → count_where (λ t. has_id i t && g t) ts ≡ 0
unfolding exists_where count_where
none_fresh i g [] h = refl
none_fresh i g (t ∷ ts) h = ground (arith, none_fresh i g ts)

pub count-row :
    (i : String) (g : Task → Bool) (ts : List Task)
    → HasDistinctIds ts
    → ltb 0 (count_where (λ t. has_id i t && g t) ts) ≡ passes g (row_of i ts)
unfolding count_where find_where
count-row i g [] h = refl
count-row i g (t ∷ ts) (fresh, h) = ground (
  arith,
  count-row i g ts h,
  none_fresh i g ts,
  eq_iff t.id i,
  ap (λ j. exists_where (has_id j) ts),
)

-- What a guarded update of the row `i` does: it answers whether the row is there and passes `g`,
-- rewrites that row by `f` if so, and leaves every other row.
abbrev pub Guarded : (Task → Bool) → (Task → Task) → String → Db → Result Bool × Db → Type 0
Guarded g f i d (r, d') =
    (r ≡ ok (passes g (row_of i d.tasks)))
    × ((id : String) → row_of id d'.tasks ≡ change (λ t. str_eq id i && g t) f (row_of id d.tasks))

module _ (i : String) (g : Task → Bool) (f : ℕ → Task → Task) (d : Db) where
  abbrev if_guard : Update
  if_guard = record { matches = λ t. has_id i t && g t; assign = f }

  Guarded-update :
      ((t : Task) → (f d.now t).id ≡ t.id)
      → d.faults ≡ []
      → HasDistinctIds d.tasks
      → Guarded g (f d.now) i d ((exec_update if_guard >>= λ n. pure (ltb 0 n)) d)
  unfolding exec_update ◌>>=◌
  Guarded-update same calm h =
      rw
        (sql-calm
          (λ now ts.
            (ok (count_where if_guard.matches ts), update_where if_guard.matches (f now) ts))
          d calm)
        (ap ok (count-row i g d.tasks h), λ id. row_of-update_if i (f d.now) same g id d.tasks)

abbrev pub cancellable : Task → Bool
cancellable t = is_queued t.status || is_pending t.status || is_running t.status

-- With no refused statement and distinct ids, a cancel returns true exactly if the task is there
-- and queued, pending or running; then that row is canceled and finished now, and no other row
-- changes in any case.
pub cancel_task-Guarded :
    (i : String) (d : Db)
    → d.faults ≡ []
    → HasDistinctIds d.tasks
    → Guarded cancellable
        (λ t. record t { status = canceled; finished_at = some d.now; updated_at = d.now })
        i
        d
        (cancel_task i d)
unfolding cancel_task cancel_update
cancel_task-Guarded i d calm h = Guarded-update i cancellable _ d (λ t. refl) calm h

-- With no refused statement and distinct ids, a manual unblock returns true exactly if the task is
-- there and blocked; then that row is queued again, available now, with its error and finish time
-- cleared, and no other row changes in any case.
pub unblock_task-Guarded :
    (i : String) (d : Db)
    → d.faults ≡ []
    → HasDistinctIds d.tasks
    → Guarded
        (λ t. is_blocked t.status)
        (λ t. record t {
          status = queued;
          error = "";
          finished_at = none;
          available_at = d.now;
          updated_at = d.now;
        })
        i
        d
        (unblock_task i d)
unfolding unblock_task unblock_update
unblock_task-Guarded i d calm h = Guarded-update i (λ t. is_blocked t.status) _ d (λ t. refl) calm h

pub promote_scheduled_task-Guarded :
    (i : String) (d : Db)
    → d.faults ≡ []
    → HasDistinctIds d.tasks
    → Guarded
        (λ t. is_scheduled t.status)
        (λ t. record t { status = queued; available_at = d.now; updated_at = d.now })
        i
        d
        (promote_scheduled_task i d)
unfolding promote_scheduled_task promote_scheduled_update
promote_scheduled_task-Guarded i d calm h =
    Guarded-update i (λ t. is_scheduled t.status) _ d (λ t. refl) calm h

pub cancel_scheduled_task-Guarded :
    (i : String) (d : Db)
    → d.faults ≡ []
    → HasDistinctIds d.tasks
    → Guarded
        (λ t. is_scheduled t.status)
        (λ t. record t { status = canceled; finished_at = some d.now; updated_at = d.now })
        i
        d
        (cancel_scheduled_task i d)
unfolding cancel_scheduled_task cancel_scheduled_update
cancel_scheduled_task-Guarded i d calm h =
    Guarded-update i (λ t. is_scheduled t.status) _ d (λ t. refl) calm h

pub claim_recurring_fire-Guarded :
    (i : String) (expected : Option ℕ) (fire : ℕ) (d : Db)
    → d.faults ≡ []
    → HasDistinctIds d.tasks
    → Guarded
        (λ t. is_scheduled t.status && expected_matches t.last_fired_at expected)
        (λ t. record t { last_fired_at = some fire; updated_at = d.now })
        i
        d
        (claim_recurring_fire i expected fire d)
unfolding claim_recurring_fire recurring_update
claim_recurring_fire-Guarded i expected fire d calm h =
    Guarded-update i (λ t. is_scheduled t.status && expected_matches t.last_fired_at expected) _ d
      (λ t. refl) calm h

-- A guarded update whose row does not pass changes nothing.
pub change_idle :
    (g : Task → Bool) (f : Task → Task) (i id : String) (ts : List Task)
    → passes g (row_of i ts) ≡ false
    → change (λ t. str_eq id i && g t) f (row_of id ts) ≡ row_of id ts
change_idle g f i id ts h = elim (Bool-cases (str_eq id i)) [
  | inl e ↦ rw e (idle (row_of id ts) (rw ((eq_iff id i).0 e) h))
  | inr e ↦ rw e (same (row_of id ts))
]
  where
    idle : (o : Option Task) → passes g o ≡ false → change (λ t. true && g t) f o ≡ o
    idle none k = refl
    idle (some t) k = ground arith

    same : (o : Option Task) → change (λ t. false && g t) f o ≡ o
    same none = refl
    same (some t) = refl

cursor_moved :
    (i : String) (expected : Option ℕ) (fire now : ℕ) (o : Option Task)
    → expected ≢ some fire
    → passes
          (λ t. is_scheduled t.status && expected_matches t.last_fired_at expected)
          (change
            (λ t.
              str_eq i i && (is_scheduled t.status && expected_matches t.last_fired_at expected))
            (λ t. record t { last_fired_at = some fire; updated_at = now })
            o)
        ≡ false
      ⊎ (passes (λ t. is_scheduled t.status && expected_matches t.last_fired_at expected) o ≡ false)
cursor_moved i expected fire now none other = inr refl
cursor_moved i none fire now (some t) other = rw eq_refl (ground arith)
cursor_moved i (some e) fire now (some t) other = rw eq_refl (ground arith)

-- With no refused statement and distinct ids, two schedulers that read the same cursor of a
-- template cannot both win: if the first one's advance succeeds, the second one's with the same
-- expected cursor answers false and leaves every row, whatever times they advance to, unless the
-- first wrote back the cursor that it expected.
pub claim_recurring_fire_once :
    (i : String) (expected : Option ℕ) (fire fire' : ℕ) (d e : Db)
    → d.faults ≡ []
    → HasDistinctIds d.tasks
    → expected ≢ some fire
    → (claim_recurring_fire i expected fire d).0 ≡ ok true
    → e.faults ≡ []
    → HasDistinctIds e.tasks
    → e.tasks ≡ (claim_recurring_fire i expected fire d).1.tasks
    → ((claim_recurring_fire i expected fire' e).0 ≡ ok false)
      × ((id : String)
          → row_of id (claim_recurring_fire i expected fire' e).1.tasks ≡ row_of id e.tasks)
claim_recurring_fire_once i expected fire fire' d e calm h other won calm' h' same =
    let first = claim_recurring_fire-Guarded i expected fire d calm h in
    let second = claim_recurring_fire-Guarded i expected fire' e calm' h' in
    let row = ap (row_of i) same ∙ first.1 i in
    let lost : passes (λ t. is_scheduled t.status && expected_matches t.last_fired_at expected)
          (row_of i e.tasks)
        ≡ false =
      elim (cursor_moved i expected fire d.now (row_of i d.tasks) other) [
        | inl k ↦ rw row k
        | inr k ↦ cc (first.0, won, k)
      ] in
    (second.0 ∙ ap ok lost, λ id. second.1 id ∙ change_idle _ _ i id e.tasks lost)

-- What `RetryTask` does with a task that is there and failed.
abbrev pub retried : ℕ → ℕ → Task → Task
retried now backoff t = record t {
  status = queued;
  error = "";
  finished_at = none;
  available_at = now + backoff * second;
  updated_at = now;
}

not_found_if_zero-count : (n : ℕ) → not_found_if_zero n ≡ (if ltb 0 n then ok tt else err not_found)
unfolding not_found_if_zero
not_found_if_zero-count zero = refl
not_found_if_zero-count (suc n) = ground arith

-- With no refused statement and distinct ids, a retry with a backoff of at least 0 succeeds exactly
-- if the task is there and failed; then that row is queued again, available after the backoff, with
-- its error and finish time cleared, and in any case no other row changes. For a task in any other
-- status, running included, the answer is `ErrNotFound`.
pub retry_task_lem :
    (i : String) (backoff : ℕ) (d : Db)
    → d.faults ≡ []
    → HasDistinctIds d.tasks
    → ((retry_task i (pos backoff) d).0
        ≡ (if passes (λ t. is_failed t.status) (row_of i d.tasks) then ok tt else err not_found))
      × ((id : String)
          → row_of id (retry_task i (pos backoff) d).1.tasks
            ≡ change
                (λ t. str_eq id i && is_failed t.status)
                (retried d.now backoff)
                (row_of id d.tasks))
unfolding retry_task retry_rows retry_update
retry_task_lem i backoff d calm h = rw (sql-calm (retry_rows i (pos backoff)) d calm) (
  not_found_if_zero-count _
      ∙ ap (λ b. if b then ok tt else err not_found)
          (count-row i (λ t. is_failed t.status) d.tasks h),
  λ id. row_of-update_if i (retried d.now backoff) (λ t. refl) (λ t. is_failed t.status) id d.tasks,
)
