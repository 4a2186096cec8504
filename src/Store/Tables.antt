-- ===== src/Store/Tables.antt =====
-- The table as a whole: sound rows under distinct ids, kept by every method that writes.
use opencode_backend.Base.{
  ℕ, Bool, true, false, String, Option, none, some, List, [], ◌∷◌, ◌++◌, ◌≡◌, refl, ap,
  if◌then◌else◌, arith, All, All-append, Bool-cases, inl, inr, str_eq, eq_iff,
}
use opencode_backend.Base.Int.{ℤ, pos, negsuc}
use opencode_backend.Exec.Keeps.{Keeps-then, Keeps-pure, Keeps-bind, Keeps}
use opencode_backend.Sql.{update_where, delete_where, exists_where}
use opencode_backend.Sql.Laws.{
  All-update_where, All-delete_where, exists_where-update_where, exists_where-delete_where,
  exists_where-append,
}
use opencode_backend.Store.Consistency.{
  block_update-IsLegal, promote_update-IsLegal, retry_update-IsLegal, IsSound, IsLegal,
}
use opencode_backend.Store.Db.{Db, Statement, answer, sql}
use opencode_backend.Store.Task.{Status, Task, queued, pending, scheduled}
use opencode_backend.Store.Tasks.{
  block_found, promote_update, oldest_claimable, claim_row, Update, has_id, retry_update,
  claim_update, exec_update, new_row, insert_row, claim_rows, retry_rows, purge_rows, kept_count,
  create_task_with_status, claim_next_task, retry_task, promote_pending_dependents,
  block_dependents, purge_finished_tasks,
}

abbrev pub HasDistinctIds : List Task → Type 0
HasDistinctIds [] = Unit
HasDistinctIds (t ∷ ts) = (exists_where (has_id t.id) ts ≡ false) × HasDistinctIds ts

pub record IsConsistent (ts : List Task) : Type 0 where
  pub rows : All IsSound ts
  pub ids : HasDistinctIds ts

abbrev pub Consistent : Db → Type 0
Consistent d = IsConsistent d.tasks

-- A fault changes no row.
answer-tasks :
    {A : Type 0} (Q : List Task → Type 0) (fs : List Bool) (stmt : Statement A) (d : Db)
    → Q d.tasks
    → Q (stmt d.now d.tasks).1
    → Q (answer fs stmt d).1.tasks
answer-tasks Q [] stmt d h k = k
answer-tasks Q (true ∷ fs) stmt d h k = h
answer-tasks Q (false ∷ fs) stmt d h k = k

pub Keeps-sql :
    {A : Type 0} {Q : List Task → Type 0} (stmt : Statement A)
    → ((now : ℕ) (ts : List Task) → Q ts → Q (stmt now ts).1)
    → Keeps (λ (d : Db). Q d.tasks) (sql stmt)
unfolding sql
Keeps-sql {Q} stmt k = record { at = λ d h. answer-tasks Q d.faults stmt d h (k d.now d.tasks h) }

module _ (u : Update) (same_id : (now : ℕ) (t : Task) → (u.assign now t).id ≡ t.id)
    (sound : (now : ℕ) (t : Task) → IsSound t → u.matches t ≡ true → IsSound (u.assign now t)) where
  pub fresh-update :
      (id : String) (now : ℕ) (ts : List Task)
      → exists_where (has_id id) (update_where u.matches (u.assign now) ts)
        ≡ exists_where (has_id id) ts
  fresh-update id now ts =
      exists_where-update_where (has_id id) u.matches (u.assign now)
        (λ t. ap (λ i. str_eq i id) (same_id now t)) ts

  assigned_id : (now : ℕ) (t : Task) → (if u.matches t then u.assign now t else t).id ≡ t.id
  assigned_id now t = ground (arith, same_id now t)

  HasDistinctIds-update :
      (now : ℕ) (ts : List Task)
      → HasDistinctIds ts
      → HasDistinctIds (update_where u.matches (u.assign now) ts)
  unfolding update_where
  HasDistinctIds-update now [] h = tt
  HasDistinctIds-update now (t ∷ ts) (fresh, h) =
      (rw (assigned_id now t, fresh-update t.id now ts) fresh, HasDistinctIds-update now ts h)

  pub IsConsistent-update :
      (now : ℕ) (ts : List Task)
      → IsConsistent ts
      → IsConsistent (update_where u.matches (u.assign now) ts)
  IsConsistent-update now ts h = record {
    rows = All-update_where IsSound u.matches (u.assign now) (sound now) ts h.rows;
    ids = HasDistinctIds-update now ts h.ids;
  }

pub Keeps-exec_update : (u : Update) → IsLegal u → Keeps Consistent (exec_update u)
unfolding exec_update
Keeps-exec_update u legal = Keeps-sql _ (IsConsistent-update u legal.same_id legal.sound)

HasDistinctIds-delete :
    (p : Task → Bool) (ts : List Task) → HasDistinctIds ts → HasDistinctIds (delete_where p ts)
unfolding delete_where
HasDistinctIds-delete p [] h = tt
HasDistinctIds-delete p (t ∷ ts) (fresh, h) = elim (Bool-cases (p t)) [
  | inl e ↦ rw e (HasDistinctIds-delete p ts h)
  | inr e ↦ rw e (exists_where-delete_where (has_id t.id) p ts fresh, HasDistinctIds-delete p ts h)
]

-- A row of another id at the end.
HasDistinctIds-append :
    (ts : List Task) (t : Task)
    → HasDistinctIds ts
    → exists_where (has_id t.id) ts ≡ false
    → HasDistinctIds (ts ++ t ∷ [])
HasDistinctIds-append [] t h new = (unfold exists_where in refl, tt)
HasDistinctIds-append (u ∷ ts) t (fresh, h) new = (
  rw (exists_where-append (has_id u.id) ts (t ∷ []), fresh)
      (unfold exists_where in ground (arith, eq_iff t.id u.id, eq_iff u.id t.id, new)),
  HasDistinctIds-append ts t h (unfold exists_where in ground (arith, new)),
)

-- The statuses that the callers of `CreateTaskWithStatus` give.
abbrev pub is_initial : Status → Bool
is_initial queued = true
is_initial pending = true
is_initial scheduled = true
is_initial _ = false

new_row-IsSound :
    (now : ℕ) (t : Task) (s : Status) → is_initial s ≡ true → IsSound (new_row now t s)
unfolding new_row
new_row-IsSound now t s h = ground arith

insert_row-IsConsistent :
    (t : Task) (s : Status)
    → is_initial s ≡ true
    → (now : ℕ) (ts : List Task) → IsConsistent ts
    → IsConsistent (insert_row t s now ts).1
unfolding insert_row
insert_row-IsConsistent t s i now ts h = elim (Bool-cases (exists_where (has_id t.id) ts)) [
  | inl taken ↦ rw taken h
  | inr new ↦ rw new (record {
    rows = All-append IsSound ts _ h.rows (new_row-IsSound now t s i, tt);
    ids = HasDistinctIds-append ts (new_row now t s) h.ids (unfold new_row in new);
  })
]

claim_update-IsSound :
    (id : String) (now : ℕ) (t : Task)
    → IsSound t
    → (claim_update id).matches t ≡ true
    → IsSound ((claim_update id).assign now t)
unfolding claim_update
claim_update-IsSound id now t h m = ground arith

claim_row-IsConsistent :
    (c : Option Task) (now : ℕ) (ts : List Task)
    → IsConsistent ts
    → IsConsistent (claim_row c now ts).1
unfolding claim_row
claim_row-IsConsistent none now ts h = h
claim_row-IsConsistent (some c) now ts h =
    IsConsistent-update (claim_update c.id) (unfold claim_update in λ n t. refl)
      (claim_update-IsSound c.id) now ts h

retry_rows-IsConsistent :
    (id : String) (backoff : ℤ) (now : ℕ) (ts : List Task)
    → IsConsistent ts
    → IsConsistent (retry_rows id backoff now ts).1
unfolding retry_rows
retry_rows-IsConsistent id (pos b) now ts h =
    IsConsistent-update (retry_update id b) (retry_update-IsLegal id b).same_id
      (retry_update-IsLegal id b).sound now ts h
retry_rows-IsConsistent id (negsuc n) now ts h =
    elim (Bool-cases (exists_where (retry_update id 0).matches ts)) [
      | inl e ↦ rw e h
      | inr e ↦ rw e h
    ]

purge_rows-IsConsistent :
    (secs limit now : ℕ) (ts : List Task)
    → IsConsistent ts
    → IsConsistent (purge_rows secs limit now ts).1
unfolding purge_rows
purge_rows-IsConsistent secs limit now ts h = record {
  rows = All-delete_where IsSound _ ts h.rows;
  ids = HasDistinctIds-delete _ ts h.ids;
}

pub Keeps-create_task_with_status :
    (t : Task) (s : Status) → is_initial s ≡ true → Keeps Consistent (create_task_with_status t s)
unfolding create_task_with_status
Keeps-create_task_with_status t s i = Keeps-sql _ (insert_row-IsConsistent t s i)

pub Keeps-claim_next_task : Keeps Consistent claim_next_task
unfolding claim_next_task claim_rows
Keeps-claim_next_task =
    Keeps-sql _ (λ now ts. claim_row-IsConsistent (oldest_claimable now ts) now ts)

pub Keeps-retry_task : (id : String) (backoff : ℤ) → Keeps Consistent (retry_task id backoff)
unfolding retry_task
Keeps-retry_task id backoff = Keeps-sql _ (retry_rows-IsConsistent id backoff)

pub Keeps-purge_finished_tasks :
    (older_than limit : ℕ) → Keeps Consistent (purge_finished_tasks older_than limit)
unfolding purge_finished_tasks
Keeps-purge_finished_tasks older_than limit =
    Keeps-bind (Keeps-sql _ (purge_rows-IsConsistent _ _)) (λ deleted.
      Keeps-bind (Keeps-sql (kept_count _) (unfold kept_count in λ now ts h. h))
        (λ kept. Keeps-pure _))

pub Keeps-promote_pending_dependents :
    (up : String) → Keeps Consistent (promote_pending_dependents up)
unfolding promote_pending_dependents
Keeps-promote_pending_dependents up = Keeps-sql _ (
    IsConsistent-update (promote_update up) (promote_update-IsLegal up).same_id
      (promote_update-IsLegal up).sound)

Keeps-block_found :
    (up reason : String) (ids : List String) → Keeps Consistent (block_found up reason ids)
Keeps-block_found up reason [] = Keeps-pure _
Keeps-block_found up reason (id ∷ ids) =
    Keeps-then (Keeps-exec_update _ (block_update-IsLegal up reason)) (Keeps-pure _)

pub Keeps-block_dependents : (up reason : String) → Keeps Consistent (block_dependents up reason)
unfolding block_dependents
Keeps-block_dependents up reason =
    Keeps-bind (Keeps-sql _ (λ now ts h. h)) (Keeps-block_found up reason)
