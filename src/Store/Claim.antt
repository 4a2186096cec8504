-- ===== src/Store/Claim.antt =====
-- `ClaimNextTask`: which task a worker gets, and that two workers never get the same one.
use mathlib.Core.List.{Memᴰ}
use opencode_backend.Base.{
  ◌∙◌, sym, ℕ, ◌+◌, ◌≤◌, Bool, true, false, Option, none, some, List, [], ◌∷◌, ◌≡◌, ◌≢◌, refl, ap,
  String, if◌then◌else◌, arith, All, Bool-cases, inl, inr, length, str_eq, eq_iff, eq_refl,
}
use opencode_backend.Exec.{ok, err, not_found}
use opencode_backend.Sql.{select_where, find_where}
use opencode_backend.Sql.Laws.{
  All-of_count_where, length-order_by, length-select_where, select_where-All,
}
use opencode_backend.Sql.Order.{
  exists_where-Memᴰ, first_row, ascending, first_row-order_by, Memᴰ-select_where, Memᴰ-order_by,
  Memᴰ-first_row, All-Memᴰ,
}
use opencode_backend.Store.Answers.{sql-Ran_ok, sql-Ran_not_found}
use opencode_backend.Store.Lookup.{row_of, row_of-update}
use opencode_backend.Store.Tables.{IsConsistent, Keeps-claim_next_task}
use opencode_backend.Store.Db.{Db}
use opencode_backend.Store.Task.{Task, running}
use opencode_backend.Store.Tables.{HasDistinctIds}
use opencode_backend.Store.Tasks.{
  has_id, claim_update, claimable, claim_row, claim_rows, oldest_claimable, claim_next_task,
}

-- The row of an id, under distinct ids.
pub find-of_Memᴰ :
    (t : Task) (ts : List Task)
    → HasDistinctIds ts
    → Memᴰ t ts
    → find_where (has_id t.id) ts ≡ some t
unfolding find_where
find-of_Memᴰ t [] h m = elim m [ ]
find-of_Memᴰ t (u ∷ ts) (fresh, h) (Memᴰ.head q) = rw (q, eq_refl)
find-of_Memᴰ t (u ∷ ts) (fresh, h) (Memᴰ.tail m) = ground (
  arith,
  exists_where-Memᴰ (has_id u.id) t ts fresh m,
  eq_iff t.id u.id,
  eq_iff u.id t.id,
  find-of_Memᴰ t ts h m,
)

-- `c` is claimable, and no claimable row is older.
pub record IsOldest (now : ℕ) (ts : List Task) (c : Task) : Type 0 where
  pub row : Memᴰ c ts
  pub due : claimable now c ≡ true
  pub oldest : All (λ (t : Task). claimable now t ≡ true → c.created_at ≤ t.created_at) ts

-- What holds of the rows that a query selects holds of every row that passes its test.
All-of_select_where :
    (P : Task → Type 0) (p : Task → Bool) (ts : List Task)
    → All P (select_where p ts)
    → All (λ t. p t ≡ true → P t) ts
unfolding select_where
All-of_select_where P p [] h = tt
All-of_select_where P p (t ∷ ts) h = elim (Bool-cases (p t)) [
  | inl e ↦
      let h' : All P (t ∷ select_where p ts) = rw e at h in
      (λ _. h'.0, All-of_select_where P p ts h'.1)
  | inr e ↦ (λ q. cc, All-of_select_where P p ts (rw e at h))
]

oldest_claimable-IsOldest :
    (now : ℕ) (ts : List Task) (c : Task) → oldest_claimable now ts ≡ some c → IsOldest now ts c
unfolding oldest_claimable
oldest_claimable-IsOldest now ts c e =
    let due = select_where (claimable now) ts in
    let m = Memᴰ-order_by _ due c (Memᴰ-first_row _ c e) in
    record {
      row = Memᴰ-select_where (claimable now) ts c m;
      due = All-Memᴰ (λ t. claimable now t ≡ true) c due (select_where-All (claimable now) ts) m;
      oldest = All-of_select_where _ _ ts (first_row-order_by (λ (t : Task). t.created_at) due c e);
    }

-- What a claim does: the result, and the row of every id afterwards.
pub record Claimed (d : Db) (t : Task) (d' : Db) : Type 0 where
  pub row : Task
  pub oldest : IsOldest d.now d.tasks row
  pub result : t ≡ record row {
    status = running;
    attempts = row.attempts + 1;
    started_at = some d.now;
    updated_at = d.now;
  }
  pub rows :
      (id : String)
      → find_where (has_id id) d'.tasks
        ≡ (if str_eq id row.id then some t else find_where (has_id id) d.tasks)

claim_row-Claimed :
    (o : Option Task) (d : Db) (t : Task) (d' : Db)
    → HasDistinctIds d.tasks
    → oldest_claimable d.now d.tasks ≡ o
    → (claim_row o d.now d.tasks).0 ≡ ok t
    → d'.tasks ≡ (claim_row o d.now d.tasks).1
    → Claimed d t d'
unfolding claim_row claim_update
claim_row-Claimed none d t d' h o r e = cc
claim_row-Claimed (some c) d t d' h o r e =
    let old = oldest_claimable-IsOldest d.now d.tasks c o in
    let assigned = (claim_update c.id).assign d.now in
    record {
      row = c;
      oldest = old;
      result = cc;
      rows = λ id. rw e (
          rw (row_of-update c.id assigned (λ u. refl) id d.tasks, find-of_Memᴰ c d.tasks h old.row)
            (ground arith));
    }

-- With distinct ids, a successful claim returns the oldest row that is queued and available, with
-- one more attempt, running and started now; the row of that id becomes the result and every other
-- row stays.
pub claim_next_task-Claimed :
    (d : Db) (t : Task)
    → HasDistinctIds d.tasks
    → (claim_next_task d).0 ≡ ok t
    → Claimed d t (claim_next_task d).1
unfolding claim_next_task claim_rows
claim_next_task-Claimed d t h e =
    let ran = sql-Ran_ok claim_rows d t e in
    claim_row-Claimed (oldest_claimable d.now d.tasks) d t (claim_next_task d).1 h refl ran.result
      ran.tasks

claimed_row :
    (d d1 d2 : Db) (t u : Task)
    → HasDistinctIds d1.tasks
    → (c : Claimed d t d1) (k : Claimed d1 u d2)
    → (if str_eq k.row.id c.row.id then some t else row_of k.row.id d.tasks) ≡ some k.row
claimed_row d d1 d2 t u h c k = sym (c.rows k.row.id) ∙ find-of_Memᴰ k.row d1.tasks h k.oldest.row

-- On a table of sound rows with distinct ids, two claims in a row that both succeed hand out tasks
-- with different ids.
pub claim_twice :
    (d : Db) (t u : Task)
    → IsConsistent d.tasks
    → (claim_next_task d).0 ≡ ok t
    → (claim_next_task (claim_next_task d).1).0 ≡ ok u
    → t.id ≢ u.id
unfolding claimable
claim_twice d t u h e f = λ same.
    let d1 = (claim_next_task d).1 in
    let h1 = Keeps-claim_next_task.at d h in
    let c = claim_next_task-Claimed d t h.ids e in
    let k = claim_next_task-Claimed d1 u h1.ids f in
    ground (
      arith,
      claimed_row d d1 (claim_next_task d1).1 t u h1.ids c k,
      eq_iff k.row.id c.row.id,
      k.oldest.due,
      c.result,
      k.result,
      same,
    )

claim_row-not_found :
    (o : Option Task) (now : ℕ) (ts : List Task) → (claim_row o now ts).0 ≡ err not_found → o ≡ none
unfolding claim_row
claim_row-not_found none now ts e = refl
claim_row-not_found (some c) now ts e = cc

first_row-eq-none : (ts : List Task) → first_row ts ≡ none → length ts ≡ 0
first_row-eq-none [] e = refl
first_row-eq-none (t ∷ ts) e = cc

oldest_claimable-none :
    (now : ℕ) (ts : List Task)
    → oldest_claimable now ts ≡ none
    → All (λ t. claimable now t ≡ false) ts
unfolding oldest_claimable
oldest_claimable-none now ts e = All-of_count_where (claimable now) ts (
    omega (
      arith,
      first_row-eq-none _ e,
      length-order_by (ascending (λ (t : Task). t.created_at)) (select_where (claimable now) ts),
      length-select_where (claimable now) ts,
    ))

-- `ErrNotFound` means that no row is queued and available, and nothing has changed.
pub claim_next_task-not_found :
    (d : Db)
    → (claim_next_task d).0 ≡ err not_found
    → All (λ t. claimable d.now t ≡ false) d.tasks × ((claim_next_task d).1.tasks ≡ d.tasks)
unfolding claim_next_task claim_rows
claim_next_task-not_found d e =
    let ran = sql-Ran_not_found claim_rows d e in
    let o = claim_row-not_found (oldest_claimable d.now d.tasks) d.now d.tasks ran.result in
    (
      oldest_claimable-none d.now d.tasks o,
      ran.tasks ∙ ap (λ r. (claim_row r d.now d.tasks).1) o ∙ unfold claim_row in refl,
    )
