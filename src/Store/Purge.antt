-- ===== src/Store/Purge.antt =====
-- `PurgeFinishedTasks`: what the janitor deletes and what it must keep.
use mathlib.Core.List.{Memᴰ}
use mathlib.Core.Path.{subst}
use opencode_backend.Base.{
  ◌∙◌, ℕ, zero, suc, ◌+◌, ◌/◌, ◌≤◌, ◌<◌, Bool, true, false, Option, none, some, List, [], ◌∷◌, ◌≡◌,
  ◌≢◌, refl, ap, String, if◌then◌else◌, arith, All, Bool-cases, inl, inr, str_eq, eq_iff, ◌&&◌,
  ◌==◌, length, not, length-take-le,
}
use opencode_backend.Exec.{ok, pure}
use opencode_backend.Exec.Runs.{bind_ok}
use opencode_backend.Sql.{
  select_where, delete_where, count_where, exists_where, find_where, order_by, limit_rows,
}
use opencode_backend.Sql.Laws.{
  count_where-eq-zero, count_where-delete_where, find_where-delete_where, find_where-delete_none,
  find_where-matches, count_where-or, select_where-All,
}
use opencode_backend.Sql.Order.{
  ascending, exists_where-row, exists_where-of_Memᴰ, Memᴰ-limit_rows, Memᴰ-order_by,
  Memᴰ-select_where, All-Memᴰ,
}
use opencode_backend.Store.Answers.{sql-calm}
use opencode_backend.Store.Claim.{find-of_Memᴰ}
use opencode_backend.Store.Db.{Db, sql, second}
use opencode_backend.Store.Lookup.{row_of}
use opencode_backend.Store.Tables.{HasDistinctIds}
use opencode_backend.Store.Task.{Task}
use opencode_backend.Store.Tasks.{
  has_id, is_active, is_referenced, purgeable, purge_rows, kept_count, purge_finished_tasks,
}

module _ (secs limit now : ℕ) (ts : List Task) where
  abbrev expendable : Task → Bool
  expendable t = purgeable now secs t && not (is_referenced ts t)

  abbrev batch : List Task
  batch =
      limit_rows limit
        (order_by (ascending (λ (t : Task). t.updated_at)) (select_where expendable ts))

  abbrev doomed : Task → Bool
  doomed t = exists_where (has_id t.id) batch

  -- A row of the batch is a row of the table, and expendable.
  batch-row : (b : Task) → Memᴰ b batch → Memᴰ b ts × (expendable b ≡ true)
  batch-row b m =
      let sorted = Memᴰ-limit_rows limit b _ m in
      let selected = Memᴰ-order_by _ (select_where expendable ts) b sorted in
      (
        Memᴰ-select_where expendable ts b selected,
        All-Memᴰ (λ t. expendable t ≡ true) b _ (select_where-All expendable ts) selected,
      )

  -- Under distinct ids, only an expendable row is doomed.
  doomed-expendable :
      (t : Task) → HasDistinctIds ts → Memᴰ t ts → doomed t ≡ true → expendable t ≡ true
  doomed-expendable t h m e =
      let (b, mb, q) = exists_where-row (has_id t.id) batch e in
      let (row, ex) = batch-row b mb in
      let same : b.id ≡ t.id = (eq_iff b.id t.id).0 q in
      let eq : b ≡ t = cc (find-of_Memᴰ t ts h m, find-of_Memᴰ b ts h row, same) in
      subst (λ u. expendable u ≡ true) eq ex

  survives :
      (t : Task)
      → HasDistinctIds ts
      → Memᴰ t ts
      → expendable t ≡ false
      → row_of t.id (delete_where doomed ts) ≡ some t
  survives t h m e =
      find_where-delete_where (has_id t.id) doomed ts t (find-of_Memᴰ t ts h m)
        (elim (Bool-cases (doomed t)) [ inl d ↦ cc (doomed-expendable t h m d, e) | inr d ↦ d ])

-- At most one row has an id.
count_id-fresh :
    (i : String) (ts : List Task)
    → exists_where (has_id i) ts ≡ false
    → count_where (λ (t : Task). str_eq i t.id) ts ≡ 0
unfolding exists_where count_where
count_id-fresh i [] h = refl
count_id-fresh i (t ∷ ts) h = ground (arith, eq_iff i t.id, eq_iff t.id i, count_id-fresh i ts)

count_id-le :
    (i : String) (ts : List Task)
    → HasDistinctIds ts
    → count_where (λ (t : Task). str_eq i t.id) ts ≤ 1
unfolding count_where
count_id-le i [] h = omega arith
count_id-le i (t ∷ ts) (fresh, h) = ground (
  arith,
  eq_iff i t.id,
  count_id-le i ts h,
  count_id-fresh i ts,
  ap (λ j. exists_where (has_id j) ts),
)

count_ids-le :
    (bs ts : List Task)
    → HasDistinctIds ts
    → count_where (λ t. exists_where (has_id t.id) bs) ts ≤ length bs
unfolding exists_where
count_ids-le [] ts h = omega (arith, none_counted ts)
  where
    All-const : (us : List Task) → All (λ (t : Task). false ≡ false) us
    All-const [] = tt
    All-const (u ∷ us) = (refl, All-const us)

    none_counted : (us : List Task) → count_where (λ t. false) us ≡ 0
    none_counted us = count_where-eq-zero (λ t. false) us (All-const us)
count_ids-le (b ∷ bs) ts h = omega (
  arith,
  count_where-or (λ t. str_eq b.id t.id) (λ t. exists_where (has_id t.id) bs)
      (λ t. exists_where (has_id t.id) (b ∷ bs)) (λ t. refl) ts,
  count_id-le b.id ts h,
  count_ids-le bs ts h,
)

length-limit_rows-le : {A : Type 0} (n : ℕ) (xs : List A) → 0 < n → length (limit_rows n xs) ≤ n
unfolding limit_rows
length-limit_rows-le zero xs h = absurd (omega arith)
length-limit_rows-le (suc n) xs h = length-take-le (suc n) xs

-- What a purge of `d` reports and leaves.
pub record Purged (limit : ℕ) (d : Db) (deleted : ℕ) (d' : Db) : Type 0 where
  pub at_most : deleted ≤ (if limit == 0 then 500 else limit)
  pub accounts : deleted + length d'.tasks ≡ length d.tasks
  pub active_stay :
      (t : Task) → Memᴰ t d.tasks → is_active t.status ≡ true → row_of t.id d'.tasks ≡ some t
  pub upstreams_stay :
      (t : Task)
      → Memᴰ t d.tasks
      → is_active t.status ≡ true
      → t.depends_on ≢ ""
      → row_of t.depends_on d'.tasks ≡ row_of t.depends_on d.tasks

purge_calm :
    (older_than limit : ℕ) (d : Db)
    → d.faults ≡ []
    → let rows : ℕ = if limit == 0 then 500 else limit in
      let secs = older_than / second in
      purge_finished_tasks older_than limit d ≡ (
        ok (
          count_where (doomed secs rows d.now d.tasks) d.tasks,
          count_where
              (λ t.
                purgeable d.now secs t
                && is_referenced (delete_where (doomed secs rows d.now d.tasks) d.tasks) t)
              (delete_where (doomed secs rows d.now d.tasks) d.tasks),
        ),
        record d { tasks = delete_where (doomed secs rows d.now d.tasks) d.tasks },
      )
unfolding purge_finished_tasks purge_rows kept_count pure
purge_calm older_than limit d calm =
    let rows : ℕ = if limit == 0 then 500 else limit in
    let secs = older_than / second in
    let left = record d { tasks = delete_where (doomed secs rows d.now d.tasks) d.tasks } in
    bind_ok (sql (purge_rows secs rows)) _ (sql-calm (purge_rows secs rows) d calm)
    ∙ bind_ok (sql (kept_count secs)) _ (sql-calm (kept_count secs) left calm)

active_safe :
    (secs limit now : ℕ) (ts : List Task) (t : Task)
    → is_active t.status ≡ true
    → expendable secs limit now ts t ≡ false
unfolding purgeable
active_safe secs limit now ts t h = ground arith

upstream_referenced :
    (ts : List Task) (t u : Task)
    → Memᴰ t ts
    → is_active t.status ≡ true
    → t.depends_on ≢ ""
    → u.id ≡ t.depends_on
    → is_referenced ts u ≡ true
unfolding is_referenced
upstream_referenced ts t u m a named same =
    exists_where-of_Memᴰ _ t ts m (ground (arith, eq_iff t.depends_on "", eq_iff t.depends_on u.id))

-- A row of the table that an id finds.
row-Memᴰ : (id : String) (u : Task) (ts : List Task) → row_of id ts ≡ some u → Memᴰ u ts
unfolding find_where
row-Memᴰ id u [] e = cc
row-Memᴰ id u (t ∷ ts) e = elim (Bool-cases (has_id id t)) [
  | inl q ↦ let same : some t ≡ some u = rw q at e in Memᴰ.head (cc)
  | inr q ↦ Memᴰ.tail (row-Memᴰ id u ts (rw q at e))
]

module _ (secs limit now : ℕ) (ts : List Task) (h : HasDistinctIds ts) where
  upstream_stays :
      (t : Task) (o : Option Task)
      → Memᴰ t ts
      → is_active t.status ≡ true
      → t.depends_on ≢ ""
      → row_of t.depends_on ts ≡ o
      → row_of t.depends_on (delete_where (doomed secs limit now ts) ts) ≡ o
  upstream_stays t none m a named e = find_where-delete_none (has_id t.depends_on) _ ts e
  upstream_stays t (some u) m a named e =
      let same : u.id ≡ t.depends_on =
        (eq_iff u.id t.depends_on).0 (find_where-matches (has_id t.depends_on) ts u e) in
      let row = row-Memᴰ t.depends_on u ts e in
      rw (← same) (
        survives secs limit now ts u h row
          (ground (arith, upstream_referenced ts t u m a named same)))

-- With no refused statement and distinct ids, a purge succeeds; it deletes at most `limit` rows, or
-- 500 if no limit is given, and the count that it reports is the number of rows that are gone. It
-- deletes no row that is not terminal, and the upstream of such a row, if it is there, stays too.
pub purge_finished_tasks-Purged :
    (older_than limit : ℕ) (d : Db)
    → d.faults ≡ []
    → HasDistinctIds d.tasks
    → (deleted : ℕ) × (kept : ℕ) × ((purge_finished_tasks older_than limit d).0
        ≡ ok (deleted, kept))
      × Purged limit d deleted (purge_finished_tasks older_than limit d).1
purge_finished_tasks-Purged older_than limit d calm h =
    let rows : ℕ = if limit == 0 then 500 else limit in
    let secs = older_than / second in
    let run = purge_calm older_than limit d calm in
    let gone = doomed secs rows d.now d.tasks in
    (
      count_where gone d.tasks,
      _,
      ap (λ r. r.0) run,
      rw run (record {
        at_most = omega (
          arith,
          count_ids-le (batch secs rows d.now d.tasks) d.tasks h,
          length-limit_rows-le rows
              (order_by (ascending (λ (t : Task). t.updated_at))
                (select_where (expendable secs rows d.now d.tasks) d.tasks))
              (ground arith),
        );
        accounts = count_where-delete_where gone d.tasks;
        active_stay = λ t m a.
            survives secs rows d.now d.tasks t h m (active_safe secs rows d.now d.tasks t a);
        upstreams_stay = λ t m a named.
            upstream_stays secs rows d.now d.tasks h t (row_of t.depends_on d.tasks) m a named refl;
      }),
    )
