-- ===== src/Store/Lookup.antt =====
-- The row of an id after an UPDATE of one id.
use opencode_backend.Base.{
  Bool, true, Option, none, some, List, [], ◌∷◌, ◌≡◌, refl, String, if◌then◌else◌, arith, ◌&&◌,
  str_eq, eq_iff,
}
use opencode_backend.Sql.{find_where, update_where}
use opencode_backend.Store.Task.{Task}
use opencode_backend.Store.Tasks.{has_id}

-- The row behind `GetTask`.
abbrev pub row_of : String → List Task → Option Task
row_of id ts = find_where (has_id id) ts

abbrev pub change : (Task → Bool) → (Task → Task) → Option Task → Option Task
change g f none = none
change g f (some t) = some (if g t then f t else t)

module _ (i : String) (f : Task → Task) (same_id : (t : Task) → (f t).id ≡ t.id) where
  -- UPDATE ... WHERE id = i
  pub row_of-update :
      (id : String) (ts : List Task)
      → row_of id (update_where (has_id i) f ts)
        ≡ (if str_eq id i then change (λ t. true) f (row_of i ts) else row_of id ts)
  unfolding find_where update_where
  row_of-update id [] = ground arith
  row_of-update id (t ∷ ts) =
      ground (arith, row_of-update id ts, same_id t, eq_iff t.id i, eq_iff t.id id, eq_iff id i)

  -- UPDATE ... WHERE id = i AND g
  pub row_of-update_if :
      (g : Task → Bool) (id : String) (ts : List Task)
      → row_of id (update_where (λ t. has_id i t && g t) f ts)
        ≡ change (λ t. str_eq id i && g t) f (row_of id ts)
  unfolding find_where update_where
  row_of-update_if g id [] = refl
  row_of-update_if g id (t ∷ ts) =
      ground
        (arith, row_of-update_if g id ts, same_id t, eq_iff t.id i, eq_iff t.id id, eq_iff id i)

-- Any UPDATE that leaves the ids alone.
pub row_of-update_where :
    (p : Task → Bool) (f : Task → Task)
    → ((t : Task) → (f t).id ≡ t.id)
    → (id : String) (ts : List Task) → row_of id (update_where p f ts) ≡ change p f (row_of id ts)
unfolding find_where update_where
row_of-update_where p f same_id id [] = refl
row_of-update_where p f same_id id (t ∷ ts) =
    ground (arith, row_of-update_where p f same_id id ts, same_id t)
