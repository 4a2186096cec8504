-- ===== src/Sql.antt =====
-- What the statements of internal/store mean on the rows of a table, a list in the order of
-- insertion: WHERE, UPDATE, DELETE, COUNT(*), ORDER BY and LIMIT / OFFSET.
pub mod Laws
pub mod Order
use opencode_backend.Base.{
  ℕ, zero, suc, Bool, Option, none, some, List, [], ◌∷◌, if◌then◌else◌, not, take, drop, ◌==◌,
}

module _ {ℓ} {A : Type ℓ} where
  -- SELECT * FROM rows WHERE p
  unfoldable pub select_where : (A → Bool) → List A → List A
  select_where p [] = []
  select_where p (x ∷ xs) = let rest = select_where p xs in if p x then x ∷ rest else rest

  -- UPDATE rows SET f WHERE p
  unfoldable pub update_where : (A → Bool) → (A → A) → List A → List A
  update_where p f [] = []
  update_where p f (x ∷ xs) = (if p x then f x else x) ∷ update_where p f xs

  -- DELETE FROM rows WHERE p
  unfoldable pub delete_where : (A → Bool) → List A → List A
  delete_where p [] = []
  delete_where p (x ∷ xs) = let rest = delete_where p xs in if p x then rest else x ∷ rest

  -- SELECT COUNT(*) FROM rows WHERE p, and the number of rows that an UPDATE or DELETE affects
  unfoldable pub count_where : (A → Bool) → List A → ℕ
  count_where p [] = 0
  count_where p (x ∷ xs) = let n = count_where p xs in if p x then suc n else n

  -- the first row with `p`, as `QueryRow` and a key find it
  unfoldable pub find_where : (A → Bool) → List A → Option A
  find_where p [] = none
  find_where p (x ∷ xs) = let rest = find_where p xs in if p x then some x else rest

  -- whether a sub-select holds a row
  unfoldable pub exists_where : (A → Bool) → List A → Bool
  exists_where p [] = Bool.false
  exists_where p (x ∷ xs) = let rest = exists_where p xs in if p x then Bool.true else rest

  unfoldable pub insert_by : (A → A → Bool) → A → List A → List A
  insert_by before x [] = x ∷ []
  insert_by before x (y ∷ ys) =
      let later = y ∷ insert_by before x ys in if before y x then later else x ∷ y ∷ ys

  -- ORDER BY: rows that the key does not tell apart stay as they stood. `before y x` says that `y`
  -- stays in front of `x`, a row of the table that stood before `y` or is `y`'s equal.
  unfoldable pub order_by : (A → A → Bool) → List A → List A
  unfolding insert_by
  order_by before [] = []
  order_by before (x ∷ xs) = insert_by before x (order_by before xs)

  -- LIMIT n, with no clause at all where the Go code adds none
  unfoldable pub limit_rows : ℕ → List A → List A
  limit_rows zero xs = xs
  limit_rows (suc n) xs = take (suc n) xs
