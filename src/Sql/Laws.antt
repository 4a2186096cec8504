-- ===== src/Sql/Laws.antt =====
-- Laws of the statements on rows: what an UPDATE or DELETE keeps, and what a query finds after it.
use opencode_backend.Base.{
  ◌≤◌, suc, ◌+◌, Bool, true, false, none, some, List, [], ◌∷◌, ◌++◌, ◌≡◌, refl, ap, if◌then◌else◌,
  arith, All, Bool-cases, inl, inr, length,
}
use mathlib.Core.Option.{some-injective}
use mathlib.Core.Path.{subst}
use opencode_backend.Sql.{
  select_where, update_where, delete_where, count_where, find_where, exists_where, insert_by,
  order_by,
}

module _ {ℓ κ} {A : Type ℓ} (P : A → Type κ) where
  pub All-update_where :
      (p : A → Bool) (f : A → A)
      → ((x : A) → P x → p x ≡ true → P (f x))
      → (xs : List A) → All P xs
      → All P (update_where p f xs)
  unfolding update_where
  All-update_where p f keep [] h = tt
  All-update_where p f keep (x ∷ xs) (px, h) = (
    elim (Bool-cases (p x)) [ inl e ↦ rw e (keep x px e) | inr e ↦ rw e px ],
    All-update_where p f keep xs h,
  )

  pub All-delete_where : (p : A → Bool) (xs : List A) → All P xs → All P (delete_where p xs)
  unfolding delete_where
  All-delete_where p [] h = tt
  All-delete_where p (x ∷ xs) (px, h) = elim (Bool-cases (p x)) [
    | inl e ↦ rw e (All-delete_where p xs h)
    | inr e ↦ rw e (px, All-delete_where p xs h)
  ]

  pub All-select_where : (p : A → Bool) (xs : List A) → All P xs → All P (select_where p xs)
  unfolding select_where
  All-select_where p [] h = tt
  All-select_where p (x ∷ xs) (px, h) = elim (Bool-cases (p x)) [
    | inl e ↦ rw e (px, All-select_where p xs h)
    | inr e ↦ rw e (All-select_where p xs h)
  ]

  pub All-find_where :
      (p : A → Bool) (xs : List A) (y : A) → All P xs → find_where p xs ≡ some y → P y
  unfolding find_where
  All-find_where p [] y h e = cc
  All-find_where p (x ∷ xs) y (px, h) e = elim (Bool-cases (p x)) [
    | inl q ↦ let same : some x ≡ some y = rw q at e in subst P (some-injective x y same) px
    | inr q ↦ All-find_where p xs y h (rw q at e)
  ]

module _ {ℓ} {A : Type ℓ} where
  -- Each selected row passes the test.
  pub select_where-All : (p : A → Bool) (xs : List A) → All (λ x. p x ≡ true) (select_where p xs)
  unfolding select_where
  select_where-All p [] = tt
  select_where-All p (x ∷ xs) = elim (Bool-cases (p x)) [
    | inl e ↦ rw e (e, select_where-All p xs)
    | inr e ↦ rw e (select_where-All p xs)
  ]

  pub length-select_where :
      (p : A → Bool) (xs : List A) → length (select_where p xs) ≡ count_where p xs
  unfolding select_where count_where
  length-select_where p [] = refl
  length-select_where p (x ∷ xs) = ground (arith, length-select_where p xs)

  pub length-update_where :
      (p : A → Bool) (f : A → A) (xs : List A) → length (update_where p f xs) ≡ length xs
  unfolding update_where
  length-update_where p f [] = refl
  length-update_where p f (x ∷ xs) = ap suc (length-update_where p f xs)

  -- The rows that a DELETE affects and the rows that it leaves are all the rows.
  pub count_where-delete_where :
      (p : A → Bool) (xs : List A) → count_where p xs + length (delete_where p xs) ≡ length xs
  unfolding delete_where count_where
  count_where-delete_where p [] = refl
  count_where-delete_where p (x ∷ xs) = ground (arith, count_where-delete_where p xs)

  -- An UPDATE that affects no row changes nothing.
  pub update_where-eq_self :
      (p : A → Bool) (f : A → A) (xs : List A) → count_where p xs ≡ 0 → update_where p f xs ≡ xs
  unfolding update_where count_where
  update_where-eq_self p f [] h = refl
  update_where-eq_self p f (x ∷ xs) h = ground (arith, update_where-eq_self p f xs)

  pub count_where-eq-zero :
      (p : A → Bool) (xs : List A) → All (λ x. p x ≡ false) xs → count_where p xs ≡ 0
  unfolding count_where
  count_where-eq-zero p [] h = refl
  count_where-eq-zero p (x ∷ xs) (e, h) = rw e (count_where-eq-zero p xs h)

  pub All-of_count_where :
      (p : A → Bool) (xs : List A) → count_where p xs ≡ 0 → All (λ x. p x ≡ false) xs
  unfolding count_where
  All-of_count_where p [] h = tt
  All-of_count_where p (x ∷ xs) h = elim (Bool-cases (p x)) [
    | inl e ↦ absurd (ground (arith, e))
    | inr e ↦ (e, All-of_count_where p xs (rw e at h))
  ]

  -- A row found by a key that the UPDATE leaves alone is the row found before, updated.
  pub find_where-update_where :
      (k p : A → Bool) (f : A → A)
      → ((x : A) → k (f x) ≡ k x)
      → (xs : List A)
      → find_where k (update_where p f xs)
        ≡ elim (find_where k xs) [ none ↦ none | some x ↦ some (if p x then f x else x) ]
  unfolding update_where find_where
  find_where-update_where k p f same [] = refl
  find_where-update_where k p f same (x ∷ xs) =
      ground (arith, same x, find_where-update_where k p f same xs)

  pub exists_where-update_where :
      (k p : A → Bool) (f : A → A)
      → ((x : A) → k (f x) ≡ k x)
      → (xs : List A) → exists_where k (update_where p f xs) ≡ exists_where k xs
  unfolding update_where exists_where
  exists_where-update_where k p f same [] = refl
  exists_where-update_where k p f same (x ∷ xs) =
      ground (arith, same x, exists_where-update_where k p f same xs)

  pub find_where-matches :
      (k : A → Bool) (xs : List A) (y : A) → find_where k xs ≡ some y → k y ≡ true
  unfolding find_where
  find_where-matches k [] y h = cc
  find_where-matches k (x ∷ xs) y h = ground (arith, find_where-matches k xs y)

  pub exists_where-delete_where :
      (k p : A → Bool) (xs : List A)
      → exists_where k xs ≡ false
      → exists_where k (delete_where p xs) ≡ false
  unfolding exists_where delete_where
  exists_where-delete_where k p [] h = refl
  exists_where-delete_where k p (x ∷ xs) h = ground (arith, exists_where-delete_where k p xs)

  pub exists_where-append :
      (k : A → Bool) (xs ys : List A)
      → exists_where k (xs ++ ys) ≡ (if exists_where k xs then true else exists_where k ys)
  unfolding exists_where
  exists_where-append k [] ys = refl
  exists_where-append k (x ∷ xs) ys = ground (arith, exists_where-append k xs ys)

  -- No row with `k` is lost where the DELETE spares each of them.
  pub exists_where-spared :
      (k p : A → Bool)
      → ((x : A) → k x ≡ true → p x ≡ false)
      → (xs : List A) → exists_where k (delete_where p xs) ≡ exists_where k xs
  unfolding exists_where delete_where
  exists_where-spared k p spare [] = refl
  exists_where-spared k p spare (x ∷ xs) = ground (arith, spare x, exists_where-spared k p spare xs)

module _ {ℓ} {A : Type ℓ} (before : A → A → Bool) where
  pub length-insert_by : (x : A) (ys : List A) → length (insert_by before x ys) ≡ suc (length ys)
  unfolding insert_by
  length-insert_by x [] = refl
  length-insert_by x (y ∷ ys) = ground (arith, length-insert_by x ys)

  pub length-order_by : (xs : List A) → length (order_by before xs) ≡ length xs
  unfolding order_by
  length-order_by [] = refl
  length-order_by (x ∷ xs) =
      rw (length-insert_by x (order_by before xs)) (ap suc (length-order_by xs))

module _ {ℓ κ} {A : Type ℓ} (before : A → A → Bool) (P : A → Type κ) where
  pub All-insert_by : (x : A) (ys : List A) → P x → All P ys → All P (insert_by before x ys)
  unfolding insert_by
  All-insert_by x [] px h = (px, tt)
  All-insert_by x (y ∷ ys) px (py, h) = elim (Bool-cases (before y x)) [
    | inl e ↦ rw e (py, All-insert_by x ys px h)
    | inr e ↦ rw e (px, (py, h))
  ]

  pub All-order_by : (xs : List A) → All P xs → All P (order_by before xs)
  unfolding order_by
  All-order_by [] h = tt
  All-order_by (x ∷ xs) (px, h) = All-insert_by x (order_by before xs) px (All-order_by xs h)

module _ {ℓ κ} {A : Type ℓ} (P : A → Type κ) where
  pub All-update_where_each :
      (p : A → Bool) (f : A → A)
      → ((x : A) → P (if p x then f x else x))
      → (xs : List A) → All P (update_where p f xs)
  unfolding update_where
  All-update_where_each p f h [] = tt
  All-update_where_each p f h (x ∷ xs) = (h x, All-update_where_each p f h xs)

module _ {ℓ} {A : Type ℓ} where
  -- A row that the DELETE spares is found as before.
  pub find_where-delete_where :
      (k p : A → Bool) (xs : List A) (y : A)
      → find_where k xs ≡ some y
      → p y ≡ false
      → find_where k (delete_where p xs) ≡ some y
  unfolding find_where delete_where
  find_where-delete_where k p [] y h s = cc
  find_where-delete_where k p (x ∷ xs) y h s = ground (arith, find_where-delete_where k p xs y)

  pub find_where-delete_none :
      (k p : A → Bool) (xs : List A)
      → find_where k xs ≡ none
      → find_where k (delete_where p xs) ≡ none
  unfolding find_where delete_where
  find_where-delete_none k p [] h = refl
  find_where-delete_none k p (x ∷ xs) h = ground (arith, find_where-delete_none k p xs)

  pub count_where-or :
      (p q r : A → Bool)
      → ((x : A) → r x ≡ (if p x then true else q x))
      → (xs : List A) → count_where r xs ≤ count_where p xs + count_where q xs
  unfolding count_where
  count_where-or p q r h [] = omega arith
  count_where-or p q r h (x ∷ xs) = ground (arith, h x, count_where-or p q r h xs)
