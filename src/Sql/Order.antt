-- ===== src/Sql/Order.antt =====
-- ORDER BY a number and LIMIT 1, and which rows the queries return.
use mathlib.Core.List.{Memᴰ}
use mathlib.Core.Path.{subst, sym}
use opencode_backend.Base.{
  ℕ, zero, suc, ◌≤◌, Bool, true, false, Option, none, some, List, [], ◌∷◌, ◌≡◌, refl, ap, ltb,
  arith, All, All-imp, Bool-cases, inl, inr, length, take,
}
use opencode_backend.Sql.{select_where, exists_where, insert_by, order_by, limit_rows}
use opencode_backend.Sql.Laws.{length-order_by}

module _ {ℓ} {A : Type ℓ} where
  abbrev pub first_row : List A → Option A
  first_row [] = none
  first_row (x ∷ xs) = some x

  pub Memᴰ-select_where :
      (p : A → Bool) (xs : List A) (y : A) → Memᴰ y (select_where p xs) → Memᴰ y xs
  unfolding select_where
  Memᴰ-select_where p [] y m = m
  Memᴰ-select_where p (x ∷ xs) y m = elim (Bool-cases (p x)) [
    | inl e ↦ keep (rw e at m) (Memᴰ-select_where p xs y)
    | inr e ↦ Memᴰ.tail (Memᴰ-select_where p xs y (rw e at m))
  ]
    where
      keep : {zs : List A} → Memᴰ y (x ∷ zs) → (Memᴰ y zs → Memᴰ y xs) → Memᴰ y (x ∷ xs)
      keep (Memᴰ.head q) f = Memᴰ.head q
      keep (Memᴰ.tail q) f = Memᴰ.tail (f q)

  Memᴰ-insert_by :
      (before : A → A → Bool) (x : A) (ys : List A) (y : A)
      → Memᴰ y (insert_by before x ys)
      → Memᴰ y (x ∷ ys)
  unfolding insert_by
  Memᴰ-insert_by before x [] y m = m
  Memᴰ-insert_by before x (z ∷ ys) y m = elim (Bool-cases (before z x)) [
    | inl e ↦ later (rw e at m) (Memᴰ-insert_by before x ys y)
    | inr e ↦ rw e at m
  ]
    where
      swap : Memᴰ y (x ∷ ys) → Memᴰ y (x ∷ z ∷ ys)
      swap (Memᴰ.head q) = Memᴰ.head q
      swap (Memᴰ.tail q) = Memᴰ.tail (Memᴰ.tail q)

      later : {zs : List A} → Memᴰ y (z ∷ zs) → (Memᴰ y zs → Memᴰ y (x ∷ ys)) → Memᴰ y (x ∷ z ∷ ys)
      later (Memᴰ.head q) f = Memᴰ.tail (Memᴰ.head q)
      later (Memᴰ.tail q) f = swap (f q)

  pub Memᴰ-order_by :
      (before : A → A → Bool) (xs : List A) (y : A) → Memᴰ y (order_by before xs) → Memᴰ y xs
  unfolding order_by
  Memᴰ-order_by before [] y m = m
  Memᴰ-order_by before (x ∷ xs) y m =
      deeper (Memᴰ-insert_by before x (order_by before xs) y m) (Memᴰ-order_by before xs y)
    where
      deeper : {zs : List A} → Memᴰ y (x ∷ zs) → (Memᴰ y zs → Memᴰ y xs) → Memᴰ y (x ∷ xs)
      deeper (Memᴰ.head q) f = Memᴰ.head q
      deeper (Memᴰ.tail q) f = Memᴰ.tail (f q)

  pub Memᴰ-first_row : (xs : List A) (y : A) → first_row xs ≡ some y → Memᴰ y xs
  Memᴰ-first_row [] y e = cc
  Memᴰ-first_row (x ∷ xs) y e = Memᴰ.head (cc)

  pub All-Memᴰ {κ} : (P : A → Type κ) (y : A) (xs : List A) → All P xs → Memᴰ y xs → P y
  All-Memᴰ P y [] h m = elim m [ ]
  All-Memᴰ P y (x ∷ xs) h (Memᴰ.head q) = subst P (sym q) h.0
  All-Memᴰ P y (x ∷ xs) h (Memᴰ.tail q) = All-Memᴰ P y xs h.1 q

  pub exists_where-Memᴰ :
      (k : A → Bool) (y : A) (xs : List A) → exists_where k xs ≡ false → Memᴰ y xs → k y ≡ false
  unfolding exists_where
  exists_where-Memᴰ k y [] h m = elim m [ ]
  exists_where-Memᴰ k y (x ∷ xs) h (Memᴰ.head q) = rw q (ground arith)
  exists_where-Memᴰ k y (x ∷ xs) h (Memᴰ.tail m) = exists_where-Memᴰ k y xs (ground arith) m

module _ {ℓ} {A : Type ℓ} where
  -- The row behind a sub-select that is not empty.
  pub exists_where-row :
      (k : A → Bool) (xs : List A) → exists_where k xs ≡ true → (y : A) × Memᴰ y xs × (k y ≡ true)
  unfolding exists_where
  exists_where-row k [] h = cc
  exists_where-row k (x ∷ xs) h = elim (Bool-cases (k x)) [
    | inl e ↦ (x, Memᴰ.head refl, e)
    | inr e ↦ let (y, m, q) = exists_where-row k xs (rw e at h) in (y, Memᴰ.tail m, q)
  ]

  pub exists_where-of_Memᴰ :
      (k : A → Bool) (y : A) (xs : List A) → Memᴰ y xs → k y ≡ true → exists_where k xs ≡ true
  exists_where-of_Memᴰ k y xs m e = elim (Bool-cases (exists_where k xs)) [
    | inl yes' ↦ yes'
    | inr no' ↦ cc (exists_where-Memᴰ k y xs no' m, e)
  ]

  Memᴰ-take : (n : ℕ) (y : A) (xs : List A) → Memᴰ y (take n xs) → Memᴰ y xs
  Memᴰ-take zero y xs m = elim m [ ]
  Memᴰ-take (suc n) y [] m = elim m [ ]
  Memᴰ-take (suc n) y (x ∷ xs) (Memᴰ.head q) = Memᴰ.head q
  Memᴰ-take (suc n) y (x ∷ xs) (Memᴰ.tail m) = Memᴰ.tail (Memᴰ-take n y xs m)

  pub Memᴰ-limit_rows : (n : ℕ) (y : A) (xs : List A) → Memᴰ y (limit_rows n xs) → Memᴰ y xs
  unfolding limit_rows
  Memᴰ-limit_rows zero y xs m = m
  Memᴰ-limit_rows (suc n) y xs m = Memᴰ-take (suc n) y xs m

All-empty {ℓ κ} : {A : Type ℓ} (P : A → Type κ) (xs : List A) → length xs ≡ 0 → All P xs
All-empty P [] h = tt
All-empty P (x ∷ xs) h = absurd (omega arith)

module _ {ℓ} {A : Type ℓ} (key : A → ℕ) where
  abbrev pub ascending : A → A → Bool
  ascending y x = ltb (key y) (key x)

  -- The first row of an ascending order has the least key.
  pub first_row-order_by :
      (xs : List A) (c : A)
      → first_row (order_by ascending xs) ≡ some c
      → All (λ x. key c ≤ key x) xs
  unfolding order_by insert_by
  first_row-order_by [] c e = tt
  first_row-order_by (x ∷ xs) c e = go (order_by ascending xs) refl (first_row-order_by xs) e
    where
      go :
          (o : List A)
          → order_by ascending xs ≡ o
          → ((d : A) → first_row (order_by ascending xs) ≡ some d → All (λ z. key d ≤ key z) xs)
          → first_row (insert_by ascending x o) ≡ some c
          → All (λ z. key c ≤ key z) (x ∷ xs)
      go [] q ih r =
          let same : x ≡ c = cc in
          (
            ground (arith, same),
            All-empty _ xs (omega (arith, ap length q, length-order_by ascending xs)),
          )
      go (y ∷ o) q ih r = elim (Bool-cases (ltb (key y) (key x))) [
        | inl less ↦
            let same : y ≡ c = cc (rw less at r) in
            subst (λ d. All (λ z. key d ≤ key z) (x ∷ xs)) same (ground arith, ih y (rw q refl))
        | inr more ↦
            let same : x ≡ c = cc (rw more at r) in
            subst (λ d. All (λ z. key d ≤ key z) (x ∷ xs)) same
              (omega arith, All-imp (λ z le. ground (arith, le)) xs (ih y (rw q refl)))
      ]
