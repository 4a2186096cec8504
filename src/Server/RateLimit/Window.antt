-- ===== src/Server/RateLimit/Window.antt =====
-- What a lookup in the map of login attempts finds after an update, a deletion and a pruning.
use opencode_backend.Base.{
  ℕ, ◌≤◌, Bool, true, false, String, List, [], ◌∷◌, ◌++◌, str_eq, if◌then◌else◌, ◌≡◌, refl, ◌∙◌,
  arith, eq_iff, Bool-cases, inl, inr,
}
use opencode_backend.Sql.{select_where}
use opencode_backend.Server.RateLimit.{
  delete_key, is_recent, attempts_of, set_attempts, keep_alive, prune,
}

unfoldable pub recent : ℕ → ℕ → List ℕ → List ℕ
recent window now ts = select_where (is_recent window now) ts

pub select-append :
    (p : ℕ → Bool) (xs ys : List ℕ)
    → select_where p (xs ++ ys) ≡ select_where p xs ++ select_where p ys
unfolding select_where
select-append p [] ys = refl
select-append p (x ∷ xs) ys = ground (arith, select-append p xs ys)

-- What is recent later was recent before.
pub recent-recent :
    (window now later : ℕ) (ts : List ℕ)
    → now ≤ later
    → recent window later (recent window now ts) ≡ recent window later ts
unfolding recent select_where
recent-recent window now later [] h = refl
recent-recent window now later (t ∷ ts) h = ground (arith, recent-recent window now later ts h)

pub attempts_of-set :
    (key k : String) (ts : List ℕ) (m : List (String × List ℕ))
    → attempts_of k (set_attempts key ts m) ≡ (if str_eq key k then ts else attempts_of k m)
unfolding attempts_of set_attempts
attempts_of-set key k ts [] = refl
attempts_of-set key k ts ((j, us) ∷ m) =
    ground (arith, attempts_of-set key k ts m, eq_iff j key, eq_iff j k, eq_iff key k)

pub attempts_of-delete :
    (key k : String) (m : List (String × List ℕ))
    → attempts_of k (delete_key key m) ≡ (if str_eq key k then [] else attempts_of k m)
unfolding attempts_of delete_key
attempts_of-delete key k [] = ground arith
attempts_of-delete key k ((j, us) ∷ m) =
    ground (arith, attempts_of-delete key k m, eq_iff j key, eq_iff j k, eq_iff key k)

unfoldable pub has_key : String → List (String × List ℕ) → Bool
has_key k [] = false
has_key k ((j, _) ∷ m) = let rest = has_key k m in if str_eq j k then true else rest

unfoldable pub DistinctKeys : List (String × List ℕ) → Type 0
DistinctKeys [] = Unit
DistinctKeys ((k, _) ∷ m) = (has_key k m ≡ false) × DistinctKeys m

has_key-set :
    (key k : String) (ts : List ℕ) (m : List (String × List ℕ))
    → has_key k (set_attempts key ts m) ≡ (if str_eq key k then true else has_key k m)
unfolding has_key set_attempts
has_key-set key k ts [] = refl
has_key-set key k ts ((j, us) ∷ m) =
    ground (arith, has_key-set key k ts m, eq_iff j key, eq_iff j k, eq_iff key k)

has_key-delete :
    (key k : String) (m : List (String × List ℕ))
    → has_key k m ≡ false
    → has_key k (delete_key key m) ≡ false
unfolding has_key delete_key
has_key-delete key k [] h = refl
has_key-delete key k ((j, us) ∷ m) h = ground (arith, has_key-delete key k m)

attempts_of-absent :
    (k : String) (m : List (String × List ℕ)) → has_key k m ≡ false → attempts_of k m ≡ []
unfolding has_key attempts_of
attempts_of-absent k [] h = refl
attempts_of-absent k ((j, us) ∷ m) h = ground (arith, attempts_of-absent k m)

pub DistinctKeys-set :
    (key : String) (ts : List ℕ) (m : List (String × List ℕ))
    → DistinctKeys m
    → DistinctKeys (set_attempts key ts m)
unfolding DistinctKeys has_key set_attempts
DistinctKeys-set key ts [] d = (refl, tt)
DistinctKeys-set key ts ((j, us) ∷ m) (h, d) = elim (Bool-cases (str_eq j key)) [
  | inl e ↦ ground (arith, eq_iff j key, h, d)
  | inr e ↦ rw e (
    (has_key-set key j ts m ∙ ground (arith, eq_iff j key, eq_iff key j)),
    DistinctKeys-set key ts m d,
  )
]

pub DistinctKeys-delete :
    (key : String) (m : List (String × List ℕ)) → DistinctKeys m → DistinctKeys (delete_key key m)
unfolding DistinctKeys delete_key
DistinctKeys-delete key [] d = tt
DistinctKeys-delete key ((j, us) ∷ m) (h, d) = elim (Bool-cases (str_eq j key)) [
  | inl e ↦ rw e (DistinctKeys-delete key m d)
  | inr e ↦ rw e (has_key-delete key j m h, DistinctKeys-delete key m d)
]

has_key-keep :
    (k j : String) (ts : List ℕ) (m : List (String × List ℕ))
    → has_key k m ≡ false
    → str_eq j k ≡ false
    → has_key k (keep_alive j ts m) ≡ false
unfolding has_key
has_key-keep k j [] m h e = h
has_key-keep k j (t ∷ ts) m h e = ground arith

has_key-prune :
    (window now : ℕ) (k : String) (m : List (String × List ℕ))
    → has_key k m ≡ false
    → has_key k (prune window now m) ≡ false
unfolding has_key prune
has_key-prune window now k [] h = refl
has_key-prune window now k ((j, us) ∷ m) h =
    has_key-keep k j _ _ (has_key-prune window now k m (ground arith)) (ground arith)

DistinctKeys-keep :
    (k : String) (ts : List ℕ) (m : List (String × List ℕ))
    → has_key k m ≡ false
    → DistinctKeys m
    → DistinctKeys (keep_alive k ts m)
unfolding DistinctKeys
DistinctKeys-keep k [] m h d = d
DistinctKeys-keep k (t ∷ ts) m h d = (h, d)

pub DistinctKeys-prune :
    (window now : ℕ) (m : List (String × List ℕ))
    → DistinctKeys m
    → DistinctKeys (prune window now m)
unfolding DistinctKeys prune
DistinctKeys-prune window now [] d = tt
DistinctKeys-prune window now ((k, us) ∷ m) (h, d) =
    DistinctKeys-keep k _ _ (has_key-prune window now k m h) (DistinctKeys-prune window now m d)

attempts_of-keep :
    (k j : String) (ts : List ℕ) (m : List (String × List ℕ))
    → has_key j m ≡ false
    → attempts_of k (keep_alive j ts m) ≡ (if str_eq j k then ts else attempts_of k m)
unfolding attempts_of
attempts_of-keep k j [] m h = elim (Bool-cases (str_eq j k)) [
  | inl e ↦ rw e (attempts_of-absent k m (ground (arith, eq_iff j k)))
  | inr e ↦ rw e refl
]
attempts_of-keep k j (t ∷ ts) m h = refl

pub attempts_of-prune :
    (window now : ℕ) (k : String) (m : List (String × List ℕ))
    → DistinctKeys m
    → attempts_of k (prune window now m) ≡ recent window now (attempts_of k m)
unfolding attempts_of prune recent select_where DistinctKeys
attempts_of-prune window now k [] d = refl
attempts_of-prune window now k ((j, us) ∷ m) (h, d) =
    attempts_of-keep k j _ _ (has_key-prune window now j m h)
    ∙ ground (arith, attempts_of-prune window now k m d)
