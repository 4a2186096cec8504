-- ===== src/Exec/Keeps.antt =====
-- `Keeps P m`: whatever `m` returns, an error included, it leaves a state with `P` if it starts in
-- one.
use opencode_backend.Base.{Bool, true, false, if◌then◌else◌}
use opencode_backend.Exec.{Err, Result, ok, err, Exec, pure, raise, attempt, after, ◌>>=◌, ◌>>◌}

pub record Keeps {ℓ κ} {S A : Type ℓ} (P : S → Type κ) (m : Exec S A) : Type (ℓ ⊔ κ) where
  pub at : (s : S) → P s → P (m s).1

module _ {ℓ κ} {S A : Type ℓ} {P : S → Type κ} where
  pub Keeps-pure : (a : A) → Keeps P (pure {S = S} a)
  unfolding pure
  Keeps-pure a = record { at = λ s h. h }

  pub Keeps-raise : (e : Err) → Keeps P (raise {S = S} {A = A} e)
  unfolding raise
  Keeps-raise e = record { at = λ s h. h }

  pub Keeps-attempt : {m : Exec S A} → Keeps P m → Keeps P (attempt m)
  unfolding attempt
  Keeps-attempt k = record { at = k.at }

  pub Keeps-if : (b : Bool) {m n : Exec S A} → Keeps P m → Keeps P n → Keeps P (if b then m else n)
  Keeps-if true k l = k
  Keeps-if false k l = l

module _ {ℓ κ} {S A B : Type ℓ} {P : S → Type κ} where
  Keeps-after :
      (r : Result A) (s : S) (f : A → Exec S B)
      → P s
      → ((a : A) → Keeps P (f a))
      → P (after r s f).1
  unfolding ◌>>=◌
  Keeps-after (ok a) s f h k = (k a).at s h
  Keeps-after (err e) s f h k = h

  pub Keeps-bind :
      {m : Exec S A} {f : A → Exec S B} → Keeps P m → ((a : A) → Keeps P (f a)) → Keeps P (m >>= f)
  unfolding ◌>>=◌
  Keeps-bind {m} {f} km kf = record { at = λ s h. Keeps-after (m s).0 (m s).1 f (km.at s h) kf }

  pub Keeps-then : {m : Exec S A} {n : Exec S B} → Keeps P m → Keeps P n → Keeps P (m >> n)
  unfolding ◌>>◌
  Keeps-then km kn = Keeps-bind km (λ _. kn)

pub ruleset keeps_rules = (Keeps-pure, Keeps-raise, Keeps-attempt, Keeps-if, Keeps-bind, Keeps-then)
