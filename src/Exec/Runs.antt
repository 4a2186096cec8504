-- ===== src/Exec/Runs.antt =====
-- Running a chain of steps whose first result is known.
use opencode_backend.Base.{◌≡◌, ap}
use opencode_backend.Exec.{Err, Result, ok, err, Exec, attempt, after, ◌>>=◌, ◌>>◌}

module _ {ℓ} {S A B : Type ℓ} where
  pub bind_ok :
      (m : Exec S A) (f : A → Exec S B) {s s' : S} {a : A} → m s ≡ (ok a, s') → (m >>= f) s ≡ f a s'
  unfolding ◌>>=◌
  bind_ok m f e = ap (λ (r : Result A × S). after r.0 r.1 f) e

  pub bind_err :
      (m : Exec S A) (f : A → Exec S B) {s s' : S} {e : Err}
      → m s ≡ (err e, s')
      → (m >>= f) s ≡ (err e, s')
  unfolding ◌>>=◌
  bind_err m f h = ap (λ (r : Result A × S). after r.0 r.1 f) h

  pub then_ok :
      (m : Exec S A) (n : Exec S B) {s s' : S} {a : A} → m s ≡ (ok a, s') → (m >> n) s ≡ n s'
  unfolding ◌>>◌
  then_ok m n e = bind_ok m (λ _. n) e

module _ {ℓ} {S A : Type ℓ} where
  pub attempt_runs :
      (m : Exec S A) {s s' : S} {r : Result A} → m s ≡ (r, s') → attempt m s ≡ (ok r, s')
  unfolding attempt
  attempt_runs m e = ap (λ (q : Result A × S). (ok q.0, q.1)) e
