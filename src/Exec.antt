-- ===== src/Exec.antt =====
-- Methods that change a shared state and may return an error: Go's `(value, error)` results beside
-- the state that the call leaves behind, which stays changed when an error is returned.
pub mod Keeps
pub mod Runs
use opencode_backend.Base.{ℕ}

-- `ErrNotFound` of internal/store/store.go, and any error that the database returns.
pub data Err : Type 0 where
  not_found database : Err

pub data Result {ℓ} (A : Type ℓ) : Type ℓ where
  ok : A → Result A
  err : Err → Result A

abbrev pub Exec {ℓ} : Type ℓ → Type ℓ → Type ℓ
Exec S A = S → Result A × S

module _ {ℓ} {S A : Type ℓ} where
  unfoldable pub pure : A → Exec S A
  pure a s = (ok a, s)

  unfoldable pub raise : Err → Exec S A
  raise e s = (err e, s)

  -- `x, err := m`, where the caller goes on and looks at the error itself.
  unfoldable pub attempt : Exec S A → Exec S (Result A)
  attempt m s = (ok (m s).0, (m s).1)

module _ {ℓ} {S A B : Type ℓ} where
  abbrev pub after : Result A → S → (A → Exec S B) → Result B × S
  after (ok a) s f = f a s
  after (err e) s f = (err e, s)

  infixl 5 ◌>>=◌ ◌>>◌
  -- `if err != nil { return err }` after the first step.
  unfoldable pub ◌>>=◌ : Exec S A → (A → Exec S B) → Exec S B
  unfolding pure raise attempt
  ◌>>=◌ m f s = after (m s).0 (m s).1 f

  unfoldable pub ◌>>◌ : Exec S A → Exec S B → Exec S B
  unfolding ◌>>=◌
  m >> k = m >>= λ _. k

-- A component of the state, such as the database inside the process.
module _ {ℓ} {S T A : Type ℓ} where
  unfoldable pub on : (S → T) → (S → T → S) → Exec T A → Exec S A
  on get put m s = ((m (get s)).0, put s (m (get s)).1)
