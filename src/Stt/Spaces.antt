-- ===== src/Stt/Spaces.antt =====
-- strings.TrimSpace on the texts of internal/server/stt_refine.go: what it leaves begins and ends with
-- a rune that is no space.
use opencode_backend.Base.{
  ◌<◌, ℕ, false, [], ◌∷◌, ◌++◌, ◌≡◌, refl, sym, ap, ◌∙◌, arith, Bool-cases, inl, inr, if◌then◌else◌,
  ◌≤◌, length,
}
use opencode_backend.Automation.Text.{Text, is_space, trim_left, trim_right, trim_space}

-- The text without its spaces.
unfoldable pub without_spaces : Text → Text
without_spaces [] = []
without_spaces (c ∷ cs) = let rest = without_spaces cs in if is_space c then rest else c ∷ rest

pub without_spaces-append :
    (s t : Text) → without_spaces (s ++ t) ≡ without_spaces s ++ without_spaces t
unfolding without_spaces
without_spaces-append [] t = refl
without_spaces-append (c ∷ cs) t = elim (Bool-cases (is_space c)) [
  | inl e ↦ rw e (without_spaces-append cs t)
  | inr e ↦ rw e (ap (λ u. c ∷ u) (without_spaces-append cs t))
]

without_spaces-trim_left : (s : Text) → without_spaces (trim_left s) ≡ without_spaces s
unfolding without_spaces trim_left
without_spaces-trim_left [] = refl
without_spaces-trim_left (c ∷ cs) = elim (Bool-cases (is_space c)) [
  | inl e ↦ rw e (without_spaces-trim_left cs)
  | inr e ↦ rw e (rw e refl)
]

-- The last step of `trim_right`, on what it leaves of the rest.
trim_step : ℕ → Text → Text
trim_step c [] = if is_space c then [] else c ∷ []
trim_step c (d ∷ ds) = c ∷ d ∷ ds

trim_right-step : (c : ℕ) (cs : Text) → trim_right (c ∷ cs) ≡ trim_step c (trim_right cs)
unfolding trim_right trim_step
trim_right-step c cs = elim (trim_right cs) [ [] ↦ refl | d ∷ ds ↦ refl ]

without_spaces-step :
    (c : ℕ) (cs : Text) → without_spaces (trim_step c cs) ≡ without_spaces (c ∷ cs)
unfolding trim_step without_spaces
without_spaces-step c [] = elim (Bool-cases (is_space c)) [
  | inl e ↦ rw e refl
  | inr e ↦ rw e (rw e refl)
]
without_spaces-step c (d ∷ ds) = refl

without_spaces-cons :
    (c : ℕ) (s t : Text)
    → without_spaces s ≡ without_spaces t
    → without_spaces (c ∷ s) ≡ without_spaces (c ∷ t)
unfolding without_spaces
without_spaces-cons c s t e = ap (λ u. if is_space c then u else c ∷ u) e

without_spaces-trim_right : (s : Text) → without_spaces (trim_right s) ≡ without_spaces s
unfolding trim_right
without_spaces-trim_right [] = refl
without_spaces-trim_right (c ∷ cs) = rw (trim_right-step c cs) (
    without_spaces-step c (trim_right cs)
    ∙ without_spaces-cons c _ _ (without_spaces-trim_right cs))

pub without_spaces-trim_space : (s : Text) → without_spaces (trim_space s) ≡ without_spaces s
unfolding trim_space
without_spaces-trim_space s = without_spaces-trim_right (trim_left s) ∙ without_spaces-trim_left s

-- Neither end of the text is a space.
pub record IsTrimmed (s : Text) : Type 0 where
  pub left : trim_left s ≡ s
  pub right : trim_right s ≡ s

pub trim_space-IsTrimmed-id : (s : Text) → IsTrimmed s → trim_space s ≡ s
unfolding trim_space
trim_space-IsTrimmed-id s h = ap trim_right h.left ∙ h.right

pub trim_left-eq : (c : ℕ) (cs : Text) → is_space c ≡ false → trim_left (c ∷ cs) ≡ c ∷ cs
unfolding trim_left
trim_left-eq c cs e = rw e refl

pub trim_right-cons :
    (c d : ℕ) (ds : Text) → trim_right (d ∷ ds) ≡ d ∷ ds → trim_right (c ∷ d ∷ ds) ≡ c ∷ d ∷ ds
unfolding trim_step
trim_right-cons c d ds e = trim_right-step c (d ∷ ds) ∙ ap (trim_step c) e

pub trim_right-grow :
    (c : ℕ) (s : Text) → 0 < length s → trim_right s ≡ s → trim_right (c ∷ s) ≡ c ∷ s
trim_right-grow c [] h e = ground arith
trim_right-grow c (d ∷ ds) h e = trim_right-cons c d ds e

trim_step-tail : (c : ℕ) (s t : Text) → trim_step c s ≡ c ∷ t → s ≡ t
unfolding trim_step
trim_step-tail c [] t e = elim (Bool-cases (is_space c)) [
  | inl q ↦ cc (rw q at e)
  | inr q ↦ cc (rw q at e)
]
trim_step-tail c (d ∷ ds) t e = cc

pub trim_right-tail : (c : ℕ) (cs : Text) → trim_right (c ∷ cs) ≡ c ∷ cs → trim_right cs ≡ cs
trim_right-tail c cs e = trim_step-tail c (trim_right cs) cs (sym (trim_right-step c cs) ∙ e)

trim_right-twice_step :
    (c : ℕ) (s : Text) → trim_right s ≡ s → trim_right (trim_step c s) ≡ trim_step c s
unfolding trim_step trim_right
trim_right-twice_step c [] e = elim (Bool-cases (is_space c)) [
  | inl q ↦ rw q refl
  | inr q ↦ rw q (rw q refl)
]
trim_right-twice_step c (d ∷ ds) e = trim_right-cons c d ds e

trim_right-twice : (s : Text) → trim_right (trim_right s) ≡ trim_right s
unfolding trim_right
trim_right-twice [] = refl
trim_right-twice (c ∷ cs) =
    rw (trim_right-step c cs) (trim_right-twice_step c (trim_right cs) (trim_right-twice cs))

-- The text begins with a rune that is no space, if it has one.
abbrev StartsFull : Text → Type 0
StartsFull [] = Unit
StartsFull (c ∷ cs) = is_space c ≡ false

trim_left-StartsFull : (s : Text) → StartsFull (trim_left s)
unfolding trim_left
trim_left-StartsFull [] = tt
trim_left-StartsFull (c ∷ cs) = elim (Bool-cases (is_space c)) [
  | inl e ↦ rw e (trim_left-StartsFull cs)
  | inr e ↦ rw e e
]

trim_step-StartsFull : (c : ℕ) (s : Text) → is_space c ≡ false → StartsFull (trim_step c s)
unfolding trim_step
trim_step-StartsFull c [] e = rw e e
trim_step-StartsFull c (d ∷ ds) e = e

trim_right-StartsFull : (s : Text) → StartsFull s → StartsFull (trim_right s)
unfolding trim_right
trim_right-StartsFull [] h = tt
trim_right-StartsFull (c ∷ cs) h =
    rw (trim_right-step c cs) (trim_step-StartsFull c (trim_right cs) h)

StartsFull-trim_left : (s : Text) → StartsFull s → trim_left s ≡ s
unfolding trim_left
StartsFull-trim_left [] h = refl
StartsFull-trim_left (c ∷ cs) h = rw h refl

pub IsTrimmed-trim_space : (s : Text) → IsTrimmed (trim_space s)
unfolding trim_space
IsTrimmed-trim_space s = record {
  left = StartsFull-trim_left _ (trim_right-StartsFull (trim_left s) (trim_left-StartsFull s));
  right = trim_right-twice (trim_left s);
}

length-trim_left-le : (s : Text) → length (trim_left s) ≤ length s
unfolding trim_left
length-trim_left-le [] = omega arith
length-trim_left-le (c ∷ cs) = elim (Bool-cases (is_space c)) [
  | inl e ↦ rw e (omega (arith, length-trim_left-le cs))
  | inr e ↦ rw e (omega arith)
]

length-step-le : (c : ℕ) (s : Text) → length (trim_step c s) ≤ length (c ∷ s)
unfolding trim_step
length-step-le c [] = elim (Bool-cases (is_space c)) [
  | inl e ↦ rw e (omega arith)
  | inr e ↦ rw e (omega arith)
]
length-step-le c (d ∷ ds) = omega arith

length-trim_right-le : (s : Text) → length (trim_right s) ≤ length s
unfolding trim_right
length-trim_right-le [] = omega arith
length-trim_right-le (c ∷ cs) =
    rw (trim_right-step c cs)
      (omega (arith, length-step-le c (trim_right cs), length-trim_right-le cs))

pub length-trim_space-le : (s : Text) → length (trim_space s) ≤ length s
unfolding trim_space
length-trim_space-le s = omega (arith, length-trim_right-le (trim_left s), length-trim_left-le s)

pub IsTrimmed-first : (c : ℕ) (cs : Text) → IsTrimmed (c ∷ cs) → is_space c ≡ false
unfolding trim_left
IsTrimmed-first c cs h = elim (Bool-cases (is_space c)) [
  | inr e ↦ e
  | inl e ↦
      let shorter : trim_left cs ≡ c ∷ cs = rw e at h.left in
      ground (arith, length-trim_left-le cs, ap length shorter)
]
