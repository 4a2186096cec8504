-- ===== src/Stt/Marks/Kept.antt =====
-- dedupPunct and localPunctuate of internal/server/stt_refine.go: what they keep of a text.
use opencode_backend.Base.{
  not, ℕ, Bool, true, false, [], ◌∷◌, ◌≡◌, refl, ap, Bool-cases, inl, inr, if◌then◌else◌, ◌&&◌,
}
use opencode_backend.Automation.Text.{Text}
use opencode_backend.Stt.Runes.{is_punct_rune, starts_with_any}
use opencode_backend.Stt.Marks.{
  question, comma, punct_unit, is_digit_rune, dedup_punct, dedup_punct_from,
}

-- The text without its punctuation.
unfoldable pub without_marks : Text → Text
without_marks [] = []
without_marks (c ∷ cs) = let rest = without_marks cs in if is_punct_rune c then rest else c ∷ rest

-- No mark follows a mark, `last` telling whether one stands in front.
unfoldable pub Apart : Bool → Text → Type 0
Apart last [] = Unit
Apart last (c ∷ cs) = ((last && is_punct_rune c) ≡ false) × Apart (is_punct_rune c) cs

Apart-dedup : (last : Bool) (s : Text) → Apart last (dedup_punct_from last s)
unfolding Apart dedup_punct_from
Apart-dedup last [] = tt
Apart-dedup true (c ∷ cs) = elim (Bool-cases (is_punct_rune c)) [
  | inl e ↦ rw e (Apart-dedup true cs)
  | inr e ↦ rw e (e, rw e (Apart-dedup false cs))
]
Apart-dedup false (c ∷ cs) = elim (Bool-cases (is_punct_rune c)) [
  | inl e ↦ rw e (refl, rw e (Apart-dedup true cs))
  | inr e ↦ rw e (refl, rw e (Apart-dedup false cs))
]

dedup-Apart : (last : Bool) (s : Text) → Apart last s → dedup_punct_from last s ≡ s
unfolding Apart dedup_punct_from
dedup-Apart last [] h = refl
dedup-Apart true (c ∷ cs) (e, h) = rw e (ap (λ u. c ∷ u) (dedup-Apart false cs (rw e at h)))
dedup-Apart false (c ∷ cs) (_, h) = elim (Bool-cases (is_punct_rune c)) [
  | inl e ↦ rw e (ap (λ u. c ∷ u) (dedup-Apart true cs (rw e at h)))
  | inr e ↦ rw e (ap (λ u. c ∷ u) (dedup-Apart false cs (rw e at h)))
]

without_marks-dedup :
    (last : Bool) (s : Text) → without_marks (dedup_punct_from last s) ≡ without_marks s
unfolding without_marks dedup_punct_from
without_marks-dedup last [] = refl
without_marks-dedup true (c ∷ cs) = elim (Bool-cases (is_punct_rune c)) [
  | inl e ↦ rw e (without_marks-dedup true cs)
  | inr e ↦ rw e (rw e (ap (λ u. c ∷ u) (without_marks-dedup false cs)))
]
without_marks-dedup false (c ∷ cs) = elim (Bool-cases (is_punct_rune c)) [
  | inl e ↦ rw e (rw e (without_marks-dedup true cs))
  | inr e ↦ rw e (rw e (ap (λ u. c ∷ u) (without_marks-dedup false cs)))
]

-- dedupPunct keeps everything but punctuation as it is, leaves no two marks in a row, and changes
-- nothing when it is run again.
pub dedup_punct-Apart :
    (s : Text)
    → Apart false (dedup_punct s)
      × (without_marks (dedup_punct s) ≡ without_marks s)
      × (dedup_punct (dedup_punct s) ≡ dedup_punct s)
unfolding dedup_punct
dedup_punct-Apart s =
    (Apart-dedup false s, without_marks-dedup false s, dedup-Apart false _ (Apart-dedup false s))

without_marks-cons :
    (c : ℕ) (s t : Text)
    → without_marks s ≡ without_marks t
    → without_marks (c ∷ s) ≡ without_marks (c ∷ t)
unfolding without_marks
without_marks-cons c s t e = ap (λ u. if is_punct_rune c then u else c ∷ u) e

-- The second text is the first with commas and question marks of localPunctuate inserted: every rune
-- of the first stays, in its order.
pub data IsPunctuated : Text → Text → Type 0 where
  ended : IsPunctuated [] []
  kept : (c : ℕ) {s t : Text} → IsPunctuated s t → IsPunctuated (c ∷ s) (c ∷ t)
  comma_put : {s t : Text} → IsPunctuated s t → IsPunctuated s (comma ∷ t)
  question_put : {s t : Text} → IsPunctuated s t → IsPunctuated s (question ∷ t)

abbrev starts_unit : ℕ → ℕ → Text → Bool
starts_unit prev c cs =
    (not (is_punct_rune prev) && not (is_digit_rune prev)) && starts_with_any punct_unit (c ∷ cs)
