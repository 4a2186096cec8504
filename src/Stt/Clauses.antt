-- ===== src/Stt/Clauses.antt =====
-- internal/server/stt_refine.go: splitClauses.
pub mod Joined
use opencode_backend.Base.{
  ℕ, zero, suc, Bool, true, false, List, [], ◌∷◌, ◌++◌, leb, length, ◌&&◌, ◌||◌, not, if◌then◌else◌,
}
use opencode_backend.Automation.Text.{Text, trim_space}
use opencode_backend.Stt.Runes.{is_punct_rune, is_digit_rune, starts_with_any, starts_with}
use opencode_backend.Stt.Marks.{punct_unit}

abbrev pub min_clause_runes : ℕ
min_clause_runes = 40

unfoldable pub is_clause_boundary : ℕ → Text → Bool
unfolding is_punct_rune starts_with
is_clause_boundary c cs = is_punct_rune c || starts_with_any punct_unit (c ∷ cs)

-- The loop from `i = 1`: `prev` is `runes[i-1]`, `piece` is `runes[start:i]`.
unfoldable pub cut_from : ℕ → Text → Text → List Text
unfolding is_digit_rune is_clause_boundary
cut_from prev piece [] = piece ∷ []
cut_from prev piece (c ∷ cs) =
    elim ((not (is_digit_rune prev) && is_clause_boundary c cs)
      && leb min_clause_runes (length piece)) [
        | true ↦ piece ∷ cut_from c (c ∷ []) cs
        | false ↦ cut_from c (piece ++ c ∷ []) cs
      ]

unfoldable pub cut_clauses : Text → List Text
unfolding cut_from
cut_clauses [] = [] ∷ []
cut_clauses (c ∷ cs) = cut_from c (c ∷ []) cs

abbrev pub push_clause : Text → List Text → List Text
push_clause [] out = out
push_clause (c ∷ cs) out = (c ∷ cs) ∷ out

unfoldable pub trim_clauses : List Text → List Text
unfolding trim_space
trim_clauses [] = []
trim_clauses (p ∷ ps) = push_clause (trim_space p) (trim_clauses ps)

unfoldable pub split_clauses : Text → List Text
unfolding cut_clauses trim_clauses
split_clauses s = trim_clauses (cut_clauses s)
