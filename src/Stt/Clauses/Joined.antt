-- ===== src/Stt/Clauses/Joined.antt =====
-- splitClauses of internal/server/stt_refine.go: nothing but spaces is lost between the clauses.
use opencode_backend.Base.{
  not, ℕ, Bool, List, [], ◌∷◌, ◌++◌, ◌≡◌, ◌≢◌, refl, sym, ap, ◌∙◌, Bool-cases, inl, inr, ◌&&◌, All,
  length, append_assoc, leb,
}
use opencode_backend.Automation.Text.{Text, trim_space}
use opencode_backend.Stt.Spaces.{
  IsTrimmed, IsTrimmed-trim_space, without_spaces, without_spaces-append, without_spaces-trim_space,
}
use opencode_backend.Stt.Clauses.{
  is_clause_boundary, is_digit_rune, cut_from, cut_clauses, trim_clauses, split_clauses,
  push_clause, min_clause_runes,
}

abbrev pub joined : List Text → Text
joined [] = []
joined (p ∷ ps) = p ++ joined ps

abbrev is_cut : ℕ → Text → ℕ → Text → Bool
is_cut prev piece c cs =
    (not (is_digit_rune prev) && is_clause_boundary c cs) && leb min_clause_runes (length piece)

joined-cut_from : (prev : ℕ) (piece s : Text) → joined (cut_from prev piece s) ≡ piece ++ s
unfolding cut_from
joined-cut_from prev piece [] = refl
joined-cut_from prev piece (c ∷ cs) = elim (Bool-cases (is_cut prev piece c cs)) [
  | inl e ↦ rw (e, joined) (ap (λ t. piece ++ t) (joined-cut_from c (c ∷ []) cs))
  | inr e ↦ rw (e, joined) (joined-cut_from c (piece ++ c ∷ []) cs ∙ append_assoc piece (c ∷ []) cs)
]

joined-cut_clauses : (s : Text) → joined (cut_clauses s) ≡ s
unfolding cut_clauses
joined-cut_clauses [] = refl
joined-cut_clauses (c ∷ cs) = joined-cut_from c (c ∷ []) cs

joined-push : (p : Text) (ps : List Text) → joined (push_clause p ps) ≡ p ++ joined ps
joined-push [] ps = refl
joined-push (c ∷ cs) ps = refl

without_spaces-clauses :
    (ps : List Text) → without_spaces (joined (trim_clauses ps)) ≡ without_spaces (joined ps)
unfolding trim_clauses
without_spaces-clauses [] = refl
without_spaces-clauses (p ∷ ps) =
    ap without_spaces (joined-push (trim_space p) (trim_clauses ps))
    ∙ without_spaces-append (trim_space p) (joined (trim_clauses ps))
    ∙ ap (λ t. t ++ without_spaces (joined (trim_clauses ps))) (without_spaces-trim_space p)
    ∙ ap (λ t. without_spaces p ++ t) (without_spaces-clauses ps)
    ∙ sym (without_spaces-append p (joined ps))

-- A clause is not blank, and no space stands at its ends.
pub record IsClause (p : Text) : Type 0 where
  pub full : p ≢ []
  pub trimmed : IsTrimmed p

push_clause-IsClause :
    (p : Text) (ps : List Text) → IsTrimmed p → All IsClause ps → All IsClause (push_clause p ps)
push_clause-IsClause [] ps t h = h
push_clause-IsClause (c ∷ cs) ps t h = (record { full = λ e. cc; trimmed = t }, h)

trim_clauses-IsClause : (ps : List Text) → All IsClause (trim_clauses ps)
unfolding trim_clauses
trim_clauses-IsClause [] = tt
trim_clauses-IsClause (p ∷ ps) =
    push_clause-IsClause (trim_space p) _ (IsTrimmed-trim_space p) (trim_clauses-IsClause ps)

-- The clauses that splitClauses returns are not blank and trimmed, and together they hold the runes of
-- the text in their order, spaces aside.
pub split_clauses-IsClause :
    (s : Text)
    → (without_spaces (joined (split_clauses s)) ≡ without_spaces s)
      × All IsClause (split_clauses s)
unfolding split_clauses
split_clauses-IsClause s = (
  without_spaces-clauses (cut_clauses s) ∙ ap without_spaces (joined-cut_clauses s),
  trim_clauses-IsClause (cut_clauses s),
)
