-- ===== src/Store/Rebind.antt =====
-- internal/store/rebind.go: the placeholders of a statement, on code points.
pub mod Numbers
use opencode_backend.Base.{
  ℕ, zero, suc, ◌+◌, ◌/◌, ◌%◌, Bool, true, false, String, Option, none, some, List, [], ◌∷◌, ◌++◌,
  if◌then◌else◌, not, str_eq, ◌==◌,
}
use opencode_backend.Automation.Text.{Text, codes}

-- The loop of itoa, with what `digits[i:]` holds: `room` is `i`, and an index below 0 panics.
unfoldable pub write_digits : ℕ → ℕ → Text → Option Text
write_digits zero zero out = some out
write_digits zero (suc n) out = none
write_digits (suc room) zero out = some out
write_digits (suc room) (suc n) out = write_digits room (suc n / 10) ((b'0' + suc n % 10) ∷ out)

unfoldable pub itoa : ℕ → Option Text
unfolding write_digits
itoa zero = some (b'0' ∷ [])
itoa (suc n) = write_digits 16 (suc n) []

abbrev pub joined_to : Text → Option Text → Option Text
joined_to front none = none
joined_to front (some rest) = some (front ++ rest)

abbrev pub both : Option Text → Option Text → Option Text
both none rest = none
both (some t) rest = joined_to t rest

-- The scan; `n` placeholders are behind.
unfoldable pub number_marks : ℕ → Text → Option Text
unfolding itoa
number_marks n [] = some []
number_marks n (c ∷ cs) = elim (c == b'?') [
  | true ↦ both (joined_to (b'$' ∷ []) (itoa (suc n))) (number_marks (suc n) cs)
  | false ↦ joined_to (c ∷ []) (number_marks n cs)
]

unfoldable pub rebind : String → Text → Option Text
unfolding number_marks
rebind driver query = if not (str_eq driver "pgx") then some query else number_marks 0 query
