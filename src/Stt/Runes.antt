-- ===== src/Stt/Runes.antt =====
-- internal/server/stt_refine.go on code points: the classes of runes and the comparison of slices.
-- A text of Go is taken to be valid UTF-8, so that []rune(s) and string(r) are inverse.
use opencode_backend.Base.{
  arith, refl, ◌≡◌, ◌≡◌, ℕ, Bool, true, false, List, [], ◌∷◌, leb, length, ◌==◌, ◌&&◌, ◌||◌, take,
  drop, ◌-◌,
}
use opencode_backend.Automation.Text.{Text, codes}

-- `strings.ContainsRune`
unfoldable pub has_rune : Text → ℕ → Bool
has_rune [] c = false
has_rune (d ∷ s) c = d == c || has_rune s c

abbrev pub marks : Text
marks = codes "，。！？、；："

unfoldable pub is_punct_rune : ℕ → Bool
unfolding has_rune
is_punct_rune c = has_rune marks c

unfoldable pub is_digit_rune : ℕ → Bool
is_digit_rune c = leb b'0' c && leb c b'9'

unfoldable pub equal_runes : Text → Text → Bool
equal_runes [] [] = true
equal_runes [] (d ∷ t) = false
equal_runes (c ∷ s) [] = false
equal_runes (c ∷ s) (d ∷ t) = c == d && equal_runes s t

-- `len(rest) >= len(w) && equalRunes(rest[:len(w)], w)`
unfoldable pub starts_with : Text → Text → Bool
unfolding equal_runes
starts_with w rest = leb (length w) (length rest) && equal_runes (take (length w) rest) w

-- `len(s) >= len(w) && equalRunes(s[len(s)-len(w):], w)`
unfoldable pub ends_with : Text → Text → Bool
unfolding equal_runes
ends_with w s = leb (length w) (length s) && equal_runes (drop (length s - length w) s) w

abbrev pub starts_with_any : List Text → Text → Bool
starts_with_any [] rest = false
starts_with_any (w ∷ ws) rest = starts_with w rest || starts_with_any ws rest

abbrev pub ends_with_any : List Text → Text → Bool
ends_with_any [] s = false
ends_with_any (w ∷ ws) s = ends_with w s || ends_with_any ws s

pub comma-mark : is_punct_rune 0xff0c ≡ true
unfolding is_punct_rune
comma-mark = refl

pub question-mark : is_punct_rune 0xff1f ≡ true
unfolding is_punct_rune
question-mark = refl

pub equal_runes-eq : (s t : Text) → equal_runes s t ≡ true → s ≡ t
unfolding equal_runes
equal_runes-eq [] [] h = refl
equal_runes-eq [] (d ∷ t) h = ground arith
equal_runes-eq (c ∷ s) [] h = ground arith
equal_runes-eq (c ∷ s) (d ∷ t) h =
    let first : c ≡ d = ground arith in let rest : s ≡ t = equal_runes-eq s t (ground arith) in cc

pub equal_runes_refl : (s : Text) → equal_runes s s ≡ true
unfolding equal_runes
equal_runes_refl [] = refl
equal_runes_refl (c ∷ s) = ground (arith, equal_runes_refl s)
