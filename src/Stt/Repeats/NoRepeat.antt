-- ===== src/Stt/Repeats/NoRepeat.antt =====
-- dedupAdjacentRepeat of internal/server/stt_refine.go: no block is left beside its copy, and the
-- length of its result.
use opencode_backend.Base.{
  ℕ, suc, true, false, [], ◌∷◌, ◌++◌, ◌≡◌, ◌≢◌, ◌≤◌, ◌<◌, ltb→lt, refl, sym, ap, ◌∙◌, arith,
  Bool-cases, inl, inr, ltb, length, length-append, length-take-le, take, drop, if◌then◌else◌,
}
use opencode_backend.Automation.Text.{Text, trim_space}
use opencode_backend.Stt.Runes.{equal_runes_refl}
use opencode_backend.Stt.Spaces.{length-trim_space-le}
use opencode_backend.Stt.Repeats.{
  Best, repeats_at, find_repeat, dedup_rounds, dedup_adjacent_repeat, dedup_scan_runes,
}
use opencode_backend.Stt.Repeats.Rounds.{find_repeat-none, dedup_rounds-end, length-dedup_rounds-le}

take-front : (b c : Text) → take (length b) (b ++ c) ≡ b
take-front [] c = refl
take-front (x ∷ b) c = ap (λ u. x ∷ u) (take-front b c)

drop-front : (b c : Text) → drop (length b) (b ++ c) ≡ c
drop-front [] c = refl
drop-front (x ∷ b) c = drop-front b c

drop-front_suc : (b : Text) (x : ℕ) (c : Text) → drop (suc (length b)) (b ++ x ∷ c) ≡ c
drop-front_suc [] x c = refl
drop-front_suc (y ∷ b) x c = drop-front_suc b x c

repeats-beside : (b c : Text) → repeats_at (length b) (b ++ (b ++ c)) ≡ true
unfolding repeats_at
repeats-beside b c =
    rw (drop-front b (b ++ c), take-front b (b ++ c), take-front b c, equal_runes_refl b) refl

repeats-spaced : (b c : Text) → repeats_at (length b) (b ++ 32 ∷ (b ++ c)) ≡ true
unfolding repeats_at
repeats-spaced b c =
    rw
      (
        drop-front b (32 ∷ (b ++ c)),
        drop-front_suc b 32 (b ++ c),
        take-front b (32 ∷ (b ++ c)),
        take-front b c,
        equal_runes_refl b,
      )
      (ground (arith, length-append b (32 ∷ (b ++ c)), length-append b c))

-- The text that the loop starts from.
abbrev capped : Text → Text
capped t = if ltb dedup_scan_runes (length t) then take dedup_scan_runes t else t

length-capped-le :
    (t : Text) → (length (capped t) ≤ length t) × (length (capped t) ≤ dedup_scan_runes)
length-capped-le t = elim (Bool-cases (ltb dedup_scan_runes (length t))) [
  | inl e ↦
      let longer : dedup_scan_runes < length t = ltb→lt _ _ e in
      let short : length (take dedup_scan_runes t) ≤ dedup_scan_runes =
        length-take-le dedup_scan_runes t in
      rw e (omega (arith, short, longer), short)
  | inr e ↦ rw e (omega arith, ground arith)
]

-- The text has no block of two runes or more that stands next to its copy, a space between them at
-- most.
abbrev pub NoRepeat : Text → Type 0
NoRepeat r =
    (a b c : Text) → 2 ≤ length b → (r ≢ a ++ (b ++ (b ++ c))) × (r ≢ a ++ (b ++ 32 ∷ (b ++ c)))

true-false : true ≡ false → ⊥
true-false e = cc

find_repeat-NoRepeat : (r : Text) → Best.len (find_repeat r) ≡ 0 → NoRepeat r
find_repeat-NoRepeat r e a b c h = (
  λ same. true-false (
      sym (repeats-beside b c)
      ∙ find_repeat-none (length b) a (b ++ (b ++ c)) h
          (omega (arith, length-append b (b ++ c), length-append b c))
          (ap (λ t. Best.len (find_repeat t)) (sym same) ∙ e)),
  λ same. true-false (
      sym (repeats-spaced b c)
      ∙ find_repeat-none (length b) a (b ++ 32 ∷ (b ++ c)) h
          (omega (arith, length-append b (32 ∷ (b ++ c)), length-append b c))
          (ap (λ t. Best.len (find_repeat t)) (sym same) ∙ e)),
)

short-NoRepeat : (r : Text) → length r < 4 → NoRepeat r
short-NoRepeat r short a b c h = (
  λ same. omega (
    arith,
    ap length same,
    length-append a (b ++ (b ++ c)),
    length-append b (b ++ c),
    length-append b c,
  ),
  λ same. omega (
    arith,
    ap length same,
    length-append a (b ++ 32 ∷ (b ++ c)),
    length-append b (32 ∷ (b ++ c)),
    length-append b c,
  ),
)

repeat-gone : (s : Text) → NoRepeat (dedup_adjacent_repeat s)
unfolding dedup_adjacent_repeat
repeat-gone s = elim (Bool-cases (ltb (length (trim_space s)) 4)) [
  | inl e ↦ rw e (short-NoRepeat (trim_space s) (ltb→lt _ _ e))
  | inr e ↦ rw e (
      find_repeat-NoRepeat (dedup_rounds (length (capped (trim_space s))) (capped (trim_space s))) (
        (dedup_rounds-end (capped (trim_space s)) (length (capped (trim_space s)))
          (omega arith)).0))
]

length-dedup_adjacent_repeat-le :
    (s : Text)
    → (length (dedup_adjacent_repeat s) ≤ length s)
      × (length (dedup_adjacent_repeat s) ≤ dedup_scan_runes)
unfolding dedup_adjacent_repeat
length-dedup_adjacent_repeat-le s = elim (Bool-cases (ltb (length (trim_space s)) 4)) [
  | inl e ↦ rw e (omega (arith, length-trim_space-le s), ground arith)
  | inr e ↦ rw e (
    omega (
      arith,
      length-dedup_rounds-le (length (capped (trim_space s))) (capped (trim_space s)),
      length-trim_space-le s,
      (length-capped-le (trim_space s)).0,
    ),
    omega (
      arith,
      length-dedup_rounds-le (length (capped (trim_space s))) (capped (trim_space s)),
      (length-capped-le (trim_space s)).1,
    ),
  )
]

-- dedupAdjacentRepeat leaves no block of two runes or more next to its copy, be it right behind it
-- or after one space; its result is no longer than its input and has 2000 runes at most, the rest of
-- a longer text being gone.
pub dedup_adjacent_repeat-NoRepeat :
    (s : Text)
    → NoRepeat (dedup_adjacent_repeat s)
      × (length (dedup_adjacent_repeat s) ≤ length s)
      × (length (dedup_adjacent_repeat s) ≤ dedup_scan_runes)
dedup_adjacent_repeat-NoRepeat s =
    let bounds = length-dedup_adjacent_repeat-le s in (repeat-gone s, bounds.0, bounds.1)
