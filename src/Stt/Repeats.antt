-- ===== src/Stt/Repeats.antt =====
-- internal/server/stt_refine.go: dedupAdjacentRepeat and trimTailRepeat.
pub mod Rounds
pub mod NoRepeat
use opencode_backend.Base.{
  ℕ, zero, suc, ◌+◌, ◌-◌, ◌*◌, ◌/◌, Bool, true, false, List, [], ◌∷◌, ◌++◌, ltb, leb, length, ◌==◌,
  ◌&&◌, ◌||◌, not, if◌then◌else◌, take, drop,
}
use opencode_backend.Automation.Text.{Text, trim_space, fields}
use opencode_backend.Stt.Runes.{equal_runes}

abbrev pub starts_with_space : Text → Bool
starts_with_space [] = false
starts_with_space (c ∷ cs) = c == 32

-- At the start of `w`, a block of `l` runes and its copy, a space between them at most: the test of
-- the inner loop, under `i+2*l <= n`.
unfoldable pub repeats_at : ℕ → Text → Bool
unfolding equal_runes
repeats_at l w =
    equal_runes (take l w) (take l (drop l w))
    || starts_with_space (drop l w)
      && (leb (2 * l + 1) (length w) && equal_runes (take l w) (take l (drop (suc l) w)))

-- `bestL`, `bestI`
pub record Best : Type 0 where
  pub len : ℕ
  pub start : ℕ

-- The inner loop, over what is left of the text at `i`.
unfoldable pub scan_starts : ℕ → ℕ → Best → Text → Best
unfolding repeats_at
scan_starts l i best [] = best
scan_starts l i best (c ∷ cs) =
    let here =
      if repeats_at l (c ∷ cs) && ltb best.len l then record { len = l; start = i } else best in
    let rest = scan_starts l (suc i) here cs in if leb (2 * l) (length (c ∷ cs)) then rest else best

-- The outer loop: `count` more lengths from `l`.
unfoldable pub scan_lengths : ℕ → ℕ → Best → Text → Best
unfolding scan_starts
scan_lengths zero l best r = best
scan_lengths (suc count) l best r = scan_lengths count (suc l) (scan_starts l 0 best r) r

unfoldable pub find_repeat : Text → Best
unfolding scan_lengths
find_repeat r = scan_lengths (length r / 2 - 1) 2 (record { len = 0; start = 0 }) r

-- The text without the second copy of the block.
unfoldable pub remove_repeat : Best → Text → Text
unfolding trim_space
remove_repeat best r =
    let second = best.start + best.len in
    let second_start = if starts_with_space (drop second r) then suc second else second in
    trim_space (take best.start r ++ drop second_start r)

-- The `for` loop, with a turn of fuel for each round.
unfoldable pub dedup_rounds : ℕ → Text → Text
unfolding find_repeat remove_repeat
dedup_rounds zero r = r
dedup_rounds (suc fuel) r = elim (Best.len (find_repeat r) == 0) [
  | true ↦ r
  | false ↦ dedup_rounds fuel (remove_repeat (find_repeat r) r)
]

abbrev pub dedup_scan_runes : ℕ
dedup_scan_runes = 2000

unfoldable pub dedup_adjacent_repeat : Text → Text
unfolding trim_space dedup_rounds
dedup_adjacent_repeat s =
    let trimmed = trim_space s in
    if ltb (length trimmed) (2 * 2)
    then trimmed
    else let r =
        if ltb dedup_scan_runes (length trimmed) then take dedup_scan_runes trimmed else trimmed in
      dedup_rounds (length r) r

-- The two last elements, the very last one first.
last_two : List Text → List Text
last_two [] = []
last_two (w ∷ []) = w ∷ []
last_two (v ∷ w ∷ []) = w ∷ v ∷ []
last_two (u ∷ v ∷ w ∷ ws) = last_two (v ∷ w ∷ ws)

-- The loop over `k`: `count` more lengths from `k`.
unfoldable pub trim_copies : ℕ → ℕ → Text → Text
unfolding equal_runes trim_space
trim_copies zero k r = r
trim_copies (suc count) k r =
    let rest = trim_copies count (suc k) r in
    let n = length r in
    if equal_runes (drop (n - k) r) (take k (drop (n - 2 * k) r))
    then trim_space (take (n - k) r)
    else rest

-- `words[len(words)-1] == words[len(words)-2]`, the last word cut off: it ends the text, which has
-- no space at its end.
unfoldable pub trim_tail_repeat : Text → Text
unfolding trim_space fields last_two trim_copies equal_runes
trim_tail_repeat s =
    let trimmed = trim_space s in
    let n = length trimmed in
    if ltb n 2 then trimmed else elim (last_two (fields trimmed)) [
      | w ∷ v ∷ _ ↦
          if equal_runes w v
          then trim_space (take (n - length w) trimmed)
          else trim_copies (n / 2 - 1) 2 trimmed
      | _ ↦ trim_copies (n / 2 - 1) 2 trimmed
    ]
