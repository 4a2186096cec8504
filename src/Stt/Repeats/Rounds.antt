-- ===== src/Stt/Repeats/Rounds.antt =====
-- dedupAdjacentRepeat of internal/server/stt_refine.go: its rounds end, and no block is left beside
-- its copy.
use opencode_backend.Base.{
  ◌==◌, ℕ, zero, suc, ◌+◌, ◌-◌, ◌*◌, ◌/◌, true, false, [], ◌∷◌, ◌++◌, ◌≡◌, ◌≤◌, ◌<◌, refl, sym, ap,
  ◌∙◌, arith, Bool-cases, inl, inr, ◌&&◌, ltb, leb, length, length-append, length-take-le, take,
  drop, if◌then◌else◌,
}
use opencode_backend.Automation.Text.{Text}
use opencode_backend.Stt.Spaces.{length-trim_space-le}
use opencode_backend.Stt.Repeats.{
  Best, repeats_at, scan_starts, scan_lengths, find_repeat, remove_repeat, dedup_rounds,
  starts_with_space,
}

scan_starts_mono : (l i : ℕ) (best : Best) (w : Text) → best.len ≤ Best.len (scan_starts l i best w)
unfolding scan_starts
scan_starts_mono l i best [] = omega arith
scan_starts_mono l i best (c ∷ cs) = elim (Bool-cases (leb (2 * l) (length (c ∷ cs)))) [
  | inr e ↦ rw e (omega arith)
  | inl e ↦ elim (Bool-cases (repeats_at l (c ∷ cs) && ltb best.len l)) [
    | inl h ↦
        rw (e, h) (ground (arith, scan_starts_mono l (suc i) (record { len = l; start = i }) cs))
    | inr h ↦ rw (e, h) (scan_starts_mono l (suc i) best cs)
  ]
]

scan_lengths_mono :
    (count l : ℕ) (best : Best) (r : Text) → best.len ≤ Best.len (scan_lengths count l best r)
unfolding scan_lengths
scan_lengths_mono zero l best r = omega arith
scan_lengths_mono (suc count) l best r =
    omega (
      arith,
      scan_starts_mono l 0 best r,
      scan_lengths_mono count (suc l) (scan_starts l 0 best r) r,
    )

-- `bestL, bestI` after the test at one place.
abbrev seen : ℕ → ℕ → Best → Text → Best
seen l i best w = if repeats_at l w && ltb best.len l then record { len = l; start = i } else best

scan_starts-cons :
    (l i : ℕ) (best : Best) (c : ℕ) (cs : Text)
    → 2 * l ≤ length (c ∷ cs)
    → scan_starts l i best (c ∷ cs) ≡ scan_starts l (suc i) (seen l i best (c ∷ cs)) cs
unfolding scan_starts
scan_starts-cons l i best c cs h =
    let fits : leb (2 * l) (length (c ∷ cs)) ≡ true = ground arith in rw fits refl

seen-none :
    (l i : ℕ) (best : Best) (w : Text)
    → 0 < l
    → Best.len (seen l i best w) ≡ 0
    → repeats_at l w ≡ false
seen-none l i best w p e = elim (Bool-cases (repeats_at l w)) [
  | inr e' ↦ e'
  | inl e' ↦ ground (arith, e, e')
]

-- A scan that finds nothing has seen no repeat of `l` runes at any place.
scan_starts-none :
    (l i : ℕ) (best : Best) (a u : Text)
    → 0 < l
    → 2 * l ≤ length u
    → Best.len (scan_starts l i best (a ++ u)) ≡ 0
    → repeats_at l u ≡ false
scan_starts-none l i best [] [] p q e = ground arith
scan_starts-none l i best [] (c ∷ cs) p q e =
    let later : Best.len (scan_starts l (suc i) (seen l i best (c ∷ cs)) cs) ≡ 0 =
      ap Best.len (sym (scan_starts-cons l i best c cs q)) ∙ e in
    seen-none l i best (c ∷ cs) p
      (omega (arith, scan_starts_mono l (suc i) (seen l i best (c ∷ cs)) cs, later))
scan_starts-none l i best (d ∷ a) u p q e =
    let fits : 2 * l ≤ length (d ∷ (a ++ u)) = omega (arith, length-append a u) in
    scan_starts-none l (suc i) (seen l i best (d ∷ (a ++ u))) a u p q
      (ap Best.len (sym (scan_starts-cons l i best d (a ++ u) fits)) ∙ e)

scan_lengths-none :
    (count l m : ℕ) (best : Best) (a u : Text)
    → 0 < l
    → l ≤ m
    → m < l + count
    → 2 * m ≤ length u
    → Best.len (scan_lengths count l best (a ++ u)) ≡ 0
    → repeats_at m u ≡ false
unfolding scan_lengths
scan_lengths-none zero l m best a u p q h fits e = ground arith
scan_lengths-none (suc count) l m best a u p q h fits e = elim (Bool-cases (ltb l m)) [
  | inr e' ↦
      let same : l ≡ m = ground arith in
      let here : repeats_at l u ≡ false = scan_starts-none l 0 best a u p (omega arith) (
        omega
          (arith, scan_lengths_mono count (suc l) (scan_starts l 0 best (a ++ u)) (a ++ u), e)) in
      cc
  | inl e' ↦
      scan_lengths-none count (suc l) m (scan_starts l 0 best (a ++ u)) a u (omega arith)
        (ground arith) (omega arith) fits e
]

pub find_repeat-none :
    (m : ℕ) (a u : Text)
    → 2 ≤ m
    → 2 * m ≤ length u
    → Best.len (find_repeat (a ++ u)) ≡ 0
    → repeats_at m u ≡ false
unfolding find_repeat
find_repeat-none m a u h fits e =
    scan_lengths-none (length (a ++ u) / 2 - 1) 2 m _ a u (omega arith) h
      (omega (arith, length-append a u)) fits e

-- The block found and its copy lie in the text.
abbrev IsInside : Text → Best → Type 0
IsInside r best = best.start + 2 * best.len ≤ length r

length-drop : (n : ℕ) (xs : Text) → length (drop n xs) ≡ length xs - n
length-drop zero xs = omega arith
length-drop (suc n) [] = omega arith
length-drop (suc n) (x ∷ xs) = omega (arith, length-drop n xs)

seen-IsInside :
    (r : Text) (l i : ℕ) (best : Best) (w : Text)
    → i + 2 * l ≤ length r
    → IsInside r best
    → IsInside r (seen l i best w)
seen-IsInside r l i best w fits h = elim (Bool-cases (repeats_at l w && ltb best.len l)) [
  | inl e ↦ rw e fits
  | inr e ↦ rw e h
]

scan_starts-IsInside :
    (r : Text) (l i : ℕ) (best : Best) (w : Text)
    → i + length w ≤ length r
    → IsInside r best
    → IsInside r (scan_starts l i best w)
unfolding scan_starts
scan_starts-IsInside r l i best [] fits h = h
scan_starts-IsInside r l i best (c ∷ cs) fits h =
    elim (Bool-cases (leb (2 * l) (length (c ∷ cs)))) [
      | inr e ↦ rw e h
      | inl e ↦ rw e (
          scan_starts-IsInside r l (suc i) (seen l i best (c ∷ cs)) cs (omega arith)
            (seen-IsInside r l i best (c ∷ cs) (ground arith) h))
    ]

scan_lengths-IsInside :
    (count l : ℕ) (best : Best) (r : Text)
    → IsInside r best
    → IsInside r (scan_lengths count l best r)
unfolding scan_lengths
scan_lengths-IsInside zero l best r h = h
scan_lengths-IsInside (suc count) l best r h =
    scan_lengths-IsInside count (suc l) (scan_starts l 0 best r) r
      (scan_starts-IsInside r l 0 best r (omega arith) h)

find_repeat-empty : Best.len (find_repeat []) ≡ 0
unfolding find_repeat scan_lengths
find_repeat-empty = refl

find_repeat-IsInside : (r : Text) → IsInside r (find_repeat r)
unfolding find_repeat
find_repeat-IsInside r =
    scan_lengths-IsInside (length r / 2 - 1) 2 (record { len = 0; start = 0 }) r (omega arith)

length-cut :
    (r : Text) (start next : ℕ) → length (take start r ++ drop next r) ≤ start + (length r - next)
length-cut r start next =
    omega (
      arith,
      length-append (take start r) (drop next r),
      length-take-le start r,
      length-drop next r,
    )

length-remove-lt :
    (best : Best) (r : Text)
    → 0 < best.len
    → IsInside r best
    → length (remove_repeat best r) < length r
unfolding remove_repeat
length-remove-lt best r p h =
    let second = best.start + best.len in
    elim (Bool-cases (starts_with_space (drop second r))) [
      | inl e ↦ rw e (
          omega (
            arith,
            length-trim_space-le (take best.start r ++ drop (suc second) r),
            length-cut r best.start (suc second),
          ))
      | inr e ↦ rw e (
          omega (
            arith,
            length-trim_space-le (take best.start r ++ drop second r),
            length-cut r best.start second,
          ))
    ]

rounds-stop :
    (fuel : ℕ) (r : Text) → (Best.len (find_repeat r) == 0) ≡ true → dedup_rounds (suc fuel) r ≡ r
unfolding dedup_rounds
rounds-stop fuel r e = rw (e, dedup_rounds) refl

rounds-go :
    (fuel : ℕ) (r : Text)
    → (Best.len (find_repeat r) == 0) ≡ false
    → dedup_rounds (suc fuel) r ≡ dedup_rounds fuel (remove_repeat (find_repeat r) r)
unfolding dedup_rounds
rounds-go fuel r e = rw (e, dedup_rounds) refl

-- A further turn of fuel is never used, and the loop ends on a text without a repeat.
round-end :
    (fuel : ℕ) (r : Text) → length r ≤ fuel → Best.len (find_repeat (dedup_rounds fuel r)) ≡ 0
unfolding dedup_rounds
round-end zero [] h = find_repeat-empty
round-end zero (c ∷ r) h = ground arith
round-end (suc fuel) r h = elim (Bool-cases (Best.len (find_repeat r) == 0)) [
  | inl e ↦ rw (rounds-stop fuel r e) (ground arith)
  | inr e ↦ rw (rounds-go fuel r e) (
      round-end fuel (remove_repeat (find_repeat r) r)
        (omega (arith, length-remove-lt (find_repeat r) r (ground arith) (find_repeat-IsInside r))))
]

rounds-agree :
    (f g : ℕ) (r : Text) → length r ≤ f → length r ≤ g → dedup_rounds f r ≡ dedup_rounds g r
unfolding dedup_rounds find_repeat scan_lengths
rounds-agree zero zero r h k = refl
rounds-agree zero (suc g) [] h k = sym (rounds-stop g [] refl)
rounds-agree (suc f) zero [] h k = rounds-stop f [] refl
rounds-agree zero (suc g) (c ∷ r) h k = ground arith
rounds-agree (suc f) zero (c ∷ r) h k = ground arith
rounds-agree (suc f) (suc g) r h k = elim (Bool-cases (Best.len (find_repeat r) == 0)) [
  | inl e ↦ rounds-stop f r e ∙ sym (rounds-stop g r e)
  | inr e ↦
      let shorter : length (remove_repeat (find_repeat r) r) < length r =
        length-remove-lt (find_repeat r) r (ground arith) (find_repeat-IsInside r) in
      rounds-go f r e
      ∙ rounds-agree f g (remove_repeat (find_repeat r) r) (omega arith) (omega arith)
      ∙ sym (rounds-go g r e)
]

-- The loop of dedupAdjacentRepeat ends: with a turn of fuel for each rune of the text it stops at a
-- text where the scan finds nothing, and more fuel changes nothing.
pub dedup_rounds-end :
    (r : Text) (fuel : ℕ)
    → length r ≤ fuel
    → (Best.len (find_repeat (dedup_rounds fuel r)) ≡ 0)
      × (dedup_rounds fuel r ≡ dedup_rounds (length r) r)
dedup_rounds-end r fuel h = (round-end fuel r h, rounds-agree fuel (length r) r h (omega arith))

pub length-dedup_rounds-le : (fuel : ℕ) (r : Text) → length (dedup_rounds fuel r) ≤ length r
unfolding dedup_rounds
length-dedup_rounds-le zero r = omega arith
length-dedup_rounds-le (suc fuel) r = elim (Bool-cases (Best.len (find_repeat r) == 0)) [
  | inl e ↦ rw (rounds-stop fuel r e) (omega arith)
  | inr e ↦
      let shorter : length (remove_repeat (find_repeat r) r) < length r =
        length-remove-lt (find_repeat r) r (ground arith) (find_repeat-IsInside r) in
      rw (rounds-go fuel r e)
        (omega (arith, length-dedup_rounds-le fuel (remove_repeat (find_repeat r) r)))
]
