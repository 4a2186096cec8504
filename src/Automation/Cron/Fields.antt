-- ===== src/Automation/Cron/Fields.antt =====
-- `parseField`: which values a field allows.
use mathlib.Core.Path.{subst}
use native.Mathlib.Nat.{mod-eq_of_lt, add-mod_right}
use opencode_backend.Base.{
  ◌^◌, ◌⊎◌, ℕ, zero, suc, ◌+◌, ◌-◌, ◌%◌, ◌≤◌, ◌<◌, Bool, true, false, Option, none, some, List, [],
  ◌∷◌, ◌++◌, ◌≡◌, refl, sym, ap, ltb, leb, leb→le, ◌==◌, ◌∙◌, arith, Bool-cases, inl, inr, ◌&&◌,
  ◌||◌, All, All-append, Option-cases,
}
use opencode_backend.Base.Int.{ℤ, pos, negsuc}
use opencode_backend.Automation.Text.{atoi-lt, Text, atoi, trim_space, split_at}
use opencode_backend.Automation.Cron.{
  int_le, contains, add_value, add_range, add_step, add_exact, add_part, add_parts, parse_field,
  after_slash, is_star, non_empty_field, int_le,
}

abbrev pub AreDistinct : List ℕ → Type 0
AreDistinct [] = Unit
AreDistinct (x ∷ xs) = (contains xs x ≡ false) × AreDistinct xs

-- A value in the range of the field; or the 64 bits of a negative number, in a field from 1.
abbrev pub IsValue : ℕ → ℕ → ℕ → Type 0
IsValue lo hi v = ((lo ≤ v) × (v ≤ hi)) ⊎ ((lo ≡ 1) × (2 ^ 63 ≤ v))

-- The least and the greatest value of a field of the calendar.
abbrev pub AreBounds : ℕ → ℕ → Type 0
AreBounds lo hi = (lo ≤ 1) × (hi < 2 ^ 62)

-- Values of the field, none of them twice.
pub record IsField (lo hi : ℕ) (vs : List ℕ) : Type 0 where
  pub in_range : All (IsValue lo hi) vs
  pub distinct : AreDistinct vs

contains-append :
    (xs ys : List ℕ) (v : ℕ) → contains (xs ++ ys) v ≡ (contains xs v || contains ys v)
unfolding contains
contains-append [] ys v = refl
contains-append (x ∷ xs) ys v = ground (arith, contains-append xs ys v)

AreDistinct-append :
    (xs : List ℕ) (v : ℕ) → AreDistinct xs → contains xs v ≡ false → AreDistinct (xs ++ v ∷ [])
unfolding contains
AreDistinct-append [] v h e = (refl, tt)
AreDistinct-append (x ∷ xs) v (fresh, h) e =
    (rw (contains-append xs (v ∷ []) x) (ground arith), AreDistinct-append xs v h (ground arith))

add_value-IsField :
    (lo hi v : ℕ) (out : List ℕ)
    → IsValue lo hi v
    → IsField lo hi out
    → IsField lo hi (add_value out v)
unfolding add_value
add_value-IsField lo hi v out p h = elim (Bool-cases (contains out v)) [
  | inl seen ↦ rw seen h
  | inr new ↦ rw new (record {
    in_range = All-append _ out (v ∷ []) h.in_range (p, tt);
    distinct = AreDistinct-append out v h.distinct new;
  })
]

-- What the loop's variable can be: at least `lo`, and past the end, at the start or with a step that
-- does not wrap around; or one of the two negative numbers that a step of 2^63 - 1 from 1 meets.
data IsMet (lo hi step : ℕ) (v : ℕ) : Type 0 where
  met : lo ≤ v → v < 2 ^ 63 → (hi < v) ⊎ ((v ≡ lo) ⊎ (hi + step < 2 ^ 63)) → IsMet lo hi step v
  wrapped : lo ≡ 1 → step ≡ 2 ^ 63 - 1 → (v ≡ 2 ^ 63) ⊎ (v ≡ 2 ^ 64 - 1) → IsMet lo hi step v

IsMet-IsValue : (lo hi step v : ℕ) → IsMet lo hi step v → int_le v hi ≡ true → IsValue lo hi v
IsMet-IsValue lo hi step v (met low small how) le = inl (low, ground arith)
IsMet-IsValue lo hi step v (wrapped one far (inl e)) le = inr (one, omega arith)
IsMet-IsValue lo hi step v (wrapped one far (inr e)) le = inr (one, omega arith)

big_or_small :
    (lo hi step : ℕ)
    → lo ≤ 1
    → hi < 2 ^ 62
    → (hi < lo + step) ⊎ ((lo + step ≡ lo) ⊎ (hi + step < 2 ^ 63))
big_or_small lo hi step one top = elim (Bool-cases (ltb hi (lo + step))) [
  | inl past ↦ inl (ground arith)
  | inr near ↦ inr (inr (ground arith))
]

IsMet-start :
    (lo hi step : ℕ) → AreBounds lo hi → step < 2 ^ 63 → IsMet lo hi step ((lo + step) % 2 ^ 64)
IsMet-start lo hi step (one, top) short = elim (Bool-cases (ltb (lo + step) (2 ^ 63))) [
  | inl plain ↦
      rw (mod-eq_of_lt {n = lo + step} {m = 2 ^ 64} (ground arith))
        (met (omega arith) (ground arith) (big_or_small lo hi step one top))
  | inr round ↦
      rw (mod-eq_of_lt {n = lo + step} {m = 2 ^ 64} (ground arith))
        (wrapped (ground arith) (ground arith) (inl (ground arith)))
]

IsMet-next :
    (lo hi step v : ℕ)
    → AreBounds lo hi
    → step < 2 ^ 63
    → IsMet lo hi step v
    → int_le v hi ≡ true
    → IsMet lo hi step ((v + step) % 2 ^ 64)
IsMet-next lo hi step v (one, top) short (met low small (inl past)) le = absurd (ground arith)
IsMet-next lo hi step v bounds short (met low small (inr (inl start))) le =
    rw start (IsMet-start lo hi step bounds short)
IsMet-next lo hi step v bounds short (met low small (inr (inr plain))) le =
    rw (mod-eq_of_lt {n = v + step} {m = 2 ^ 64} (ground arith))
      (met (omega arith) (ground arith) (inr (inr plain)))
IsMet-next lo hi step v bounds short (wrapped one far (inl e)) le =
    rw (e, far) (wrapped one refl (inr refl))
IsMet-next lo hi step v (_, top) short (wrapped one far (inr e)) le =
    rw (e, far) (met (omega arith) (omega arith) (inl (omega arith)))

add_range-IsField :
    (lo hi step fuel v : ℕ) (out : List ℕ)
    → AreBounds lo hi
    → step < 2 ^ 63
    → IsMet lo hi step v
    → IsField lo hi out
    → IsField lo hi (add_range fuel v hi step out)
unfolding add_range
add_range-IsField lo hi step zero v out bounds short p h = h
add_range-IsField lo hi step (suc fuel) v out bounds short p h = elim (Bool-cases (int_le v hi)) [
  | inl le ↦ rw le (
      add_range-IsField lo hi step fuel ((v + step) % 2 ^ 64) (add_value out v) bounds short
        (IsMet-next lo hi step v bounds short p le)
        (add_value-IsField lo hi v out (IsMet-IsValue lo hi step v p le) h))
  | inr gt' ↦ rw gt' h
]

start-IsMet : (lo hi step : ℕ) → AreBounds lo hi → IsMet lo hi step lo
start-IsMet lo hi step (one, top) = met (omega arith) (omega arith) (inr (inl refl))

add_step-IsField :
    (s : Option ℤ) (lo hi : ℕ) (out vs : List ℕ)
    → AreBounds lo hi
    → ((n : ℕ) → s ≡ some (pos n) → n < 2 ^ 63)
    → IsField lo hi out
    → add_step s lo hi out ≡ some vs
    → IsField lo hi vs
unfolding add_step
add_step-IsField (some (pos (suc n))) lo hi out vs bounds short h e =
    let same : add_range (3 + hi) lo hi (suc n) out ≡ vs = cc in
    subst (IsField lo hi) same (
      add_range-IsField lo hi (suc n) (3 + hi) lo out bounds (short (suc n) refl)
        (start-IsMet lo hi (suc n) bounds) h)
add_step-IsField none lo hi out vs bounds short h e = cc
add_step-IsField (some (pos zero)) lo hi out vs bounds short h e = cc
add_step-IsField (some (negsuc n)) lo hi out vs bounds short h e = cc

add_exact-IsField :
    (s : Option ℤ) (lo hi : ℕ) (out vs : List ℕ)
    → IsField lo hi out
    → add_exact s lo hi out ≡ some vs
    → IsField lo hi vs
unfolding add_exact
add_exact-IsField (some (pos n)) lo hi out vs h e = elim (Bool-cases (ltb n lo || ltb hi n)) [
  | inl bad ↦ cc (rw bad at e)
  | inr good ↦
      let same : add_value out n ≡ vs = cc (rw good at e) in
      subst (IsField lo hi) same
        (add_value-IsField lo hi n out (inl (ground arith, ground arith)) h)
]
add_exact-IsField none lo hi out vs h e = cc
add_exact-IsField (some (negsuc n)) lo hi out vs h e = cc

add_part-IsField :
    (part : Text) (lo hi : ℕ) (out vs : List ℕ)
    → AreBounds lo hi
    → IsField lo hi out
    → add_part part lo hi out ≡ some vs
    → IsField lo hi vs
unfolding add_part
add_part-IsField part lo hi out vs bounds h e = elim (Bool-cases (is_star part)) [
  | inl star ↦
      let same : add_range (3 + hi) lo hi 1 out ≡ vs = cc (rw star at e) in
      subst (IsField lo hi) same (
        add_range-IsField lo hi 1 (3 + hi) lo out bounds (omega arith) (start-IsMet lo hi 1 bounds)
          h)
  | inr other ↦ elim (Option-cases (after_slash part)) [
    | inl no_slash ↦ add_exact-IsField (atoi part) lo hi out vs h (ground arith)
    | inr (rest, slash) ↦
        add_step-IsField (atoi rest) lo hi out vs bounds (atoi-lt rest) h (ground arith)
  ]
]

add_parts-IsField :
    (ps : List Text) (lo hi : ℕ) (out vs : List ℕ)
    → AreBounds lo hi
    → IsField lo hi out
    → add_parts ps lo hi out ≡ some vs
    → IsField lo hi vs
unfolding add_parts
add_parts-IsField [] lo hi out vs bounds h e =
    let same : out ≡ vs = cc in subst (IsField lo hi) same h
add_parts-IsField (p ∷ ps) lo hi out vs bounds h e =
    elim (Option-cases (add_part (trim_space p) lo hi out)) [
      | inl bad ↦ ground arith
      | inr (out', good) ↦
          add_parts-IsField ps lo hi out' vs bounds
            (add_part-IsField (trim_space p) lo hi out out' bounds h good) (ground arith)
    ]

non_empty-IsField :
    (f : Text) (lo hi : ℕ) (vs : List ℕ)
    → AreBounds lo hi
    → non_empty_field f lo hi ≡ some vs
    → IsField lo hi vs
non_empty-IsField [] lo hi vs bounds e = cc
non_empty-IsField (c ∷ cs) lo hi vs bounds e =
    add_parts-IsField (split_at b',' (c ∷ cs)) lo hi [] vs bounds
      (record { in_range = tt; distinct = tt }) e

-- Whatever its text, a field from 0 or 1 that is accepted allows only values of its range, each
-- listed once, but for negative numbers that a field from 1 may list too, where Go's int wraps
-- around; no field of a date is negative.
pub parse_field-IsField :
    (f : Text) (lo hi : ℕ) (vs : List ℕ)
    → AreBounds lo hi
    → parse_field f lo hi ≡ some vs
    → IsField lo hi vs
unfolding parse_field
parse_field-IsField f lo hi vs bounds e = non_empty-IsField (trim_space f) lo hi vs bounds e

contains-add_value :
    (out : List ℕ) (v x : ℕ) → contains (add_value out v) x ≡ (contains out x || v == x)
unfolding add_value contains
contains-add_value out v x = elim (Bool-cases (contains out v)) [
  | inl seen ↦ rw seen (seen_again out seen)
  | inr new ↦ rw new (rw (contains-append out (v ∷ []) x) (ground arith))
]
  where
    seen_again : (xs : List ℕ) → contains xs v ≡ true → contains xs x ≡ (contains xs x || v == x)
    seen_again [] h = cc
    seen_again (y ∷ ys) h = ground (arith, seen_again ys)

-- `x` is `v`, or a later value of the progression.
reached : ℕ → ℕ → ℕ → ℕ → Bool
reached v hi n x = leb v x && (leb x hi && (x - v) % suc n == 0)

step_back : (v x n : ℕ) → v + suc n ≤ x → (x - v) % suc n ≡ (x - (v + suc n)) % suc n
step_back v x n h =
    let e : x - v ≡ (x - (v + suc n)) + suc n = omega arith in
    ap (λ y. y % suc n) e ∙ add-mod_right (x - (v + suc n)) (suc n)

short_of : (v x n : ℕ) → v ≤ x → x < v + suc n → (x - v) % suc n ≡ x - v
short_of v x n p q = mod-eq_of_lt (omega arith)

reached-step : (v hi n x : ℕ) → v ≤ hi → (v == x || reached (v + suc n) hi n x) ≡ reached v hi n x
unfolding reached
reached-step v hi n x h = elim (Bool-cases (leb (v + suc n) x)) [
  | inl far ↦ ground (arith, step_back v x n (leb→le _ _ far))
  | inr near ↦ ground (arith, short_of v x n)
]

reached_past : (v hi n x : ℕ) → hi < v → reached v hi n x ≡ false
unfolding reached
reached_past v hi n x h = ground arith

add_range-contains :
    (hi n x fuel v : ℕ) (out : List ℕ)
    → hi + suc n < 2 ^ 63
    → v < 2 ^ 63
    → hi < v + fuel
    → contains (add_range fuel v hi (suc n) out) x ≡ (contains out x || reached v hi n x)
unfolding add_range
add_range-contains hi n x zero v out plain small h =
    rw (reached_past v hi n x (omega arith)) (ground arith)
add_range-contains hi n x (suc fuel) v out plain small h = elim (Bool-cases (int_le v hi)) [
  | inl le ↦
      let within : v ≤ hi = ground arith in
      rw (le, mod-eq_of_lt {n = v + suc n} {m = 2 ^ 64} (omega arith))
        (add_range-contains hi n x fuel (v + suc n) (add_value out v) plain (omega arith)
            (omega arith)
          ∙ ground (arith, contains-add_value out v x, reached-step v hi n x within))
  | inr gt' ↦ rw gt' (rw (reached_past v hi n x (ground arith)) (ground arith))
]

-- The part "*/s", for a step s of at least 1 that does not wrap around, adds to the field exactly the
-- values of its range whose distance from the least one is a multiple of s: the loop meets all of
-- them.
pub add_step-contains :
    (lo hi n x : ℕ) (out vs : List ℕ)
    → hi + suc n < 2 ^ 63
    → lo < 2 ^ 63
    → add_step (some (pos (suc n))) lo hi out ≡ some vs
    → contains vs x ≡ (contains out x || (leb lo x && (leb x hi && (x - lo) % suc n == 0)))
unfolding add_step reached
add_step-contains lo hi n x out vs plain small e =
    let same : add_range (3 + hi) lo hi (suc n) out ≡ vs = cc in
    ap (λ l. contains l x) (sym same)
    ∙ add_range-contains hi n x (3 + hi) lo out plain small (omega arith)
