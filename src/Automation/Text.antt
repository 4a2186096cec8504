-- ===== src/Automation/Text.antt =====
-- What internal/automation/cron.go uses of Go's `strings` and `strconv`, on the code points of a
-- text.
use Prim.Native.Char.{code}
use opencode_backend.Base.{
  refl, inr, inl, Bool-cases, arith, Option-cases, ◌<◌, ◌≤◌, ◌≡◌, ℕ, zero, suc, ◌+◌, ◌-◌, ◌*◌, ◌^◌,
  Bool, String, Option, none, some, List, [], ◌∷◌, leb, ◌==◌, ◌&&◌, ◌||◌, if◌then◌else◌,
}
use opencode_backend.Base.Int.{ℤ, pos, negsuc}

abbrev pub Text : Type 0
Text = List ℕ

abbrev pub codes : String → Text
codes String.[] = []
codes (String.◌∷◌ c s) = code c ∷ codes s

-- `unicode.IsSpace`
unfoldable pub is_space : ℕ → Bool
is_space c =
    (leb 9 c && leb c 13)
    || (c == 32 || c == 0x85 || c == 0xa0 || c == 0x1680)
    || (leb 0x2000 c && leb c 0x200a)
    || (c == 0x2028 || c == 0x2029 || c == 0x202f || c == 0x205f || c == 0x3000)

unfoldable pub trim_left : Text → Text
trim_left [] = []
trim_left (c ∷ cs) = let rest = trim_left cs in if is_space c then rest else c ∷ cs

unfoldable pub trim_right : Text → Text
trim_right [] = []
trim_right (c ∷ cs) = elim (trim_right cs) [
  | [] ↦ if is_space c then [] else c ∷ []
  | d ∷ ds ↦ c ∷ d ∷ ds
]

-- `strings.TrimSpace`
unfoldable pub trim_space : Text → Text
unfolding is_space trim_left trim_right
trim_space s = trim_right (trim_left s)

abbrev pub push_front : ℕ → List Text → List Text
push_front c [] = (c ∷ []) ∷ []
push_front c (w ∷ ws) = (c ∷ w) ∷ ws

-- `strings.Split` at one separator: always at least one part.
unfoldable pub split_at : ℕ → Text → List Text
split_at sep [] = [] ∷ []
split_at sep (c ∷ cs) =
    let parts = split_at sep cs in if c == sep then [] ∷ parts else push_front c parts

abbrev pub not_empty : List Text → List Text
not_empty [] = []
not_empty ([] ∷ ws) = not_empty ws
not_empty ((c ∷ cs) ∷ ws) = (c ∷ cs) ∷ not_empty ws

split_spaces : Text → List Text
split_spaces [] = [] ∷ []
split_spaces (c ∷ cs) =
    let parts = split_spaces cs in if is_space c then [] ∷ parts else push_front c parts

-- `strings.Fields`
unfoldable pub fields : Text → List Text
unfolding is_space split_spaces
fields s = not_empty (split_spaces s)

digits_from : ℕ → Text → Option ℕ
digits_from n [] = some n
digits_from n (c ∷ cs) =
    let rest = digits_from (n * 10 + (c - b'0')) cs in
    if leb b'0' c && leb c b'9' then rest else none

-- One digit at least, and a value of at most `limit`.
digits : ℕ → Text → Option ℕ
unfolding digits_from
digits limit [] = none
digits limit (c ∷ cs) = elim (digits_from 0 (c ∷ cs)) [
  | none ↦ none
  | some n ↦ if leb n limit then some n else none
]

abbrev negated : ℕ → ℤ
negated zero = pos 0
negated (suc n) = negsuc n

-- `strconv.Atoi` on a 64-bit `int`: an optional sign, then digits, in range.
unfoldable pub atoi : Text → Option ℤ
unfolding digits
atoi [] = none
atoi (c ∷ cs) =
    if c == b'-'
    then elim (digits (2 ^ 63) cs) [ none ↦ none | some n ↦ some (negated n) ]
    else if c == b'+'
    then elim (digits (2 ^ 63 - 1) cs) [ none ↦ none | some n ↦ some (pos n) ]
    else elim (digits (2 ^ 63 - 1) (c ∷ cs)) [ none ↦ none | some n ↦ some (pos n) ]

digits-le : (limit : ℕ) (s : Text) (n : ℕ) → digits limit s ≡ some n → n ≤ limit
unfolding digits
digits-le limit [] n e = cc
digits-le limit (c ∷ cs) n e = elim (Option-cases (digits_from 0 (c ∷ cs))) [
  | inl bad ↦ cc (rw (bad, digits) at e)
  | inr (m, good) ↦ elim (Bool-cases (leb m limit)) [
    | inl within ↦
        let same : m ≡ n = cc (rw (good, within, digits) at e) in ground (arith, same, within)
    | inr beyond ↦ cc (rw (good, beyond, digits) at e)
  ]
]

negated-le : (m n : ℕ) → some (negated m) ≡ some (pos n) → n ≡ 0
negated-le zero n e = cc
negated-le (suc m) n e = cc

positive-lt :
    (d : Option ℕ) (n : ℕ)
    → ((m : ℕ) → d ≡ some m → m ≤ 2 ^ 63 - 1)
    → (elim d [ none ↦ none | some m ↦ some (pos m) ]) ≡ some (pos n)
    → n < 2 ^ 63
positive-lt none n h e = cc
positive-lt (some m) n h e = let same : m ≡ n = cc in omega (arith, same, h m refl)

negative-lt :
    (d : Option ℕ) (n : ℕ)
    → (elim d [ none ↦ none | some m ↦ some (negated m) ]) ≡ some (pos n)
    → n < 2 ^ 63
negative-lt none n e = cc
negative-lt (some m) n e = omega (arith, negated-le m n e)

-- `strconv.Atoi` gives an `int`.
pub atoi-lt : (s : Text) (n : ℕ) → atoi s ≡ some (pos n) → n < 2 ^ 63
unfolding atoi
atoi-lt [] n e = cc
atoi-lt (c ∷ cs) n e = elim (Bool-cases (c == b'-')) [
  | inl minus ↦ negative-lt (digits (2 ^ 63) cs) n (rw minus at e)
  | inr other ↦ elim (Bool-cases (c == b'+')) [
    | inl plus ↦
        positive-lt (digits (2 ^ 63 - 1) cs) n (digits-le (2 ^ 63 - 1) cs) (rw (other, plus) at e)
    | inr digit ↦
        positive-lt (digits (2 ^ 63 - 1) (c ∷ cs)) n (digits-le (2 ^ 63 - 1) (c ∷ cs))
          (rw (other, digit) at e)
  ]
]
