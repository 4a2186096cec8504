-- ===== src/Automation/Cron.antt =====
-- internal/automation/cron.go: the fields of a cron expression and the next fire time. A field that
-- is refused is `none`; the texts of the errors are left out.
pub mod NextTime
pub mod Fields
use opencode_backend.Base.{
  ◌%◌, ◌^◌, ℕ, zero, suc, ◌+◌, ◌-◌, ◌*◌, ◌/◌, ◌≤◌, ◌<◌, Bool, true, false, String, Option, none,
  some, List, [], ◌∷◌, ◌++◌, ltb, leb, ◌==◌, ◌&&◌, ◌||◌, if◌then◌else◌,
}
use opencode_backend.Base.Int.{ℤ, pos, negsuc}
use opencode_backend.Automation.Text.{Text, codes, trim_space, split_at, fields, atoi}
use opencode_backend.Store.Db.{second}

unfoldable pub contains : List ℕ → ℕ → Bool
contains [] v = false
contains (x ∷ xs) v = let rest = contains xs v in if x == v then true else rest

-- `if !seen[v] { seen[v] = true; out = append(out, v) }`: `seen` holds what `out` holds.
unfoldable pub add_value : List ℕ → ℕ → List ℕ
unfolding contains
add_value out v = if contains out v then out else out ++ v ∷ []

-- `v <= max` for an `int` given by its 64 bits: a pattern from 2^63 on is a negative number.
abbrev pub int_le : ℕ → ℕ → Bool
int_le v hi = leb (2 ^ 63) v || leb v hi

-- `for v := min; v <= max; v += step`, where `v` is the 64 bits of Go's `int`, which wraps around. A
-- turn of fuel for each value that can be met.
unfoldable pub add_range : ℕ → ℕ → ℕ → ℕ → List ℕ → List ℕ
add_range zero v hi step out = out
add_range (suc fuel) v hi step out =
    let rest = add_range fuel ((v + step) % 2 ^ 64) hi step (add_value out v) in
    if int_le v hi then rest else out

abbrev pub after_slash : Text → Option Text
after_slash (c ∷ d ∷ cs) = if c == b'*' && d == b'/' then some cs else none
after_slash _ = none

-- `step, err := strconv.Atoi(...)`, `err != nil || step <= 0`. From a `min` of at most 1 the loop
-- meets at most two negative values and then ends, so the fuel is enough.
unfoldable pub add_step : Option ℤ → ℕ → ℕ → List ℕ → Option (List ℕ)
add_step (some (pos (suc n))) lo hi out = some (add_range (3 + hi) lo hi (suc n) out)
add_step _ lo hi out = none

-- `v, err := strconv.Atoi(part)`, `err != nil || v < min || v > max`
unfoldable pub add_exact : Option ℤ → ℕ → ℕ → List ℕ → Option (List ℕ)
add_exact (some (pos n)) lo hi out = if ltb n lo || ltb hi n then none else some (add_value out n)
add_exact _ lo hi out = none

abbrev pub is_star : Text → Bool
is_star (c ∷ []) = c == b'*'
is_star _ = false

-- One part of the comma list, trimmed.
unfoldable pub add_part : Text → ℕ → ℕ → List ℕ → Option (List ℕ)
unfolding add_step add_exact add_range add_value
add_part part lo hi out =
    if is_star part then some (add_range (3 + hi) lo hi 1 out) else elim (after_slash part) [
      | some rest ↦ add_step (atoi rest) lo hi out
      | none ↦ add_exact (atoi part) lo hi out
    ]

unfoldable pub add_parts : List Text → ℕ → ℕ → List ℕ → Option (List ℕ)
unfolding add_part
add_parts [] lo hi out = some out
add_parts (p ∷ ps) lo hi out = elim (add_part (trim_space p) lo hi out) [
  | none ↦ none
  | some out' ↦ add_parts ps lo hi out'
]

abbrev pub non_empty_field : Text → ℕ → ℕ → Option (List ℕ)
non_empty_field [] lo hi = none
non_empty_field (c ∷ cs) lo hi = add_parts (split_at b',' (c ∷ cs)) lo hi []

unfoldable pub parse_field : Text → ℕ → ℕ → Option (List ℕ)
unfolding add_parts
parse_field f lo hi = non_empty_field (trim_space f) lo hi

-- The clock fields of a `time.Time` in its location, and `AddDate(3, 0, 0)`: the time zone is the
-- host's, so the calendar is a parameter.
pub record Calendar : Type 0 where
  pub month : ℕ → ℕ
  pub day : ℕ → ℕ
  pub weekday : ℕ → ℕ
  pub hour : ℕ → ℕ
  pub minute : ℕ → ℕ
  pub seconds : ℕ → ℕ
  pub three_years_later : ℕ → ℕ

pub record Allowed : Type 0 where
  pub secs : List ℕ
  pub mins : List ℕ
  pub hours : List ℕ
  pub days : List ℕ
  pub months : List ℕ
  pub weeks : List ℕ

infixl 5 ◌>>=◌
abbrev pub ◌>>=◌ : {A B : Type 0} → Option A → (A → Option B) → Option B
none >>= f = none
some a >>= f = f a

-- The six calls of `parseField`; a list of another length is refused.
unfoldable pub parse_fields : List Text → Option Allowed
parse_fields (s ∷ mi ∷ h ∷ d ∷ mo ∷ w ∷ []) = do
  secs ← parse_field s 0 59
  mins ← parse_field mi 0 59
  hours ← parse_field h 0 23
  days ← parse_field d 1 31
  months ← parse_field mo 1 12
  weeks ← parse_field w 0 6
  some (record {
    secs = secs;
    mins = mins;
    hours = hours;
    days = days;
    months = months;
    weeks = weeks;
  })
parse_fields _ = none

module _ (c : Calendar) where
  unfoldable pub fires_at : Allowed → ℕ → Bool
  fires_at a t =
      contains a.months (c.month t)
      && (contains a.days (c.day t)
          && (contains a.weeks (c.weekday t)
              && (contains a.hours (c.hour t)
                  && (contains a.mins (c.minute t) && contains a.secs (c.seconds t)))))

  -- `for t.Before(horizon)`, a turn of fuel for each second.
  unfoldable pub scan : ℕ → Allowed → ℕ → ℕ → Option ℕ
  scan zero a t horizon = none
  scan (suc fuel) a t horizon =
      let rest = scan fuel a (t + second) horizon in
      if ltb t horizon then (if fires_at a t then some t else rest) else none

  unfoldable pub next_time : Allowed → ℕ → Option ℕ
  unfolding scan
  next_time a after =
      let horizon = c.three_years_later after in
      scan (suc (horizon / second)) a (after + second) horizon

  unfoldable pub next_cron : ℕ → List Text → Option ℕ
  unfolding parse_fields next_time
  next_cron after fs = do a ← parse_fields fs; next_time a after

  -- `ParseCron` at the time `now`: a valid expression with no fire time within three years of now
  -- is refused too.
  unfoldable pub parse_cron : ℕ → String → Option (List Text)
  unfolding next_cron
  parse_cron now expr = let fs = fields (codes expr) in do _ ← next_cron now fs; some fs

  -- `NextCron`, which validates at the time `now` first.
  unfoldable pub next_cron_of : ℕ → ℕ → String → Option ℕ
  unfolding parse_cron
  next_cron_of now after expr = do fs ← parse_cron now expr; next_cron after fs
