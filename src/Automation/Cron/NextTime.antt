-- ===== src/Automation/Cron/NextTime.antt =====
-- `nextCron`: the first matching second, strictly later, within the horizon.
use mathlib.Core.Path.{subst}
use opencode_backend.Base.{
  ℕ, zero, suc, ◌+◌, ◌*◌, ◌/◌, ◌≤◌, ◌<◌, true, false, none, some, ◌≡◌, ltb, arith, Bool-cases, inl,
  inr,
}
use opencode_backend.Automation.Cron.{Calendar, Allowed, fires_at, scan, next_time}
use opencode_backend.Store.Db.{second}

-- The second `n` is the `k`-th after `t` (from 0) and matches, before the horizon, and none of the
-- seconds before it matches.
pub record IsFirst (c : Calendar) (a : Allowed) (t horizon n : ℕ) : Type 0 where
  pub turns : ℕ
  pub at : n ≡ t + turns * second
  pub in_time : n < horizon
  pub fires : fires_at c a n ≡ true
  pub none_before : (j : ℕ) → j < turns → fires_at c a (t + j * second) ≡ false

module _ (c : Calendar) (a : Allowed) (horizon : ℕ) where
  quiet_at : (t u : ℕ) → t ≡ u → fires_at c a t ≡ false → fires_at c a u ≡ false
  quiet_at t u e h = subst (λ x. fires_at c a x ≡ false) e h

  earlier :
      (t k : ℕ)
      → fires_at c a t ≡ false
      → ((j : ℕ) → j < k → fires_at c a (t + second + j * second) ≡ false)
      → (j : ℕ) → j < suc k
      → fires_at c a (t + j * second) ≡ false
  earlier t k no_t h zero lt = quiet_at t (t + 0 * second) (omega arith) no_t
  earlier t k no_t h (suc j) lt =
      quiet_at (t + second + j * second) (t + suc j * second) (omega arith) (h j (omega arith))

  scan-IsFirst : (fuel t n : ℕ) → scan c fuel a t horizon ≡ some n → IsFirst c a t horizon n
  unfolding scan
  scan-IsFirst zero t n e = cc
  scan-IsFirst (suc fuel) t n e = elim (Bool-cases (ltb t horizon)) [
    | inr late ↦ cc (rw late at e)
    | inl early ↦ elim (Bool-cases (fires_at c a t)) [
      | inl hit ↦
          let same : t ≡ n = cc (rw (early, hit) at e) in
          record {
            turns = 0;
            at = omega (arith, same);
            in_time = ground arith;
            fires = rw (← same) hit;
            none_before = λ j lt. absurd (omega arith);
          }
      | inr miss ↦
          let later = scan-IsFirst fuel (t + second) n (rw (early, miss) at e) in
          record {
            turns = suc later.turns;
            at = omega (arith, later.at);
            in_time = later.in_time;
            fires = later.fires;
            none_before = earlier t later.turns miss later.none_before;
          }
    ]
  ]

  scan-none :
      (fuel t : ℕ)
      → horizon ≤ t + fuel * second
      → scan c fuel a t horizon ≡ none
      → (j : ℕ) → t + j * second < horizon
      → fires_at c a (t + j * second) ≡ false
  unfolding scan
  scan-none zero t enough e j lt = absurd (omega arith)
  scan-none (suc fuel) t enough e zero lt =
      let early : ltb t horizon ≡ true = ground (arith, lt) in
      elim (Bool-cases (fires_at c a t)) [
        | inl hit ↦ cc (rw (early, hit) at e)
        | inr miss ↦ quiet_at t (t + 0 * second) (omega arith) miss
      ]
  scan-none (suc fuel) t enough e (suc j) lt =
      let early : ltb t horizon ≡ true = ground (arith, lt) in
      elim (Bool-cases (fires_at c a t)) [
        | inl hit ↦ cc (rw (early, hit) at e)
        | inr miss ↦
            quiet_at (t + second + j * second) (t + suc j * second) (omega arith)
              (scan-none fuel (t + second) (omega arith) (rw (early, miss) at e) j (omega arith))
      ]

-- A fire time that is found is the first matching second after `after`, so strictly later, and it
-- lies before the horizon of three years.
pub next_time-IsFirst :
    (c : Calendar) (a : Allowed) (after n : ℕ)
    → next_time c a after ≡ some n
    → IsFirst c a (after + second) (c.three_years_later after) n
unfolding next_time
next_time-IsFirst c a after n e =
    scan-IsFirst c a (c.three_years_later after) (suc (c.three_years_later after / second))
      (after + second) n e

-- No fire time means that no second after `after` and before the horizon matches: the loop never
-- gives up early.
pub next_time-none :
    (c : Calendar) (a : Allowed) (after : ℕ)
    → next_time c a after ≡ none
    → (j : ℕ) → after + second + j * second < c.three_years_later after
    → fires_at c a (after + second + j * second) ≡ false
unfolding next_time
next_time-none c a after e =
    scan-none c a (c.three_years_later after) (suc (c.three_years_later after / second))
      (after + second) (omega arith) e
