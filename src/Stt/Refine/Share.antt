-- ===== src/Stt/Refine/Share.antt =====
-- refinePlausible of internal/server/stt_refine.go: what an accepted answer has in common with the
-- transcript.
use opencode_backend.Base.{
  ℕ, ◌+◌, ◌*◌, true, false, [], ◌∷◌, ◌≡◌, ◌≢◌, ◌≤◌, ◌<◌, refl, arith, Bool-cases, inl, inr, ltb,
  length, ◌==◌, if◌then◌else◌,
}
use opencode_backend.Automation.Text.{Text, trim_space}
use opencode_backend.Stt.Runes.{has_rune}
use opencode_backend.Stt.Refine.{count_rune, shared_from, lower_count, refine_plausible, is_empty}

-- How many runes of `c` occur in `o`.
unfoldable pub known : Text → Text → ℕ
known o [] = 0
known o (r ∷ rs) = (if has_rune o r then 1 else 0) + known o rs

counted-occurs : (o : Text) (r : ℕ) → 0 < count_rune o r → has_rune o r ≡ true
unfolding count_rune has_rune
counted-occurs [] r h = ground arith
counted-occurs (c ∷ cs) r h = elim (Bool-cases (c == r)) [
  | inl e ↦ rw e refl
  | inr e ↦
      let later : 0 < 0 + count_rune cs r = rw e at h in
      rw e (counted-occurs cs r (omega (arith, later)))
]

lower_count-le : (counts : ℕ → ℕ) (c r : ℕ) → lower_count counts c r ≤ counts r
lower_count-le counts c r = elim (Bool-cases (c == r)) [
  | inl e ↦ rw e (omega arith)
  | inr e ↦ rw e (omega arith)
]

shared-known :
    (o c : Text) (counts : ℕ → ℕ)
    → ((r : ℕ) → 0 < counts r → has_rune o r ≡ true)
    → shared_from counts c ≤ known o c
unfolding shared_from known
shared-known o [] counts h = omega arith
shared-known o (r ∷ rs) counts h = elim (Bool-cases (ltb 0 (counts r))) [
  | inl e ↦
      let occurs : has_rune o r ≡ true = h r (ground arith) in
      let rest : shared_from (lower_count counts r) rs ≤ known o rs =
        shared-known o rs (lower_count counts r)
          (λ q p. h q (omega (arith, lower_count-le counts r q))) in
      rw (e, shared_from) (rw occurs (omega (arith, rest)))
  | inr e ↦ rw (e, shared_from) (omega (arith, shared-known o rs counts h))
]

-- A believable repair `c` of `o`: not blank, from 0.3 to 3 times as long, and at least 60 in 100 of
-- its runes stand in `o`.
pub record IsRepair (o c : Text) : Type 0 where
  pub full : trim_space c ≢ []
  pub not_short : 3 * length o ≤ 10 * length c
  pub not_long : length c ≤ 3 * length o
  pub alike : 3 * length c ≤ 5 * known o c

full-of : (t : Text) → is_empty t ≡ false → t ≢ []
full-of [] e = ground arith
full-of (c ∷ cs) e = λ h. cc

-- Whatever text refinePlausible accepts is a believable repair of the transcript.
pub refine_plausible-IsRepair : (o c : Text) → refine_plausible o c ≡ true → IsRepair o c
unfolding refine_plausible
refine_plausible-IsRepair o c h = elim (Bool-cases (is_empty (trim_space c))) [
  | inl e ↦ ground arith
  | inr e ↦
      let shares : shared_from (count_rune o) c ≤ known o c =
        shared-known o c (count_rune o) (counted-occurs o) in
      record {
        full = full-of (trim_space c) e;
        not_short = ground arith;
        not_long = ground arith;
        alike = ground arith;
      }
]
