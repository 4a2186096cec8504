-- ===== src/Stt/Slips.antt =====
-- internal/server/stt_refine.go: fixCommonMisrecognitions.
use opencode_backend.Base.{ℕ, zero, suc, ◌-◌, true, false, List, [], ◌∷◌, ◌++◌, length}
use opencode_backend.Automation.Text.{Text, codes}
use opencode_backend.Stt.Runes.{starts_with}

-- `strings.ReplaceAll` of a text that is not empty: `skip` runes of a match are still to be passed.
unfoldable pub replace_from : ℕ → Text → Text → Text → Text
unfolding starts_with
replace_from skip old new [] = []
replace_from (suc skip) old new (c ∷ cs) = replace_from skip old new cs
replace_from zero old new (c ∷ cs) = elim (starts_with old (c ∷ cs)) [
  | true ↦ new ++ replace_from (length old - 1) old new cs
  | false ↦ c ∷ replace_from 0 old new cs
]

abbrev pub common_misrecognitions : List (Text × Text)
common_misrecognitions =
    (codes "以经", codes "已经")
    ∷ (codes "周未", codes "周末")
    ∷ (codes "进都表", codes "进度表")
    ∷ (codes "进都", codes "进度")
    ∷ (codes "我门", codes "我们")
    ∷ (codes "你门", codes "你们")
    ∷ (codes "在再", codes "再")
    ∷ (codes "的那", codes "的")
    ∷ (codes "那那那你", codes "那你")
    ∷ []

unfoldable pub replace_pairs : List (Text × Text) → Text → Text
unfolding replace_from
replace_pairs [] s = s
replace_pairs ((old, new) ∷ pairs) s = replace_pairs pairs (replace_from 0 old new s)

unfoldable pub fix_common_misrecognitions : Text → Text
unfolding replace_pairs
fix_common_misrecognitions s = replace_pairs common_misrecognitions s
