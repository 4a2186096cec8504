-- ===== src/Stt/Marks.antt =====
-- internal/server/stt_refine.go: dedupPunct, dedupRuns and localPunctuate.
pub mod Kept
use opencode_backend.Base.{
  ℕ, zero, suc, Bool, true, false, List, [], ◌∷◌, ◌++◌, length, ◌==◌, ◌&&◌, ◌||◌, not,
  if◌then◌else◌,
}
use opencode_backend.Automation.Text.{Text, codes, trim_space}
use opencode_backend.Stt.Runes.{
  is_punct_rune, is_digit_rune, has_rune, starts_with, starts_with_any, ends_with_any, ends_with,
}

-- The loop of dedupPunct, with `lastWasPunct`.
unfoldable pub dedup_punct_from : Bool → Text → Text
unfolding is_punct_rune
dedup_punct_from last_was_punct [] = []
dedup_punct_from last_was_punct (r ∷ rs) =
    let after_mark = dedup_punct_from true rs in
    let after_other = dedup_punct_from false rs in
    if is_punct_rune r
    then if last_was_punct then after_mark else r ∷ after_mark
    else r ∷ after_other

unfoldable pub dedup_punct : Text → Text
unfolding dedup_punct_from
dedup_punct s = dedup_punct_from false s

abbrev legal_redup : Text
legal_redup =
    codes "看看吧说说见面想想问问听听读写练试试找走走玩玩尝尝拍拍坐坐聊聊慢慢渐渐往往常常刚刚天天日日年年月月夜夜"
    ++ codes "时时刻刻每每隐隐微微轻轻紧紧偷偷悄悄默默匆匆忙忙家家户户人人条条件件种种样样星星点点滴滴谢谢见见太太娃娃宝宝一一"
    ++ codes "爸爸妈妈哥哥姐姐弟弟妹妹爷爷奶奶叔叔姑姑舅舅姥姥"
    ++ codes "哈哈呵呵嘿嘿嘻嘻哼哼汪汪喵喵呱呱"

-- What a run of `n` copies of a rune leaves.
unfoldable pub keep_run : ℕ → ℕ → Text
unfolding has_rune
keep_run c n = if n == 2 && has_rune legal_redup c then c ∷ c ∷ [] else c ∷ []

-- A run of `n` copies of `c` is behind: `j - i` is `n`.
unfoldable pub dedup_runs_from : ℕ → ℕ → Text → Text
unfolding keep_run
dedup_runs_from c n [] = keep_run c n
dedup_runs_from c n (d ∷ ds) = elim (d == c) [
  | true ↦ dedup_runs_from c (suc n) ds
  | false ↦ keep_run c n ++ dedup_runs_from d 1 ds
]

unfoldable pub dedup_runs : Text → Text
unfolding dedup_runs_from
dedup_runs [] = []
dedup_runs (c ∷ cs) = dedup_runs_from c 1 cs

abbrev pub comma : ℕ
comma = 0xff0c

abbrev pub question : ℕ
question = 0xff1f

abbrev pub punct_unit : List Text
punct_unit =
    codes "然后"
    ∷ codes "但是"
    ∷ codes "但是呢"
    ∷ codes "所以"
    ∷ codes "因为"
    ∷ codes "如果"
    ∷ codes "而且"
    ∷ codes "还有"
    ∷ codes "接着"
    ∷ codes "最后"
    ∷ codes "那么"
    ∷ codes "这样"
    ∷ codes "再说"
    ∷ codes "并且"
    ∷ codes "以及"
    ∷ codes "或者"
    ∷ codes "还是"
    ∷ codes "甚至"
    ∷ codes "其实"
    ∷ codes "不过"
    ∷ codes "于是"
    ∷ codes "总之"
    ∷ codes "首先"
    ∷ codes "其次"
    ∷ codes "另外"
    ∷ codes "再说呢"
    ∷ codes "随后"
    ∷ codes "结果"
    ∷ codes "反正"
    ∷ []

abbrev pub punct_question : List Text
punct_question =
    codes "怎么办"
    ∷ codes "为什么"
    ∷ codes "怎么做"
    ∷ codes "怎么"
    ∷ codes "什么"
    ∷ codes "多少"
    ∷ codes "几点"
    ∷ codes "哪里"
    ∷ codes "哪个"
    ∷ codes "谁"
    ∷ codes "去哪儿"
    ∷ codes "去不去"
    ∷ codes "是不是"
    ∷ codes "行不行"
    ∷ codes "可不可以"
    ∷ codes "吗"
    ∷ codes "呢"
    ∷ codes "么"
    ∷ codes "吧"
    ∷ []

-- `strings.ContainsAny` of the seven marks.
unfoldable pub has_mark : Text → Bool
unfolding is_punct_rune
has_mark [] = false
has_mark (c ∷ s) = is_punct_rune c || has_mark s

-- The loop from `i = 1`: a comma before each connective, `prev` being `r[i-1]`.
unfoldable pub punctuate_from : ℕ → Text → Text
unfolding is_punct_rune is_digit_rune starts_with
punctuate_from prev [] = []
punctuate_from prev (c ∷ cs) =
    let rest = punctuate_from c cs in
    if (not (is_punct_rune prev) && not (is_digit_rune prev)) && starts_with_any punct_unit (c ∷ cs)
    then comma ∷ c ∷ rest
    else c ∷ rest

abbrev pub last_from : ℕ → Text → ℕ
last_from c [] = c
last_from c (d ∷ ds) = last_from d ds

-- The end of localPunctuate, on `out`.
unfoldable pub close : Text → Text
unfolding is_punct_rune ends_with trim_space
close [] = []
close (c ∷ cs) =
    if is_punct_rune (last_from c cs)
    then trim_space (c ∷ cs)
    else if ends_with_any punct_question (c ∷ cs)
    then trim_space ((c ∷ cs) ++ question ∷ [])
    else trim_space (c ∷ cs)

abbrev pub punctuate : Text → Text
punctuate [] = []
punctuate (c ∷ cs) = close (c ∷ punctuate_from c cs)

unfoldable pub local_punctuate : Text → Text
unfolding trim_space has_mark punctuate_from close
local_punctuate s =
    let trimmed = trim_space s in if has_mark trimmed then trimmed else punctuate trimmed
