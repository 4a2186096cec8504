-- ===== src/Stt/Tests.antt =====
-- Transcripts of internal/server/stt_refine_test.go, and the theorems on transcripts at small inputs.
use opencode_backend.Base.{ℕ, ◌≤◌, ◌≡◌, refl, none, some, [], ◌∷◌, false, length, All, arith}
use opencode_backend.Automation.Text.{Text, codes}
use opencode_backend.Stt.Spaces.{without_spaces}
use opencode_backend.Stt.Repeats.{
  Best, find_repeat, dedup_rounds, dedup_adjacent_repeat, dedup_scan_runes,
}
use opencode_backend.Stt.Repeats.Rounds.{dedup_rounds-end}
use opencode_backend.Stt.Repeats.NoRepeat.{NoRepeat, dedup_adjacent_repeat-NoRepeat}
use opencode_backend.Stt.Clauses.{split_clauses}
use opencode_backend.Stt.Clauses.Joined.{IsClause, joined, split_clauses-IsClause}
use opencode_backend.Stt.Refine.{Attempt, dedup_transcript, local_repair, strip_fences}

words_once :
    dedup_transcript (codes "昨天是 MONDAY MONDAY，TODAY TODAY IS LIBR")
    ≡ codes "昨天是 MONDAY，TODAY IS LIBR"
unfolding dedup_transcript
words_once = refl

stutter_gone : dedup_transcript (codes "我们们一起起吃饭饭") ≡ codes "我们一起吃饭"
unfolding dedup_transcript
stutter_gone = refl

pairs_stay : dedup_transcript (codes "看看说说一一") ≡ codes "看看说说一一"
unfolding dedup_transcript
pairs_stay = refl

block_once : dedup_transcript (codes "想将军去杀敌 想将军去杀敌回来") ≡ codes "想将军去杀敌回来"
unfolding dedup_transcript
block_once = refl

tail_once : dedup_transcript (codes "今天天气怎么样 怎么样") ≡ codes "今天天气怎么样"
unfolding dedup_transcript
tail_once = refl

question_at_end : local_repair (codes "周未我门去看看然后回家吗") ≡ codes "周末我们去看看，然后回家吗？"
unfolding local_repair
question_at_end = refl

fences_gone : strip_fences (codes "```text\n昨天是周一\n```") ≡ codes "昨天是周一"
unfolding strip_fences
fences_gone = refl

abbrev doubled : Text
doubled = codes "abcabcd"

dedup_rounds-end_example :
    (Best.len (find_repeat (dedup_rounds 9 doubled)) ≡ 0)
    × (dedup_rounds 9 doubled ≡ dedup_rounds (length doubled) doubled)
dedup_rounds-end_example = dedup_rounds-end doubled 9 (omega arith)

dedup_adjacent_repeat-NoRepeat_example :
    NoRepeat (dedup_adjacent_repeat doubled)
    × (length (dedup_adjacent_repeat doubled) ≤ length doubled)
    × (length (dedup_adjacent_repeat doubled) ≤ dedup_scan_runes)
dedup_adjacent_repeat-NoRepeat_example = dedup_adjacent_repeat-NoRepeat doubled

abbrev dictation : Text
dictation = codes "one two three four five six seven eight nine ten然后 go home"

split_clauses-IsClause_example :
    (without_spaces (joined (split_clauses dictation)) ≡ without_spaces dictation)
    × All IsClause (split_clauses dictation)
split_clauses-IsClause_example = split_clauses-IsClause dictation

two_clauses :
    split_clauses dictation
    ≡ codes "one two three four five six seven eight nine ten" ∷ codes "然后 go home" ∷ []
unfolding split_clauses
two_clauses = refl

-- A model that fails, is asked again, and answers.
abbrev second_try : ℕ → Text → Attempt
second_try i t = record { first = none; expired = false; second = some (codes "we go home.") }
