-- ===== src/Stt/Refine.antt =====
-- internal/server/stt_refine.go: the check of the model's answer, the calls of the model and the
-- handler. The model's answers, the decoding of the body and the outcome of requireToken are
-- arguments.
pub mod Answers
pub mod Share
use opencode_backend.Base.{
  ℕ, zero, suc, ◌+◌, ◌-◌, ◌*◌, String, Option, none, some, Bool, true, false, List, [], ◌∷◌, ◌++◌,
  ltb, leb, length, ◌==◌, ◌&&◌, ◌||◌, not, if◌then◌else◌, take, drop,
}
use opencode_backend.Automation.Text.{Text, codes, trim_space}
use opencode_backend.Stt.Runes.{equal_runes, starts_with, ends_with}
use opencode_backend.Stt.Marks.{dedup_punct, dedup_runs, local_punctuate}
use opencode_backend.Stt.Words.{dedup_words}
use opencode_backend.Stt.Repeats.{dedup_adjacent_repeat, trim_tail_repeat}
use opencode_backend.Stt.Clauses.{split_clauses}
use opencode_backend.Stt.Slips.{fix_common_misrecognitions}

unfoldable pub dedup_transcript : Text → Text
unfolding trim_tail_repeat dedup_adjacent_repeat dedup_runs dedup_punct dedup_words
dedup_transcript s =
    trim_tail_repeat (dedup_adjacent_repeat (dedup_runs (dedup_punct (dedup_words s))))

-- `s[i+1:]` at the first newline, and the text itself where there is none.
abbrev pub after_newline : Text → Option Text
after_newline [] = none
after_newline (c ∷ cs) = if c == 10 then some cs else after_newline cs

abbrev pub fence : Text
fence = codes "```"

abbrev pub trim_fence : Text → Text
trim_fence s = if ends_with fence s then take (length s - length fence) s else s

abbrev pub without_first_line : Text → Text
without_first_line s = elim (after_newline s) [ none ↦ s | some rest ↦ rest ]

unfoldable pub strip_fences : Text → Text
unfolding trim_space starts_with ends_with
strip_fences s =
    let t = trim_space s in
    if starts_with fence t
    then trim_space (trim_fence (trim_space (without_first_line t)))
    else trim_space t

-- `counts[r]++` for each rune of the input.
unfoldable pub count_rune : Text → ℕ → ℕ
count_rune [] r = 0
count_rune (c ∷ cs) r = (if c == r then 1 else 0) + count_rune cs r

abbrev pub lower_count : (ℕ → ℕ) → ℕ → ℕ → ℕ
lower_count counts c r = if c == r then counts r - 1 else counts r

-- The loop over `cleaned`, which counts the runes that the input still has.
unfoldable pub shared_from : (ℕ → ℕ) → Text → ℕ
shared_from counts [] = 0
shared_from counts (r ∷ rs) = elim (ltb 0 (counts r)) [
  | true ↦ suc (shared_from (lower_count counts r) rs)
  | false ↦ shared_from counts rs
]

abbrev pub is_empty : Text → Bool
is_empty [] = true
is_empty (_ ∷ _) = false

-- The quotients of lengths are compared with 0.3, 3.0 and 0.6 as fractions: for lengths below 2^40 the
-- rounded floats compare alike.
unfoldable pub refine_plausible : Text → Text → Bool
unfolding trim_space count_rune shared_from
refine_plausible original cleaned =
    let o = length original in
    let c = length cleaned in
    if is_empty (trim_space cleaned)
    then false
    else if o == 0 || c == 0
    then false
    else if ltb (10 * c) (3 * o) || ltb (3 * o) c
    then false
    else leb (3 * c) (5 * shared_from (count_rune original) cleaned)

-- What the two calls of one completeWithRetry answer, and whether the context ends in between.
pub record Attempt : Type 0 where
  pub first : Option Text
  pub expired : Bool
  pub second : Option Text

unfoldable pub complete_with_retry : Attempt → Option Text
complete_with_retry a = elim a.first [
  | some out ↦ some out
  | none ↦ if a.expired then none else a.second
]

-- `localPunctuate(dedupTranscript(fixCommonMisrecognitions(s)))`
unfoldable pub local_repair : Text → Text
unfolding local_punctuate dedup_transcript fix_common_misrecognitions
local_repair s = local_punctuate (dedup_transcript (fix_common_misrecognitions s))

abbrev pub refine_chunk_runes : ℕ
refine_chunk_runes = 200

-- One chunk: the model's text, or the local repair.
unfoldable pub refine_chunk : (Text → Attempt) → Text → Text
unfolding complete_with_retry local_repair strip_fences
refine_chunk llm ch = elim (complete_with_retry (llm ch)) [
  | some out ↦ strip_fences out
  | none ↦ strip_fences (local_repair ch)
]

-- The loop over the chunks; `llm i` answers the i-th.
unfoldable pub refine_chunks : (ℕ → Text → Attempt) → ℕ → List Text → Text
unfolding refine_chunk
refine_chunks llm i [] = []
refine_chunks llm zero (ch ∷ chunks) = refine_chunk (llm 0) ch ++ refine_chunks llm 1 chunks
refine_chunks llm (suc i) (ch ∷ chunks) =
    (32 ∷ refine_chunk (llm (suc i)) ch) ++ refine_chunks llm (suc (suc i)) chunks

abbrev pub stripped : Option Text → Option Text
stripped none = none
stripped (some out) = some (strip_fences out)

unfoldable pub refine_with_llm : (ℕ → Text → Attempt) → Text → Option Text
unfolding strip_fences complete_with_retry split_clauses refine_chunks
refine_with_llm llm text =
    if leb (length text) refine_chunk_runes
    then stripped (complete_with_retry (llm 0 text))
    else some (refine_chunks llm 0 (split_clauses text))

-- writeErr, or sttRefineResponse under the status 200.
pub data RefineReply : Type 0 where
  refused : ℕ → String → RefineReply
  refined : Text → Bool → Option String → RefineReply

pub record RefineRequest : Type 0 where
  pub is_post : Bool
  pub authorized : Bool
  pub body : Option Text

abbrev pub refine_max_input_bytes : ℕ
refine_max_input_bytes = 16 * 1024

unfoldable pub respond : Text → Text → Option String → RefineReply
unfolding equal_runes
respond original cleaned reason = refined cleaned (not (equal_runes cleaned original)) reason

unfoldable pub fallback_dedup : Text → String → RefineReply
unfolding respond local_repair
fallback_dedup original reason = respond original (local_repair original) (some reason)

-- From the answer of refineWithLLM on.
unfoldable pub after_model : Text → Option Text → RefineReply
unfolding fallback_dedup refine_plausible respond equal_runes fix_common_misrecognitions
    local_punctuate dedup_transcript
after_model original none = fallback_dedup original "llm failed"
after_model original (some cleaned) =
    let input = fix_common_misrecognitions original in
    if not (refine_plausible original cleaned)
    then fallback_dedup original "rejected"
    else if equal_runes cleaned input
    then respond original (local_punctuate (dedup_transcript input)) none
    else respond original cleaned none

-- `llm` is none where the client is missing or not enabled.
unfoldable pub repair : Option (ℕ → Text → Attempt) → Text → RefineReply
unfolding fallback_dedup after_model refine_with_llm fix_common_misrecognitions
repair none original = fallback_dedup original "llm not configured"
repair (some llm) original =
    after_model original (refine_with_llm llm (fix_common_misrecognitions original))

abbrev pub not_blank : Option (ℕ → Text → Attempt) → Text → RefineReply
not_blank llm [] = refused 400 "text is empty"
not_blank llm (c ∷ cs) = repair llm (c ∷ cs)

abbrev pub decoded : Option (ℕ → Text → Attempt) → Option Text → RefineReply
decoded llm none = refused 400 "invalid request body"
decoded llm (some text) = not_blank llm (trim_space text)

-- The read stops after one byte more than the limit.
abbrev pub read : Option (ℕ → Text → Attempt) → (Text → Option Text) → Option Text → RefineReply
read llm decode none = refused 400 "invalid request body"
read llm decode (some sent) =
    let body = take (refine_max_input_bytes + 1) sent in
    if ltb refine_max_input_bytes (length body)
    then refused 413 "text too long"
    else decoded llm (decode body)

-- handleSTTRefine
unfoldable pub handle_refine :
    Option (ℕ → Text → Attempt) → (Text → Option Text) → RefineRequest → RefineReply
unfolding repair trim_space
handle_refine llm decode req =
    if not req.is_post
    then refused 405 "method not allowed"
    else if not req.authorized
    then refused 401 "invalid token"
    else read llm decode req.body
