-- ===== src/Stt/Words.antt =====
-- internal/server/stt_refine.go: dedupWords.
use opencode_backend.Base.{
  ℕ, ◌+◌, Bool, true, false, List, [], ◌∷◌, ◌++◌, ltb, leb, length, ◌==◌, ◌&&◌, ◌||◌, if◌then◌else◌,
}
use opencode_backend.Automation.Text.{Text}
use opencode_backend.Stt.Runes.{equal_runes}

unfoldable pub is_letter : ℕ → Bool
is_letter c = leb b'a' c && leb c b'z' || leb b'A' c && leb c b'Z'

-- `\s` of the package regexp.
abbrev pub is_blank : ℕ → Bool
is_blank c = c == 9 || c == 10 || c == 12 || c == 13 || c == 32

pub data TokenClass : Type 0 where
  letters : TokenClass
  blanks : TokenClass
  others : TokenClass

abbrev pub class_of : ℕ → TokenClass
class_of c = if is_letter c then letters else if is_blank c then blanks else others

abbrev pub same_class : TokenClass → TokenClass → Bool
same_class letters letters = true
same_class blanks blanks = true
same_class others others = true
same_class _ _ = false

unfoldable pub join_token : ℕ → List Text → List Text
unfolding is_letter
join_token c ((d ∷ ds) ∷ ws) =
    if same_class (class_of c) (class_of d) then (c ∷ d ∷ ds) ∷ ws else (c ∷ []) ∷ (d ∷ ds) ∷ ws
join_token c ws = (c ∷ []) ∷ ws

-- `wordTokens.FindAllString(s, -1)`: the longest runs of each class.
unfoldable pub word_tokens : Text → List Text
unfolding join_token
word_tokens [] = []
word_tokens (c ∷ cs) = join_token c (word_tokens cs)

abbrev pub all_letters : Text → Bool
all_letters [] = true
all_letters (c ∷ cs) = is_letter c && all_letters cs

unfoldable pub is_ascii_letter_run : Text → Bool
unfolding is_letter
is_ascii_letter_run [] = false
is_ascii_letter_run (c ∷ cs) = is_letter c && all_letters cs

unfoldable pub is_space_run : Text → Bool
is_space_run [] = true
is_space_run (c ∷ cs) = (c == 32 || c == 9) && is_space_run cs

-- `strings.ToLower` of ASCII letters.
abbrev pub to_lower : Text → Text
to_lower [] = []
to_lower (c ∷ cs) = (if leb b'A' c && leb c b'Z' then c + 32 else c) ∷ to_lower cs

-- `strings.TrimRight(s, " \t")`
abbrev pub trim_blanks : Text → Text
trim_blanks [] = []
trim_blanks (c ∷ cs) = elim (trim_blanks cs) [
  | [] ↦ if c == 32 || c == 9 then [] else c ∷ []
  | d ∷ ds ↦ c ∷ d ∷ ds
]

-- The loop: `b`, `lastWord` and `lastWordAtEnd`.
unfoldable pub dedup_tokens : Text → Text → Bool → List Text → Text
unfolding is_ascii_letter_run is_space_run equal_runes
dedup_tokens b last_word at_end [] = b
dedup_tokens b last_word at_end (f ∷ fs) = elim (is_ascii_letter_run f) [
  | true ↦ elim (at_end && equal_runes last_word (to_lower f)) [
    | true ↦ dedup_tokens (trim_blanks b) last_word at_end fs
    | false ↦ dedup_tokens (b ++ f) (to_lower f) true fs
  ]
  | false ↦ dedup_tokens (b ++ f) last_word (is_space_run f && at_end) fs
]

unfoldable pub dedup_words : Text → Text
unfolding word_tokens dedup_tokens
dedup_words s =
    let tokens = word_tokens s in
    if ltb (length tokens) 3 then s else dedup_tokens [] [] false tokens
