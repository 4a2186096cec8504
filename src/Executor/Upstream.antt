-- ===== src/Executor/Upstream.antt =====
-- The executor's side of the OpenCode HTTP API (internal/tasks/executor.go): what it makes of each
-- reply. Transport and JSON decoding are the library's, so a reply comes decoded.
use Prim.Native.String.{◌++◌ as str_append}
use opencode_backend.Base.{
  ℕ, Bool, false, String, Option, none, some, List, [], ◌∷◌, leb, str_eq, ◌&&◌, not, if◌then◌else◌,
}

-- `(value, error)` with the text of the error, and `errCanceled` apart.
pub data Outcome (A : Type 0) : Type 0 where
  success : A → Outcome A
  failure : String → Outcome A
  canceled : Outcome A

-- A body that `json.Unmarshal` reads, or the text of its error.
pub data Decoded (A : Type 0) : Type 0 where
  decoded : A → Decoded A
  malformed : String → Decoded A

-- No answer, or a status code, the status line, the raw body and the decoded one.
pub data Reply (A : Type 0) : Type 0 where
  no_reply : String → Reply A
  reply : ℕ → String → String → Decoded A → Reply A

created_id : Decoded String → Outcome String
created_id (malformed e) = failure (str_append "create session: parse: " e)
created_id (decoded id) =
    if str_eq id "" then failure "create session: empty id in response" else success id

unfoldable pub create_session : Reply String → Outcome String
unfolding created_id
create_session (no_reply e) = failure e
create_session (reply code status raw body) =
    if leb 300 code then failure (str_append "create session: " status) else created_id body

-- The reply to the POST of the prompt: only its status matters.
unfoldable pub admitted : Reply (Unit {0}) → Outcome (Unit {0})
admitted (no_reply e) = failure e
admitted (reply code status raw body) =
    if leb 300 code
    then failure (str_append "prompt: " (str_append status (str_append ": " raw)))
    else success tt

status_of : String → List (String × String) → Option String
status_of session [] = none
status_of session ((id, kind) ∷ rest) =
    let later = status_of session rest in if str_eq id session then some kind else later

busy_kind : Option String → Bool
busy_kind none = false
busy_kind (some kind) = str_eq kind "busy"

-- The status code is not looked at; a session that the map lacks is not busy.
unfoldable pub is_session_busy : String → Reply (List (String × String)) → Outcome Bool
unfolding status_of busy_kind
is_session_busy session (no_reply e) = failure e
is_session_busy session (reply code status raw (malformed e)) = failure e
is_session_busy session (reply code status raw (decoded statuses)) =
    success (busy_kind (status_of session statuses))

pub record Block : Type 0 where
  pub kind : String
  pub text : String

pub record ChatMessage : Type 0 where
  pub role : String
  pub content : List Block

-- `for _, c := range m.Content`
unfoldable pub texts_of : List Block → List String
texts_of [] = []
texts_of (c ∷ cs) =
    let rest = texts_of cs in
    if str_eq c.kind "text" && not (str_eq c.text "") then c.text ∷ rest else rest

-- `strings.Join(texts, "\n")`
unfoldable pub join_lines : List String → String
join_lines [] = ""
join_lines (t ∷ []) = t
join_lines (t ∷ u ∷ ts) = str_append t (str_append "\n" (join_lines (u ∷ ts)))

-- A message ends the search if the assistant wrote it and it holds text.
unfoldable pub answer_of : ChatMessage → Option String
unfolding texts_of join_lines
answer_of m =
    if str_eq m.role "assistant"
    then elim (texts_of m.content) [ [] ↦ none | t ∷ ts ↦ some (join_lines (t ∷ ts)) ]
    else none

-- The loop from the last message to the first, as a search that prefers the later message.
unfoldable pub last_answer : List ChatMessage → Option String
unfolding answer_of
last_answer [] = none
last_answer (m ∷ ms) = elim (last_answer ms) [ some a ↦ some a | none ↦ answer_of m ]

unfoldable pub answer_text : Option String → String
answer_text none = "(no assistant text)"
answer_text (some a) = a

unfoldable pub last_assistant_text : Reply (List ChatMessage) → Outcome String
unfolding last_answer answer_text
last_assistant_text (no_reply e) = failure e
last_assistant_text (reply code status raw body) =
    if leb 300 code then failure (str_append "get session messages: " status) else elim body [
      | malformed e ↦ failure (str_append "parse session messages: " e)
      | decoded ms ↦ success (answer_text (last_answer ms))
    ]
