-- ===== src/Events/Frames.antt =====
-- internal/server/events.go: reading one frame of the stream, and the classes of event types.
-- encoding/json decodes the frame: `decode` gives what the struct's fields then hold.
use opencode_backend.Base.{
  ℕ, Bool, false, String, Option, none, some, List, [], ◌∷◌, if◌then◌else◌, str_eq, ◌||◌,
}
use opencode_backend.Automation.Text.{Text, codes, trim_space}
use opencode_backend.Stt.Runes.{equal_runes, starts_with, ends_with}
use opencode_backend.Records.Site.{SessionEvent}

-- A decoded JSON value, as far as the collector looks: a text, an object, or another value.
mutual
  pub data Json : Type 0 where
    text : Text → Json
    object : Members → Json
    other : Json

  -- `map[string]any`
  pub data Members : Type 0 where
    empty : Members
    member : String → Json → Members → Members

-- The struct that parseSessionEvent decodes into.
pub record Frame : Type 0 where
  pub type_ : Text
  pub props : Members
  pub data_ : Members
  pub session : Text
  pub payload : Members

-- `v, ok := m[k]`
unfoldable pub get : String → Members → Option Json
get k empty = none
get k (member q v m) = let rest = get k m in if str_eq q k then some v else rest

abbrev pub text_of : Option Json → Option Text
text_of (some (text t)) = some t
text_of _ = none

abbrev pub or_empty : Option Text → Text
or_empty none = []
or_empty (some t) = t

-- The two spellings, the first one that holds a text, be it empty.
unfoldable pub lookup_session_id : Members → Text
unfolding get
lookup_session_id m = elim (text_of (get "sessionID" m)) [
  | some t ↦ t
  | none ↦ or_empty (text_of (get "sessionId" m))
]

abbrev pub object_of : Option Json → Option Members
object_of (some (object m)) = some m
object_of _ = none

abbrev pub or_none : Option Members → Members
or_none none = empty
or_none (some m) = m

unfoldable pub payload_object : Members → Members
unfolding get
payload_object p = elim (object_of (get "properties" p)) [
  | some m ↦ m
  | none ↦ or_none (object_of (get "data" p))
]

abbrev pub first_full : Text → Text → Text
first_full [] t = t
first_full (c ∷ cs) t = c ∷ cs

unfoldable pub event_type_of : Frame → Text
unfolding get trim_space
event_type_of f =
    first_full (trim_space f.type_)
      (first_full (trim_space (or_empty (text_of (get "type" f.payload)))) (codes "unknown"))

unfoldable pub session_id_of : Frame → Text
unfolding lookup_session_id payload_object
session_id_of f = first_full f.session (
    first_full (lookup_session_id f.data_)
      (first_full (lookup_session_id f.props) (lookup_session_id (payload_object f.payload))))

abbrev pub event_of : ℕ → Text → Option Frame → Option SessionEvent
event_of now raw none = none
event_of now raw (some f) = some (record {
  id = 0;
  session_id = session_id_of f;
  event_type = event_type_of f;
  payload = raw;
  created_at = now;
})

-- `ok` is false for a frame that does not decode.
unfoldable pub parse_session_event : (Text → Option Frame) → ℕ → Text → Option SessionEvent
unfolding event_type_of session_id_of
parse_session_event decode now raw = event_of now raw (decode raw)

-- `strings.Contains`
unfoldable pub has_text : Text → Text → Bool
unfolding starts_with
has_text w [] = starts_with w []
has_text w (c ∷ cs) = starts_with w (c ∷ cs) || has_text w cs

unfoldable pub is_one_of : Text → List Text → Bool
unfolding equal_runes
is_one_of t [] = false
is_one_of t (w ∷ ws) = equal_runes t w || is_one_of t ws

unfoldable pub is_high_frequency_event : Text → Bool
unfolding ends_with has_text is_one_of
is_high_frequency_event t =
    ends_with (codes ".delta") t
    || has_text (codes "progress") t
    || is_one_of t
        (codes "message.part.updated" ∷ codes "message.part.removed" ∷ codes "heartbeat" ∷ [])

unfoldable pub is_message_activity_event : Text → Bool
unfolding is_one_of
is_message_activity_event t = is_one_of t (
    codes "message.part.delta"
    ∷ codes "message.part.updated"
    ∷ codes "message.updated"
    ∷ codes "message.complete"
    ∷ [])

unfoldable pub is_unread_trigger_event : Text → Bool
unfolding is_one_of
is_unread_trigger_event t = is_one_of t (
    codes "message.complete"
    ∷ codes "message.created"
    ∷ codes "message.updated"
    ∷ codes "question.asked"
    ∷ codes "question.updated"
    ∷ codes "permission.asked"
    ∷ codes "session.idle"
    ∷ codes "session.status"
    ∷ codes "session.error"
    ∷ codes "session.failed"
    ∷ [])
