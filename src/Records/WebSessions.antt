-- ===== src/Records/WebSessions.antt =====
-- internal/store/websession.go: the table `web_sessions`.
pub mod Expired
use opencode_backend.Base.{
  ℕ, Bool, true, false, String, Option, none, some, List, [], ◌∷◌, ◌++◌, if◌then◌else◌, str_eq, ltb,
  leb, ◌==◌,
}
use opencode_backend.Exec.{Result, ok, err, not_found, database, Exec}
use opencode_backend.Sql.{find_where, exists_where, count_where, delete_where}
use opencode_backend.Records.Site.{Site, WebSession, ask, site_answer}

abbrev pub has_session_id : String → WebSession → Bool
has_session_id id w = str_eq w.id id

unfoldable pub create_web_session : String → ℕ → Exec Site (Unit {0})
unfolding ask exists_where
create_web_session id expires_at = ask (λ s.
    if exists_where (has_session_id id) s.web_sessions then (err database, s) else (
      ok tt,
      record s {
        web_sessions = s.web_sessions ++ record { id = id; expires_at = expires_at } ∷ [];
      },
    ))

-- The row that was read, at the time `now`: `time.Now().After(ws.ExpiresAt)` is no session.
abbrev pub unexpired : ℕ → Option WebSession → Result WebSession
unexpired now none = err not_found
unexpired now (some w) = if ltb w.expires_at now then err not_found else ok w

unfoldable pub get_web_session : String → Exec Site WebSession
unfolding ask find_where
get_web_session id = ask (λ s. (unexpired s.now (find_where (has_session_id id) s.web_sessions), s))

unfoldable pub delete_web_session : String → Exec Site (Unit {0})
unfolding ask count_where delete_where
delete_web_session id = ask (λ s. (
  if count_where (has_session_id id) s.web_sessions == 0 then err not_found else ok tt,
  record s { web_sessions = delete_where (has_session_id id) s.web_sessions },
))

abbrev pub is_expired : ℕ → WebSession → Bool
is_expired now w = leb w.expires_at now

unfoldable pub delete_expired_web_sessions : Exec Site ℕ
unfolding ask count_where delete_where
delete_expired_web_sessions = ask (λ s. (
  ok (count_where (is_expired s.now) s.web_sessions),
  record s { web_sessions = delete_where (is_expired s.now) s.web_sessions },
))
