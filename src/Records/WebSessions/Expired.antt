-- ===== src/Records/WebSessions/Expired.antt =====
-- internal/store/websession.go: purging the expired sessions changes no later answer.
use opencode_backend.Base.{
  ℕ, ◌<◌, Bool, true, false, String, none, List, [], ◌∷◌, ◌≡◌, refl, arith, str_eq, eq_iff, ltb,
  Bool-cases, inl, inr,
}
use opencode_backend.Sql.{find_where, exists_where, delete_where}
use opencode_backend.Records.Site.{Site, WebSession, ask}
use opencode_backend.Records.WebSessions.{
  has_session_id, unexpired, get_web_session, is_expired, delete_expired_web_sessions,
}

-- No two rows have the same id: the primary key.
abbrev pub DistinctSessions : List WebSession → Type 0
DistinctSessions [] = Unit
DistinctSessions (w ∷ ws) = (exists_where (has_session_id w.id) ws ≡ false) × DistinctSessions ws

absent-find :
    (id : String) (ws : List WebSession)
    → exists_where (has_session_id id) ws ≡ false
    → (p : WebSession → Bool) → find_where (has_session_id id) (delete_where p ws) ≡ none
unfolding exists_where find_where delete_where
absent-find id [] h p = refl
absent-find id (w ∷ ws) h p = elim (Bool-cases (str_eq w.id id)) [
  | inl e ↦ cc (rw e at h)
  | inr e ↦ elim (Bool-cases (p w)) [
    | inl q ↦ rw q (absent-find id ws (rw e at h) p)
    | inr q ↦ rw q (rw e (absent-find id ws (rw e at h) p))
  ]
]

unexpired-delete :
    (id : String) (now later : ℕ) (ws : List WebSession)
    → now < later
    → DistinctSessions ws
    → unexpired later (find_where (has_session_id id) (delete_where (is_expired now) ws))
      ≡ unexpired later (find_where (has_session_id id) ws)
unfolding find_where delete_where
unexpired-delete id now later [] h d = refl
unexpired-delete id now later (w ∷ ws) h (fresh, d) = elim (Bool-cases (is_expired now w)) [
  | inr live ↦ rw live (elim (Bool-cases (str_eq w.id id)) [
    | inl same ↦ rw same refl
    | inr other ↦ rw other (unexpired-delete id now later ws h d)
  ])
  | inl gone ↦ rw gone (elim (Bool-cases (str_eq w.id id)) [
    | inr other ↦ rw other (unexpired-delete id now later ws h d)
    | inl same ↦
        let equal : w.id ≡ id = ground (arith, eq_iff w.id id, same) in
        let missing : find_where (has_session_id id) (delete_where (is_expired now) ws) ≡ none =
          absent-find id ws (rw equal at fresh) (is_expired now) in
        let late : ltb w.expires_at later ≡ true = ground arith in rw (same, missing, late) refl
  ])
]

-- At any time after DeleteExpiredWebSessions, GetWebSession answers as if nothing had been deleted,
-- when the database answers both and no two rows share an id.
pub get_web_session-delete_expired :
    (id : String) (s : Site) (later : ℕ)
    → s.now < later
    → DistinctSessions s.web_sessions
    → (get_web_session id (record (delete_expired_web_sessions (record s { faults = [] })).1 {
      now = later;
      faults = [];
    })).0
      ≡ (get_web_session id (record s { now = later; faults = [] })).0
unfolding get_web_session delete_expired_web_sessions ask
get_web_session-delete_expired id s later h d = unexpired-delete id s.now later s.web_sessions h d
