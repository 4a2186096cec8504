-- ===== src/Access/Handlers/Login.antt =====
-- internal/server/handlers.go: what a login gives.
use opencode_backend.Base.{
  ℕ, ◌+◌, ◌≤◌, Bool, true, false, String, some, List, [], ◌∷◌, ◌++◌, ◌≡◌, refl, sym, ap, ◌∙◌, arith,
  str_eq, eq_refl, ltb, Bool-cases, inl, inr,
}
use opencode_backend.Exec.{Result, ok, err}
use opencode_backend.Sql.{find_where, exists_where}
use opencode_backend.Automation.Text.{Text}
use opencode_backend.Server.RateLimit.{LoginLimiter, clear}
use opencode_backend.Records.Site.{Site, WebSession, ask, ask-ran, ask-now}
use opencode_backend.Records.Settings.{get_setting}
use opencode_backend.Records.WebSessions.{has_session_id, create_web_session, get_web_session}
use opencode_backend.Access.Manager.{Crypto, verify_password}
use opencode_backend.Access.Door.{
  Door, Caller, require_web, register_web_session, registered, session_life, with_site,
}
use opencode_backend.Access.Handlers.{
  decoded, session_answer, login, limited, checked, registered_answer,
}

found-new :
    (id : String) (w : WebSession) (ws : List WebSession)
    → exists_where (has_session_id id) ws ≡ false
    → has_session_id id w ≡ true
    → find_where (has_session_id id) (ws ++ w ∷ []) ≡ some w
unfolding exists_where find_where
found-new id w [] h e = rw e refl
found-new id w (u ∷ ws) h e = ground (arith, found-new id w ws)

create_web_session-found :
    (id : String) (expires_at : ℕ) (s s' : Site)
    → create_web_session id expires_at s ≡ (ok tt, s')
    → find_where (has_session_id id) s'.web_sessions
      ≡ some (record { id = id; expires_at = expires_at })
unfolding create_web_session
create_web_session-found id expires_at s s' e =
    let ran = ask-ran _ tt s (ap (λ p. p.0) e) in
    let step = sym ran.1 ∙ e in
    elim (Bool-cases (exists_where (has_session_id id) s.web_sessions)) [
      | inl taken ↦ cc (rw taken at (ap (λ p. p.0) step))
      | inr new ↦
          let row : WebSession = record { id = id; expires_at = expires_at } in
          let rows : s.web_sessions ++ row ∷ [] ≡ s'.web_sessions =
            ap (λ p. Site.web_sessions p.1) (rw new at step) in
          ap (find_where (has_session_id id)) (sym rows)
          ∙ found-new id row s.web_sessions new (eq_refl id)
    ]

-- Reading the password's hash does not move the clock.
verify_password-now :
    (k : Crypto) (plain : Text) (s : Site) → Site.now (verify_password k plain s).1 ≡ s.now
unfolding verify_password get_setting
verify_password-now k plain s = ask-now _ (λ s'. refl) s

-- The session `sid` is accepted up to the time `until`.
abbrev pub IsSession : String → ℕ → Door → Type 0
IsSession sid until d =
    (r : Caller) (later : ℕ)
    → r.web_session ≡ sid
    → later ≤ until
    → (require_web r (record d { site = record d.site { now = later; faults = [] } })).0 ≡ true

registered-row :
    (sid sid' : String) (made : Result (Unit {0}) × Site) (d d' : Door)
    → Path (Result String × Door) (registered sid made.0, with_site d made.1) (ok sid', d')
    → (sid ≡ sid') × (made ≡ (ok tt, d'.site))
registered-row sid sid' (ok u, s) d d' e =
    (cc (ap (λ p. p.0) e), ap (λ r. (ok tt, r)) (ap (λ p. Door.site p.1) e))
registered-row sid sid' (err x, s) d d' e = cc (ap (λ p. p.0) e)

register-IsSession :
    (sid sid' : String) (d d' : Door)
    → str_eq sid "" ≡ false
    → register_web_session sid d ≡ (ok sid', d')
    → (sid ≡ sid') × IsSession sid (Site.now d.site + session_life) d'
unfolding register_web_session require_web get_web_session ask
register-IsSession sid sid' d d' named e =
    let expires = Site.now d.site + session_life in
    let made = registered-row sid sid' (create_web_session sid expires d.site) d d' e in
    let found = create_web_session-found sid expires d.site d'.site made.1 in
    (
      made.0,
      λ r later same early.
          let named' : str_eq r.web_session "" ≡ false = rw same named in
          let young : ltb expires later ≡ false = ground arith in
          rw named' (rw (same, found) (rw young refl)),
    )

answered-row :
    (made : Result String × Door) (sid : String) (d : Door)
    → registered_answer made ≡ (session_answer sid, d)
    → made ≡ (ok sid, d)
answered-row (err x, m) sid d e = cc (ap (λ p. p.0) e)
answered-row (ok s, m) sid d e =
    let same : s ≡ sid = cc (ap (λ p. p.0) e) in
    let door : m ≡ d = ap (λ p. p.1) e in rw (same, door) refl

checked-row :
    (key sid sid' : String) (r : Result Bool) (d d' : Door)
    → checked key sid r d ≡ (session_answer sid', d')
    → (r ≡ ok true)
      × (register_web_session sid (record d { limiter = clear key d.limiter }) ≡ (ok sid', d'))
checked-row key sid sid' (err x) d d' e = cc (ap (λ p. p.0) e)
checked-row key sid sid' (ok false) d d' e = cc (ap (λ p. p.0) e)
checked-row key sid sid' (ok true) d d' e = (refl, answered-row _ sid' d' e)

limited-IsSession :
    (k : Crypto) (key sid sid' : String) (password : Text) (b : Bool × LoginLimiter) (d d' : Door)
    → str_eq sid "" ≡ false
    → limited k key sid password b d ≡ (session_answer sid', d')
    → ((verify_password k password d.site).0 ≡ ok true)
      × IsSession sid' (Site.now d.site + session_life) d'
limited-IsSession k key sid sid' password (false, l) d d' named e = cc (ap (λ p. p.0) e)
limited-IsSession k key sid sid' password (true, l) d d' named e =
    let v = verify_password k password d.site in
    let row = checked-row key sid sid' v.0 (record d { limiter = l; site = v.1 }) d' e in
    let made =
      register-IsSession sid sid' (record d { limiter = clear key l; site = v.1 }) d' named row.1 in
    let valid : IsSession sid (Site.now v.1 + session_life) d' = made.1 in
    let now : Site.now v.1 ≡ Site.now d.site = verify_password-now k password d.site in
    (row.0, λ r later same early. valid r later (same ∙ sym made.0) (omega (arith, now, early)))

-- A login that is answered with a session had the right password, and the session is accepted for 24
-- hours, whenever the database answers; the random id is not the empty text.
pub login-IsSession :
    (k : Crypto) (key sid sid' : String) (password : Text) (d d' : Door)
    → str_eq sid "" ≡ false
    → login k key sid (decoded password) d ≡ (session_answer sid', d')
    → ((verify_password k password d.site).0 ≡ ok true)
      × IsSession sid' (Site.now d.site + session_life) d'
unfolding login
login-IsSession k key sid sid' password d d' named e =
    limited-IsSession k key sid sid' password _ d d' named e
