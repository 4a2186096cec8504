-- ===== src/Records/Site.antt =====
-- The tables of internal/store/migrate.go beside `tasks`, `rules` and `rule_executions`, the clock
-- that CURRENT_TIMESTAMP and time.Now() read, and the coming statements that the database refuses.
use opencode_backend.Base.{ℕ, Bool, true, false, String, Option, List, [], ◌∷◌, ◌≡◌, refl}
use opencode_backend.Exec.{Result, ok, err, database, Exec}
use opencode_backend.Automation.Text.{Text}

pub record Setting : Type 0 where
  pub key : String
  pub value : String
  pub updated_at : ℕ

pub record Token : Type 0 where
  pub id : String
  pub name : String
  pub token_hash : String
  pub created_at : ℕ
  pub revoked_at : Option ℕ
  pub last_used : Option ℕ

pub record WebSession : Type 0 where
  pub id : String
  pub expires_at : ℕ

pub record SessionEvent : Type 0 where
  pub id : ℕ
  pub session_id : Text
  pub event_type : Text
  pub payload : Text
  pub created_at : ℕ

-- A row of `session_unread`.
pub record Unread : Type 0 where
  pub session_id : Text
  pub unread : Bool
  pub updated_at : ℕ

pub record Archive : Type 0 where
  pub id : String
  pub session_id : String
  pub title : String
  pub format : String
  pub content : String
  pub raw_messages : String
  pub size : ℕ
  pub created_at : ℕ

pub record AuditEntry : Type 0 where
  pub id : ℕ
  pub token_id : String
  pub token_name : String
  pub method : String
  pub path : String
  pub status : ℕ
  pub created_at : ℕ

-- `next_event` and `next_entry` are the counters of the generated ids.
pub record Site : Type 0 where
  pub settings : List Setting
  pub tokens : List Token
  pub web_sessions : List WebSession
  pub events : List SessionEvent
  pub next_event : ℕ
  pub unread : List Unread
  pub archives : List Archive
  pub audit : List AuditEntry
  pub next_entry : ℕ
  pub now : ℕ
  pub faults : List Bool
  pub postgres : Bool

abbrev pub site_answer :
    {A : Type 0} → List Bool → (Site → Result A × Site) → Site → Result A × Site
site_answer [] stmt s = stmt (record s { faults = [] })
site_answer (true ∷ fs) stmt s = (err database, record s { faults = fs })
site_answer (false ∷ fs) stmt s = stmt (record s { faults = fs })

-- One statement: refused, or run on the tables.
unfoldable pub ask : {A : Type 0} → (Site → Result A × Site) → Exec Site A
ask stmt s = site_answer s.faults stmt s

-- A statement that succeeds ran on the tables.
pub ask-ran :
    {A : Type 0} (stmt : Site → Result A × Site) (a : A) (s : Site)
    → (ask stmt s).0 ≡ ok a
    → (fs : List Bool) × (ask stmt s ≡ stmt (record s { faults = fs }))
unfolding ask
ask-ran stmt a s = go s.faults
  where
    go :
        (fs : List Bool)
        → (site_answer fs stmt s).0 ≡ ok a
        → (gs : List Bool) × (site_answer fs stmt s ≡ stmt (record s { faults = gs }))
    go [] e = ([], refl)
    go (true ∷ fs) e = cc
    go (false ∷ fs) e = (fs, refl)

-- A statement that leaves the clock alone leaves it alone when refused, too.
pub ask-now :
    {A : Type 0} (stmt : Site → Result A × Site)
    → ((s : Site) → Site.now (stmt s).1 ≡ s.now)
    → (s : Site) → Site.now (ask stmt s).1 ≡ s.now
unfolding ask
ask-now stmt keep s = go s.faults
  where
    go : (fs : List Bool) → Site.now (site_answer fs stmt s).1 ≡ s.now
    go [] = keep (record s { faults = [] })
    go (true ∷ fs) = refl
    go (false ∷ fs) = keep (record s { faults = fs })
