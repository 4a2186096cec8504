-- ===== src/Records/Settings.antt =====
-- internal/store/store.go: the table `settings`, a map from keys to values.
use opencode_backend.Base.{
  arith, ℕ, Bool, true, false, String, Option, none, some, List, [], ◌∷◌, ◌++◌, ◌≡◌, refl, ap, ◌∙◌,
  if◌then◌else◌, str_eq, eq_iff, Bool-cases, inl, inr,
}
use opencode_backend.Exec.{Result, ok, err, not_found, Exec}
use opencode_backend.Sql.{find_where, exists_where, update_where}
use opencode_backend.Records.Site.{Site, Setting, ask}

abbrev pub has_key : String → Setting → Bool
has_key key r = str_eq r.key key

abbrev pub found_value : Option Setting → Result String
found_value none = err not_found
found_value (some r) = ok r.value

unfoldable pub get_setting : String → Exec Site String
unfolding ask find_where
get_setting key = ask (λ s. (found_value (find_where (has_key key) s.settings), s))

-- INSERT ... ON CONFLICT(key) DO UPDATE SET value = excluded.value, updated_at = excluded.updated_at
unfoldable pub upsert : String → String → ℕ → List Setting → List Setting
unfolding exists_where update_where
upsert key value now rows =
    if exists_where (has_key key) rows
    then update_where (has_key key) (λ r. record r { value = value; updated_at = now }) rows
    else rows ++ record { key = key; value = value; updated_at = now } ∷ []

unfoldable pub set_setting : String → String → Exec Site (Unit {0})
unfolding ask upsert
set_setting key value =
    ask (λ s. (ok tt, record s { settings = upsert key value s.now s.settings }))

-- A call of SetSetting at a time, and whether the database refuses its statement.
pub record Write : Type 0 where
  pub key : String
  pub value : String
  pub at : ℕ
  pub refused : Bool

unfoldable pub run_writes : List Write → Site → Site
unfolding set_setting
run_writes [] s = s
run_writes (w ∷ ws) s =
    run_writes ws (set_setting w.key w.value (record s { now = w.at; faults = w.refused ∷ [] })).1

-- The same calls on a function: a refused one changes nothing.
unfoldable pub replay : List Write → (String → Option String) → String → Option String
replay [] f key = f key
replay (w ∷ ws) f key =
    replay ws (λ k. if w.refused then f k else if str_eq w.key k then some w.value else f k) key

abbrev pub value_of : Option Setting → Option String
value_of none = none
value_of (some r) = some r.value

abbrev pub setting_of : Site → String → Option String
setting_of s key = value_of (find_where (has_key key) s.settings)

append-setting_of :
    (key k value : String) (now : ℕ) (rows : List Setting)
    → exists_where (has_key key) rows ≡ false
    → value_of (
        find_where (has_key k) (rows ++ record { key = key; value = value; updated_at = now } ∷ []))
      ≡ (if str_eq key k then some value else value_of (find_where (has_key k) rows))
unfolding find_where exists_where
append-setting_of key k value now [] h = ground arith
append-setting_of key k value now (r ∷ rows) h =
    ground (
      arith,
      append-setting_of key k value now rows,
      eq_iff r.key k,
      eq_iff r.key key,
      eq_iff key k,
    )

update-other :
    (key k value : String) (now : ℕ) (rows : List Setting)
    → str_eq key k ≡ false
    → value_of (
        find_where
          (has_key k)
          (update_where (has_key key) (λ r. record r { value = value; updated_at = now }) rows))
      ≡ value_of (find_where (has_key k) rows)
unfolding find_where update_where
update-other key k value now [] h = refl
update-other key k value now (r ∷ rows) h = elim (Bool-cases (str_eq r.key key)) [
  | inl e ↦
      let differ : str_eq r.key k ≡ false =
        ground (arith, eq_iff r.key k, eq_iff r.key key, eq_iff key k) in
      rw (e, differ) (update-other key k value now rows h)
  | inr e ↦ rw e (ground (arith, update-other key k value now rows h))
]

update-same :
    (key value : String) (now : ℕ) (rows : List Setting)
    → exists_where (has_key key) rows ≡ true
    → value_of (
        find_where
          (has_key key)
          (update_where (has_key key) (λ r. record r { value = value; updated_at = now }) rows))
      ≡ some value
unfolding find_where exists_where update_where
update-same key value now [] h = ground arith
update-same key value now (r ∷ rows) h = elim (Bool-cases (str_eq r.key key)) [
  | inl e ↦ rw e (rw e refl)
  | inr e ↦ rw e (rw e (update-same key value now rows (rw e at h)))
]

pub upsert-setting_of :
    (key k value : String) (now : ℕ) (rows : List Setting)
    → value_of (find_where (has_key k) (upsert key value now rows))
      ≡ (if str_eq key k then some value else value_of (find_where (has_key k) rows))
unfolding upsert
upsert-setting_of key k value now rows = elim (Bool-cases (exists_where (has_key key) rows)) [
  | inr e ↦ rw e (append-setting_of key k value now rows e)
  | inl e ↦ elim (Bool-cases (str_eq key k)) [
    | inr other ↦ rw (e, other) (update-other key k value now rows other)
    | inl same ↦
        let equal : key ≡ k = ground (arith, eq_iff key k) in
        rw (e, same) (rw (← equal) (update-same key value now rows e))
  ]
]

set_setting-setting_of :
    (w : Write) (s : Site) (k : String)
    → setting_of (set_setting w.key w.value (record s { now = w.at; faults = w.refused ∷ [] })).1 k
      ≡ (if w.refused
          then setting_of s k
          else if str_eq w.key k
          then some w.value
          else setting_of s k)
unfolding set_setting ask
set_setting-setting_of w s k = elim (Bool-cases w.refused) [
  | inl e ↦ rw e refl
  | inr e ↦ rw e (upsert-setting_of w.key k w.value w.at s.settings)
]

replay-ext :
    (ws : List Write) (f g : String → Option String)
    → ((k : String) → f k ≡ g k)
    → (k : String) → replay ws f k ≡ replay ws g k
unfolding replay
replay-ext [] f g h k = h k
replay-ext (w ∷ ws) f g h k =
    replay-ext ws _ _
      (λ q. ap (λ v. if w.refused then v else if str_eq w.key q then some w.value else v) (h q)) k

run_writes-setting_of :
    (ws : List Write) (s : Site) (k : String)
    → setting_of (run_writes ws s) k ≡ replay ws (setting_of s) k
unfolding run_writes replay
run_writes-setting_of [] s k = refl
run_writes-setting_of (w ∷ ws) s k =
    run_writes-setting_of ws _ k ∙ replay-ext ws _ _ (set_setting-setting_of w s) k

-- What GetSetting returns for a value, and for none.
abbrev pub answered : Option String → Result String
answered none = err not_found
answered (some v) = ok v

pub found-answered : (r : Option Setting) → found_value r ≡ answered (value_of r)
found-answered none = refl
found-answered (some r) = refl

-- The settings refine a function from keys to values: after any calls of SetSetting, some of them
-- refused by the database, a GetSetting that the database answers returns what the same calls give
-- on a function, and ErrNotFound for a key without a value.
pub run_writes-replay :
    (ws : List Write) (s : Site) (key : String)
    → (get_setting key (record (run_writes ws s) { faults = [] })).0
      ≡ answered (replay ws (setting_of s) key)
unfolding get_setting ask
run_writes-replay ws s key = found-answered _ ∙ ap answered (run_writes-setting_of ws s key)
