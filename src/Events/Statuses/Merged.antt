-- ===== src/Events/Statuses/Merged.antt =====
-- handleSessionStatusAgg of internal/server/events.go: the status that each session gets.
use opencode_backend.Base.{
  not, ℕ, ◌-◌, Bool, true, false, Option, none, some, List, [], ◌∷◌, ◌≡◌, refl, sym, ap, ◌∙◌,
  if◌then◌else◌, ltb, ◌&&◌, ◌||◌, Bool-cases, Option-cases, inl, inr,
}
use opencode_backend.Automation.Text.{Text}
use opencode_backend.Stt.Runes.{equal_runes, equal_runes-eq, equal_runes_refl}
use opencode_backend.Events.Collector.{store_entry}
use opencode_backend.Events.Statuses.{
  get_entry, put_full, take_snapshot, add_missing, add_statuses, correct_active, merge_statuses,
  reads_idle, busy, active_window,
}

differ :
    (q k id : Text) → equal_runes q k ≡ false → equal_runes q id ≡ true → equal_runes k id ≡ false
differ q k id e f = elim (Bool-cases (equal_runes k id)) [
  | inr g ↦ g
  | inl g ↦
      let here : q ≡ id = equal_runes-eq q id f in
      let there : k ≡ id = equal_runes-eq k id g in
      let met : equal_runes id id ≡ true = equal_runes_refl id in cc
]

shadowed :
    (b : Bool) (v u r : Option Text) → (if b then v else r) ≡ (if b then v else if b then u else r)
shadowed true v u r = refl
shadowed false v u r = refl

get-store :
    (id k : Text) (v : Text) (rows : List (Text × Text))
    → get_entry id (store_entry k v rows) ≡ (if equal_runes k id then some v else get_entry id rows)
unfolding get_entry store_entry
get-store id k v [] = refl
get-store id k v ((q, u) ∷ rows) = elim (Bool-cases (equal_runes q k)) [
  | inl e ↦
      let same : q ≡ k = equal_runes-eq q k e in
      rw e (rw same (shadowed (equal_runes k id) (some v) (some u) (get_entry id rows)))
  | inr e ↦ rw e (elim (Bool-cases (equal_runes q id)) [
    | inr f ↦ rw f (get-store id k v rows)
    | inl f ↦ let other : equal_runes k id ≡ false = differ q k id e f in rw f (rw other refl)
  ])
]

abbrev pub or_else : Option Text → Option Text → Option Text
or_else none b = b
or_else (some a) b = some a

-- A status, where it is not empty.
abbrev pub put_status : Text → Option Text
put_status [] = none
put_status (c ∷ cs) = some (c ∷ cs)

-- The first status that is not empty, among the entries of a session.
unfoldable pub full_entry : Text → List (Text × Text) → Option Text
full_entry id [] = none
full_entry id ((k, st) ∷ rows) =
    or_else (if equal_runes k id then put_status st else none) (full_entry id rows)

-- Whether the session has shown message activity in the last 30 seconds.
unfoldable pub is_active : ℕ → Text → List (Text × ℕ) → Bool
is_active now id [] = false
is_active now id ((k, last) ∷ rows) =
    (equal_runes k id && not (ltb active_window (now - last))) || is_active now id rows

-- A status that reads idle is `busy` for an active session.
abbrev pub corrected : Bool → Option Text → Option Text
corrected active base = if active && reads_idle base then some busy else base

or_else-none : (a : Option Text) → or_else a none ≡ a
or_else-none none = refl
or_else-none (some a) = refl

-- An entry of another session changes nothing here.
missing-other :
    (id k st : Text) (out : List (Text × Text))
    → equal_runes k id ≡ false
    → get_entry id (add_missing k st (get_entry k out) out) ≡ get_entry id out
missing-other id k st out other = elim (Option-cases (get_entry k out)) [
  | inr (v, e) ↦ rw e refl
  | inl e ↦ rw e (put_other st)
]
  where
    put_other : (st : Text) → get_entry id (put_full k (some st) out) ≡ get_entry id out
    put_other [] = refl
    put_other (c ∷ cs) = get-store id k (c ∷ cs) out ∙ rw other refl

missing-same :
    (id st : Text) (out : List (Text × Text)) (more : Option Text)
    → or_else (get_entry id (add_missing id st (get_entry id out) out)) more
      ≡ or_else (get_entry id out) (or_else (put_status st) more)
missing-same id st out more = elim (Option-cases (get_entry id out)) [
  | inr (v, e) ↦ rw (e, add_missing) (rw e refl)
  | inl e ↦ rw (e, add_missing) (put_same st e)
]
  where
    put_same :
        (st : Text)
        → get_entry id out ≡ none
        → or_else (get_entry id (put_full id (some st) out)) more ≡ or_else (put_status st) more
    put_same [] e = rw e refl
    put_same (c ∷ cs) e =
        ap (λ g. or_else g more) (get-store id id (c ∷ cs) out) ∙ rw (equal_runes_refl id) refl

add_missing-get :
    (id k st : Text) (out : List (Text × Text)) (more : Option Text)
    → or_else (get_entry id (add_missing k st (get_entry k out) out)) more
      ≡ or_else (get_entry id out) (or_else (if equal_runes k id then put_status st else none) more)
unfolding get_entry
add_missing-get id k st out more = elim (Bool-cases (equal_runes k id)) [
  | inr other ↦ rw other (ap (λ g. or_else g more) (missing-other id k st out other))
  | inl here ↦
      let same : k ≡ id = equal_runes-eq k id here in
      rw here (rw same (missing-same id st out more))
]

add_statuses-get :
    (id : Text) (rows out : List (Text × Text))
    → get_entry id (add_statuses rows out) ≡ or_else (get_entry id out) (full_entry id rows)
unfolding add_statuses full_entry
add_statuses-get id [] out = sym (or_else-none (get_entry id out))
add_statuses-get id ((k, st) ∷ rows) out =
    add_statuses-get id rows (add_missing k st (get_entry k out) out)
    ∙ add_missing-get id k st out (full_entry id rows)

-- One entry of the activity map.
correct_step : ℕ → Text → ℕ → List (Text × Text) → List (Text × Text)
correct_step now k last out =
    if ltb active_window (now - last)
    then out
    else if reads_idle (get_entry k out)
    then store_entry k busy out
    else out

step-other :
    (now : ℕ) (id k : Text) (last : ℕ) (out : List (Text × Text))
    → equal_runes k id ≡ false
    → get_entry id (correct_step now k last out) ≡ get_entry id out
unfolding correct_step
step-other now id k last out other = elim (Bool-cases (ltb active_window (now - last))) [
  | inl old ↦ rw old refl
  | inr recent ↦ elim (Bool-cases (reads_idle (get_entry k out))) [
    | inl e ↦ rw (recent, e) (get-store id k busy out ∙ rw other refl)
    | inr e ↦ rw (recent, e) refl
  ]
]

busy-stays : (rest : Bool) → corrected rest (some busy) ≡ some busy
unfolding equal_runes
busy-stays true = refl
busy-stays false = refl

full-stays :
    (rest : Bool) (base : Option Text) → reads_idle base ≡ false → corrected rest base ≡ base
full-stays true base e = rw e refl
full-stays false base e = refl

get-busy :
    (id : Text) (out : List (Text × Text)) → get_entry id (store_entry id busy out) ≡ some busy
get-busy id out = get-store id id busy out ∙ rw (equal_runes_refl id) refl

step-same :
    (now : ℕ) (id : Text) (last : ℕ) (out : List (Text × Text)) (rest : Bool)
    → corrected rest (get_entry id (correct_step now id last out))
      ≡ corrected ((true && not (ltb active_window (now - last))) || rest) (get_entry id out)
unfolding correct_step
step-same now id last out rest = elim (Bool-cases (ltb active_window (now - last))) [
  | inl old ↦ rw old refl
  | inr recent ↦ elim (Bool-cases (reads_idle (get_entry id out))) [
    | inl e ↦ rw (recent, e) (ap (corrected rest) (get-busy id out) ∙ busy-stays rest)
    | inr e ↦ rw (recent, e) (full-stays rest (get_entry id out) e)
  ]
]

correct_step-get :
    (now : ℕ) (id k : Text) (last : ℕ) (out : List (Text × Text)) (rest : Bool)
    → corrected rest (get_entry id (correct_step now k last out))
      ≡ corrected
          ((equal_runes k id && not (ltb active_window (now - last))) || rest)
          (get_entry id out)
unfolding correct_step
correct_step-get now id k last out rest = elim (Bool-cases (equal_runes k id)) [
  | inr other ↦ rw other (ap (corrected rest) (step-other now id k last out other))
  | inl here ↦
      let same : k ≡ id = equal_runes-eq k id here in
      rw here (rw same (step-same now id last out rest))
]

correct_active-get :
    (now : ℕ) (id : Text) (rows : List (Text × ℕ)) (out : List (Text × Text))
    → get_entry id (correct_active now rows out)
      ≡ corrected (is_active now id rows) (get_entry id out)
unfolding correct_active is_active correct_step
correct_active-get now id [] out = refl
correct_active-get now id ((k, last) ∷ rows) out =
    correct_active-get now id rows (correct_step now k last out)
    ∙ correct_step-get now id k last out (is_active now id rows)

-- A type of the snapshot, where it is a string that is not empty.
abbrev pub full_type : Option Text → Option Text
full_type none = none
full_type (some t) = put_status t

-- The last type of a session among those of the snapshot that are not empty; a JSON object has at
-- most one.
unfoldable pub last_type : Text → List (Text × Option Text) → Option Text
last_type id [] = none
last_type id ((k, t) ∷ m) =
    or_else (last_type id m) (if equal_runes k id then full_type t else none)

abbrev pub snapshot_status : Text → Option (List (Text × Option Text)) → Option Text
snapshot_status id none = none
snapshot_status id (some m) = last_type id m

or_else_assoc : (a b c : Option Text) → or_else a (or_else b c) ≡ or_else (or_else a b) c
or_else_assoc none b c = refl
or_else_assoc (some a) b c = refl

put_full-get :
    (id k : Text) (t : Option Text) (out : List (Text × Text))
    → get_entry id (put_full k t out)
      ≡ or_else (if equal_runes k id then full_type t else none) (get_entry id out)
put_full-get id k none out = elim (Bool-cases (equal_runes k id)) [
  | inl e ↦ rw e refl
  | inr e ↦ rw e refl
]
put_full-get id k (some []) out = elim (Bool-cases (equal_runes k id)) [
  | inl e ↦ rw e refl
  | inr e ↦ rw e refl
]
put_full-get id k (some (c ∷ cs)) out =
    get-store id k (c ∷ cs) out
    ∙ elim (Bool-cases (equal_runes k id)) [ inl e ↦ rw e refl | inr e ↦ rw e refl ]

take_snapshot-get :
    (id : Text) (m : List (Text × Option Text)) (out : List (Text × Text))
    → get_entry id (take_snapshot m out) ≡ or_else (last_type id m) (get_entry id out)
unfolding take_snapshot last_type
take_snapshot-get id [] out = refl
take_snapshot-get id ((k, t) ∷ m) out =
    take_snapshot-get id m (put_full k t out)
    ∙ ap (or_else (last_type id m)) (put_full-get id k t out)
    ∙ or_else_assoc (last_type id m) (if equal_runes k id then full_type t else none)
        (get_entry id out)

-- The status that handleSessionStatusAgg reports for a session is the snapshot's where it has one,
-- else the one that the events gave; if that reads idle or is missing and the session has shown
-- message activity in the last 30 seconds, it is `busy`.
pub merge_statuses-get :
    (now : ℕ) (snapshot : Option (List (Text × Option Text))) (statuses : List (Text × Text))
    (activity : List (Text × ℕ)) (id : Text)
    → get_entry id (merge_statuses now snapshot statuses activity)
      ≡ corrected
          (is_active now id activity)
          (or_else (snapshot_status id snapshot) (full_entry id statuses))
unfolding merge_statuses get_entry
merge_statuses-get now none statuses activity id =
    correct_active-get now id activity (add_statuses statuses [])
    ∙ ap (corrected (is_active now id activity)) (add_statuses-get id statuses [])
merge_statuses-get now (some m) statuses activity id =
    correct_active-get now id activity (add_statuses statuses (take_snapshot m []))
    ∙ ap (corrected (is_active now id activity)) (
        add_statuses-get id statuses (take_snapshot m [])
        ∙ ap (λ g. or_else g (full_entry id statuses))
            (take_snapshot-get id m [] ∙ or_else-none (last_type id m)))
