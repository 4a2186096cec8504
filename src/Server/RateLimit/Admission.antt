-- ===== src/Server/RateLimit/Admission.antt =====
-- The limiter admits at most `limit` attempts of a key in any window of time.
use opencode_backend.Base.{
  eq_iff, ℕ, ◌≤◌, ◌<◌, Bool, true, false, String, List, [], ◌∷◌, ◌++◌, leb, length, str_eq,
  if◌then◌else◌, ◌≡◌, refl, sym, ap, ◌∙◌, arith, Bool-cases, inl, inr, length-append, ◌&&◌,
}
use opencode_backend.Sql.{select_where}
use opencode_backend.Server.RateLimit.{
  LoginLimiter, is_recent, attempts_of, set_attempts, prune, allow, clear, new_login_limiter,
}
use opencode_backend.Server.RateLimit.Window.{
  recent, DistinctKeys, select-append, recent-recent, attempts_of-set, attempts_of-delete,
  attempts_of-prune, DistinctKeys-set, DistinctKeys-delete, DistinctKeys-prune,
}

-- A login attempt of a key at a time, or the reset that follows a successful one.
pub data Event : Type 0 where
  tries : String → ℕ → Event
  resets : String → Event

-- The times at which `who` was admitted since its last reset.
unfoldable pub admitted_times : String → List Event → LoginLimiter → List ℕ → List ℕ
unfolding allow clear
admitted_times who [] l past = past
admitted_times who (tries k t ∷ es) l past =
    admitted_times who es (allow k t l).1
      (if (allow k t l).0 && str_eq k who then past ++ t ∷ [] else past)
admitted_times who (resets k ∷ es) l past =
    admitted_times who es (clear k l) (if str_eq k who then [] else past)

-- No attempt is earlier than the one before it.
abbrev pub Ordered : ℕ → List Event → Type 0
Ordered since [] = Unit
Ordered since (tries k t ∷ es) = since ≤ t × Ordered t es
Ordered since (resets k ∷ es) = Ordered since es

abbrev pub last_time : ℕ → List Event → ℕ
last_time since [] = since
last_time since (tries k t ∷ es) = last_time t es
last_time since (resets k ∷ es) = last_time since es

record Tracks (who : String) (now : ℕ) (past : List ℕ) (l : LoginLimiter) : Type 0 where
  distinct : DistinctKeys l.attempts
  same :
      (later : ℕ)
      → now ≤ later
      → recent l.window later (attempts_of who l.attempts) ≡ recent l.window later past
  bounded : (later : ℕ) → now ≤ later → length (recent l.window later past) ≤ l.limit

length-recent :
    (window now later : ℕ) (ts : List ℕ)
    → now ≤ later
    → length (recent window later ts) ≤ length (recent window now ts)
unfolding recent select_where
length-recent window now later [] h = omega arith
length-recent window now later (t ∷ ts) h = ground (arith, length-recent window now later ts h)

recent-one : (window later t : ℕ) → length (recent window later (t ∷ [])) ≤ 1
unfolding recent select_where
recent-one window later t = ground arith

Tracks-later :
    (who : String) (now t : ℕ) (past : List ℕ) (l : LoginLimiter)
    → now ≤ t
    → Tracks who now past l
    → Tracks who t past l
Tracks-later who now t past l h k = record {
  distinct = k.distinct;
  same = λ later q. k.same later (omega arith);
  bounded = λ later q. k.bounded later (omega arith);
}

recent-same :
    (who key : String) (window now later : ℕ) (m : List (String × List ℕ))
    → now ≤ later
    → recent window later
        (if str_eq key who then recent window now (attempts_of key m) else attempts_of who m)
      ≡ recent window later (attempts_of who m)
recent-same who key window now later m h = elim (Bool-cases (str_eq key who)) [
  | inl e ↦ rw e (
      recent-recent window now later (attempts_of key m) h
      ∙ ap (λ k. recent window later (attempts_of k m)) ((eq_iff key who).0 e))
  | inr e ↦ rw e refl
]

Tracks-denied :
    (who key : String) (now : ℕ) (past : List ℕ) (l : LoginLimiter)
    → Tracks who now past l
    → Tracks who now past (record l {
      attempts = set_attempts key (recent l.window now (attempts_of key l.attempts)) l.attempts;
    })
Tracks-denied who key now past l k = record {
  distinct = DistinctKeys-set key _ l.attempts k.distinct;
  same = λ later q.
      ap (recent l.window later) (attempts_of-set key who _ l.attempts)
      ∙ recent-same who key l.window now later l.attempts q
      ∙ k.same later q;
  bounded = k.bounded;
}

Tracks-reset :
    (who key : String) (now : ℕ) (past : List ℕ) (l : LoginLimiter)
    → Tracks who now past l
    → Tracks who now (if str_eq key who then [] else past) (clear key l)
unfolding clear recent select_where
Tracks-reset who key now past l k = record {
  distinct = DistinctKeys-delete key l.attempts k.distinct;
  same = λ later q.
      ap (recent l.window later) (attempts_of-delete key who l.attempts)
      ∙ elim (Bool-cases (str_eq key who)) [ inl e ↦ rw e refl | inr e ↦ rw e (k.same later q) ];
  bounded = λ later q. elim (Bool-cases (str_eq key who)) [
    | inl e ↦ rw e (omega arith)
    | inr e ↦ rw e (k.bounded later q)
  ];
}

-- The map that an admitted attempt leaves.
admitted_map : String → ℕ → LoginLimiter → List (String × List ℕ)
admitted_map key now l =
    prune l.window now
      (set_attempts key (recent l.window now (attempts_of key l.attempts) ++ now ∷ []) l.attempts)

recent-append :
    (window later : ℕ) (xs ys : List ℕ)
    → recent window later (xs ++ ys) ≡ recent window later xs ++ recent window later ys
unfolding recent
recent-append window later xs ys = select-append (is_recent window later) xs ys

attempts_of-equal :
    (who key : String) (l : LoginLimiter)
    → str_eq key who ≡ true
    → attempts_of key l.attempts ≡ attempts_of who l.attempts
attempts_of-equal who key l e = ap (λ k. attempts_of k l.attempts) ((eq_iff key who).0 e)

recent-admitted :
    (who key : String) (now later : ℕ) (past : List ℕ) (l : LoginLimiter)
    → now ≤ later
    → Tracks who now past l
    → str_eq key who ≡ true
    → recent l.window later (recent l.window now (attempts_of key l.attempts) ++ now ∷ [])
      ≡ recent l.window later (past ++ now ∷ [])
recent-admitted who key now later past l q k e =
    recent-append l.window later _ (now ∷ [])
    ∙ ap (λ ts. ts ++ recent l.window later (now ∷ []))
        (recent-recent l.window now later _ q
          ∙ ap (recent l.window later) (attempts_of-equal who key l e)
          ∙ k.same later q)
    ∙ sym (recent-append l.window later past (now ∷ []))

length-one_more :
    (who key : String) (now later : ℕ) (past : List ℕ) (l : LoginLimiter)
    → now ≤ later
    → Tracks who now past l
    → length (recent l.window now (attempts_of key l.attempts)) < l.limit
    → str_eq key who ≡ true
    → length (recent l.window later (past ++ now ∷ [])) ≤ l.limit
length-one_more who key now later past l q k room e =
    let seen : length (recent l.window now (attempts_of key l.attempts))
        ≡ length (recent l.window now past) =
      ap (λ ts. length (recent l.window now ts)) (attempts_of-equal who key l e)
      ∙ ap length (k.same now (omega arith)) in
    omega (
      arith,
      seen,
      ap length (recent-append l.window later past (now ∷ [])),
      length-append (recent l.window later past) (recent l.window later (now ∷ [])),
      length-recent l.window now later past q,
      recent-one l.window later now,
    )

attempts_of-admitted :
    (who key : String) (now later : ℕ) (past : List ℕ) (l : LoginLimiter)
    → now ≤ later
    → Tracks who now past l
    → recent l.window later (attempts_of who (admitted_map key now l))
      ≡ recent l.window later (if str_eq key who then past ++ now ∷ [] else past)
unfolding admitted_map
attempts_of-admitted who key now later past l q k =
    ap (recent l.window later)
      (attempts_of-prune l.window now who _ (DistinctKeys-set key _ l.attempts k.distinct))
    ∙ recent-recent l.window now later _ q
    ∙ ap (recent l.window later) (attempts_of-set key who _ l.attempts)
    ∙ elim (Bool-cases (str_eq key who)) [
      | inl e ↦ rw e (recent-admitted who key now later past l q k e)
      | inr e ↦ rw e (k.same later q)
    ]

length-past :
    (who key : String) (now later : ℕ) (past : List ℕ) (l : LoginLimiter)
    → now ≤ later
    → Tracks who now past l
    → length (recent l.window now (attempts_of key l.attempts)) < l.limit
    → length (recent l.window later (if str_eq key who then past ++ now ∷ [] else past)) ≤ l.limit
length-past who key now later past l q k room = elim (Bool-cases (str_eq key who)) [
  | inl e ↦ rw e (length-one_more who key now later past l q k room e)
  | inr e ↦ rw e (k.bounded later q)
]

Tracks-admitted :
    (who key : String) (now : ℕ) (past : List ℕ) (l : LoginLimiter)
    → Tracks who now past l
    → leb l.limit (length (recent l.window now (attempts_of key l.attempts))) ≡ false
    → Tracks who now
        (if str_eq key who then past ++ now ∷ [] else past)
        (record l { attempts = admitted_map key now l })
unfolding admitted_map
Tracks-admitted who key now past l k room = record {
  distinct = DistinctKeys-prune l.window now _ (DistinctKeys-set key _ l.attempts k.distinct);
  same = λ later q. attempts_of-admitted who key now later past l q k;
  bounded = λ later q. length-past who key now later past l q k (ground arith);
}

Tracks-choice :
    (who key : String) (now : ℕ) (past : List ℕ) (full : Bool) (denied admitted : LoginLimiter)
    → Tracks who now past denied
    → (full ≡ false → Tracks who now (if str_eq key who then past ++ now ∷ [] else past) admitted)
    → Tracks who now
        (if (if◌then◌else◌ {A = Bool × LoginLimiter} full (false, denied) (true, admitted)).0
            && str_eq key who
          then past ++ now ∷ []
          else past)
        (if◌then◌else◌ {A = Bool × LoginLimiter} full (false, denied) (true, admitted)).1
Tracks-choice who key now past true d a kd ka = kd
Tracks-choice who key now past false d a kd ka = ka refl

Tracks-allow :
    (who key : String) (now : ℕ) (past : List ℕ) (l : LoginLimiter)
    → Tracks who now past l
    → Tracks who now
        (if (allow key now l).0 && str_eq key who then past ++ now ∷ [] else past)
        (allow key now l).1
unfolding allow recent admitted_map
Tracks-allow who key now past l k =
    Tracks-choice who key now past _ _ _ (Tracks-denied who key now past l k)
      (Tracks-admitted who key now past l k)

window-allow :
    (key : String) (now : ℕ) (l : LoginLimiter)
    → ((allow key now l).1.window ≡ l.window) × ((allow key now l).1.limit ≡ l.limit)
unfolding allow
window-allow key now l = ground arith

admitted_times-bounded :
    (who : String) (since later : ℕ) (es : List Event) (past : List ℕ) (l : LoginLimiter)
    → Ordered since es
    → last_time since es ≤ later
    → Tracks who since past l
    → length (recent l.window later (admitted_times who es l past)) ≤ l.limit
unfolding admitted_times
admitted_times-bounded who since later [] past l o h k = k.bounded later h
admitted_times-bounded who since later (resets key ∷ es) past l o h k =
    admitted_times-bounded who since later es _ (clear key l) o h
      (Tracks-reset who key since past l k)
admitted_times-bounded who since later (tries key t ∷ es) past l (le, o) h k =
    let (same_window, same_limit) = window-allow key t l in
    let bound =
      admitted_times-bounded who t later es _ (allow key t l).1 o h
        (Tracks-allow who key t past l (Tracks-later who since t past l le k)) in
    rw (same_window, same_limit) at bound

-- The server's limiter starts empty. After any attempts and resets in order of time, at most
-- `limit` of the attempts of a key that were admitted since its last reset lie in the window that
-- ends at `later`, for every `later` that is not before the last attempt.
pub allow-Limited :
    (who : String) (limit window since later : ℕ) (es : List Event)
    → Ordered since es
    → last_time since es ≤ later
    → length (recent window later (admitted_times who es (new_login_limiter limit window) []))
      ≤ limit
unfolding new_login_limiter DistinctKeys recent select_where attempts_of
allow-Limited who limit window since later es o h =
    admitted_times-bounded who since later es [] _ o h
      (record { distinct = tt; same = λ t q. refl; bounded = λ t q. omega arith })
