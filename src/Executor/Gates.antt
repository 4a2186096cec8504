-- ===== src/Executor/Gates.antt =====
-- internal/tasks/executor.go: the gates that serialize the tasks of one upstream session, `hold`,
-- `release` and the part of `runClaimed` that uses them. A `*sessionGate` is the number of its
-- creation; its mutex is Go's, so at most one worker has it.
pub mod Exclusion
use opencode_backend.Base.{
  ℕ, suc, ◌-◌, ◌+◌, Bool, true, false, String, Option, none, some, List, [], ◌∷◌, ◌++◌, ◌==◌,
  str_eq, if◌then◌else◌, ◌≡◌,
}
use opencode_backend.Sql.{delete_where, count_where}

-- `e.gates`, the field `holders` of each gate, and the number of the next gate.
pub record Gates : Type 0 where
  pub gates : List (String × ℕ)
  pub holders : ℕ → ℕ
  pub next : ℕ

abbrev pub is_session : String → String × ℕ → Bool
is_session s g = str_eq g.0 s

unfoldable pub gate_of : String → List (String × ℕ) → Option ℕ
gate_of s [] = none
gate_of s (g ∷ gs) = let rest = gate_of s gs in if is_session s g then some g.1 else rest

abbrev pub set_holders : ℕ → ℕ → (ℕ → ℕ) → ℕ → ℕ
set_holders p n h q = if q == p then n else h q

abbrev pub hold_found : String → Option ℕ → Gates → ℕ × Gates
hold_found s (some p) g = (p, record g { holders = set_holders p (suc (g.holders p)) g.holders })
hold_found s none g = (
  g.next,
  record g {
    gates = (s, g.next) ∷ g.gates;
    holders = set_holders g.next 1 g.holders;
    next = suc g.next;
  },
)

-- `none` is the nil gate of a task without a session.
unfoldable pub hold : String → Gates → Option ℕ × Gates
unfolding gate_of
hold s g =
    if str_eq s ""
    then (none, g)
    else (some (hold_found s (gate_of s g.gates) g).0, (hold_found s (gate_of s g.gates) g).1)

-- `g.holders--`, and `delete(e.gates, g.sessionID)` where no holder is left; `hold` counted this one,
-- so the difference is the integer's.
unfoldable pub release : String → ℕ → Gates → Gates
release s p g =
    let left = g.holders p - 1 in
    record g {
      gates = if left == 0 then delete_where (is_session s) g.gates else g.gates;
      holders = set_holders p left g.holders;
    }

-- The workers in `runClaimed` with a gate, each by its session and gate: before `g.mu.Lock()`, in
-- `execute`, and between the unlock and the release.
pub record Crew : Type 0 where
  pub gates : Gates
  pub waiting : List (String × ℕ)
  pub executing : List (String × ℕ)
  pub leaving : List (String × ℕ)

abbrev pub on_gate : ℕ → String × ℕ → Bool
on_gate p t = t.1 == p

-- `on_gate` workers of a list
unfoldable pub held : ℕ → List (String × ℕ) → ℕ
held p ts = count_where (on_gate p) ts

abbrev pub entered : String → Crew → Option ℕ × Gates → Crew
entered s c (none, g) = c
entered s c (some p, g) = record c { gates = g; waiting = (s, p) ∷ c.waiting }

pub data Step : Crew → Crew → Type 0 where
  enters : {c : Crew} (s : String) → Step c (entered s c (hold s c.gates))
  locks :
      {c : Crew} (xs ys : List (String × ℕ)) (t : String × ℕ)
      → c.waiting ≡ xs ++ t ∷ ys
      → held t.1 c.executing ≡ 0
      → Step c (record c { waiting = xs ++ ys; executing = t ∷ c.executing })
  unlocks :
      {c : Crew} (xs ys : List (String × ℕ)) (t : String × ℕ)
      → c.executing ≡ xs ++ t ∷ ys
      → Step c (record c { executing = xs ++ ys; leaving = t ∷ c.leaving })
  leaves :
      {c : Crew} (xs ys : List (String × ℕ)) (t : String × ℕ)
      → c.leaving ≡ xs ++ t ∷ ys
      → Step c (record c { leaving = xs ++ ys; gates = release t.0 t.1 c.gates })

unfoldable pub no_workers : Crew
no_workers = record {
  gates = record { gates = []; holders = λ p. 0; next = 0 };
  waiting = [];
  executing = [];
  leaving = [];
}

pub data Reachable : Crew → Type 0 where
  starts : Reachable no_workers
  steps : {c c' : Crew} → Reachable c → Step c c' → Reachable c'
