-- ===== src/Executor/Gates/Exclusion.antt =====
-- Two tasks of one session are never executed at the same time.
use opencode_backend.Base.{
  ℕ, ◌-◌, ◌+◌, ◌≤◌, ◌<◌, true, false, String, Option, none, some, List, [], ◌∷◌, ◌++◌, ◌==◌, str_eq,
  if◌then◌else◌, ◌≡◌, refl, ap, sym, ◌∙◌, arith, eq_iff, eq_refl, Bool-cases, inl, inr, All,
  Option-cases,
}
use mathlib.Core.Option.{some-injective}
use opencode_backend.Sql.{delete_where, count_where}
use opencode_backend.Executor.Gates.{
  Gates, is_session, gate_of, hold_found, hold, release, Crew, on_gate, held, entered, Step, enters,
  locks, unlocks, leaves, no_workers, Reachable, starts, steps,
}

held-append : (p : ℕ) (xs ys : List (String × ℕ)) → held p (xs ++ ys) ≡ held p xs + held p ys
unfolding held count_where
held-append p [] ys = omega arith
held-append p (x ∷ xs) ys = ground (arith, held-append p xs ys)

none-some : (p : ℕ) (o : Option ℕ) → o ≡ none → o ≡ some p → ⊥
none-some p o e h = cc

-- A worker's gate is the one that the map has for its session.
record IsEntered (g : Gates) (t : String × ℕ) : Type 0 where
  gate : gate_of t.0 g.gates ≡ some t.1
  old : t.1 < g.next

record Coherent (c : Crew) : Type 0 where
  counted : (p : ℕ) → held p c.waiting + held p c.executing + held p c.leaving ≡ c.gates.holders p
  waiting : All (IsEntered c.gates) c.waiting
  executing : All (IsEntered c.gates) c.executing
  leaving : All (IsEntered c.gates) c.leaving
  single : (p : ℕ) → held p c.executing ≤ 1
  mapped : (s : String) (p : ℕ) → gate_of s c.gates.gates ≡ some p → p < c.gates.next

gate_of-delete :
    (s s' : String) (gs : List (String × ℕ))
    → gate_of s (delete_where (is_session s') gs) ≡ (if str_eq s' s then none else gate_of s gs)
unfolding gate_of delete_where
gate_of-delete s s' [] = ground arith
gate_of-delete s s' (g ∷ gs) =
    ground (arith, gate_of-delete s s' gs, eq_iff g.0 s', eq_iff g.0 s, eq_iff s' s)

All-remove :
    (P : String × ℕ → Type 0) (xs ys : List (String × ℕ)) (t : String × ℕ)
    → All P (xs ++ t ∷ ys)
    → P t × All P (xs ++ ys)
All-remove P [] ys t (h, k) = (h, k)
All-remove P (x ∷ xs) ys t (h, k) = let (this, rest) = All-remove P xs ys t k in (this, (h, rest))

held-remove :
    (p : ℕ) (xs ys : List (String × ℕ)) (t : String × ℕ)
    → held p (xs ++ t ∷ ys) ≡ (if on_gate p t then 1 else 0) + held p (xs ++ ys)
unfolding held count_where
held-remove p [] ys t = ground arith
held-remove p (x ∷ xs) ys t = ground (arith, held-remove p xs ys t)

Coherent-locks :
    (c : Crew) (xs ys : List (String × ℕ)) (t : String × ℕ)
    → c.waiting ≡ xs ++ t ∷ ys
    → held t.1 c.executing ≡ 0
    → Coherent c
    → Coherent (record c { waiting = xs ++ ys; executing = t ∷ c.executing })
unfolding held count_where
Coherent-locks c xs ys t e free k =
    let (this, rest) = All-remove (IsEntered c.gates) xs ys t (rw e at k.waiting) in
    record {
      counted = λ p. ground (arith, k.counted p, ap (held p) e, held-remove p xs ys t);
      waiting = rest;
      executing = (this, k.executing);
      leaving = k.leaving;
      single = λ p. ground (arith, k.single p, free);
      mapped = k.mapped;
    }

Coherent-unlocks :
    (c : Crew) (xs ys : List (String × ℕ)) (t : String × ℕ)
    → c.executing ≡ xs ++ t ∷ ys
    → Coherent c
    → Coherent (record c { executing = xs ++ ys; leaving = t ∷ c.leaving })
unfolding held count_where
Coherent-unlocks c xs ys t e k =
    let (this, rest) = All-remove (IsEntered c.gates) xs ys t (rw e at k.executing) in
    record {
      counted = λ p. ground (arith, k.counted p, ap (held p) e, held-remove p xs ys t);
      waiting = k.waiting;
      executing = rest;
      leaving = (this, k.leaving);
      single = λ p. ground (arith, k.single p, ap (held p) e, held-remove p xs ys t);
      mapped = k.mapped;
    }

-- Workers of one session have one gate.
same_gate :
    (g : Gates) (t u : String × ℕ)
    → IsEntered g t
    → IsEntered g u
    → str_eq t.0 u.0 ≡ true
    → t.1 ≡ u.1
same_gate g t u kt ku q =
    some-injective t.1 u.1
      (sym kt.gate ∙ ap (λ s. gate_of s g.gates) ((eq_iff t.0 u.0).0 q) ∙ ku.gate)

release-mapped :
    (s s' : String) (q p : ℕ) (g : Gates)
    → gate_of s (release s' q g).gates ≡ some p
    → gate_of s g.gates ≡ some p
unfolding release
release-mapped s s' q p g h = elim (Bool-cases (g.holders q - 1 == 0)) [
  | inl e ↦
      let found = sym (gate_of-delete s s' g.gates) ∙ (rw e at h) in
      elim (Bool-cases (str_eq s' s)) [
        | inl i ↦ absurd (none-some p none refl (rw i at found))
        | inr i ↦ rw i at found
      ]
  | inr e ↦ rw e at h
]

-- A worker that is left keeps its gate when another one leaves.
release-IsEntered :
    (g : Gates) (t u : String × ℕ)
    → IsEntered g t
    → IsEntered g u
    → ((g.holders t.1 - 1 == 0) ≡ true → on_gate t.1 u ≡ false)
    → IsEntered (release t.0 t.1 g) u
unfolding release
release-IsEntered g t u kt ku other = record {
  gate = elim (Bool-cases (g.holders t.1 - 1 == 0)) [
    | inl e ↦ rw e (
        gate_of-delete u.0 t.0 g.gates ∙ elim (Bool-cases (str_eq t.0 u.0)) [
          | inl q ↦ absurd (ground (arith, same_gate g t u kt ku q, other e))
          | inr q ↦ rw q ku.gate
        ])
    | inr e ↦ rw e ku.gate
  ];
  old = ku.old;
}

release-All :
    (g : Gates) (t : String × ℕ) (us : List (String × ℕ))
    → IsEntered g t
    → All (IsEntered g) us
    → ((g.holders t.1 - 1 == 0) ≡ true → held t.1 us ≡ 0)
    → All (IsEntered (release t.0 t.1 g)) us
unfolding held count_where
release-All g t [] kt ks none_left = tt
release-All g t (u ∷ us) kt (ku, ks) none_left = (
  release-IsEntered g t u kt ku (λ e. ground (arith, none_left e)),
  release-All g t us kt ks (λ e. ground (arith, none_left e)),
)

Coherent-leaves :
    (c : Crew) (xs ys : List (String × ℕ)) (t : String × ℕ)
    → c.leaving ≡ xs ++ t ∷ ys
    → Coherent c
    → Coherent (record c { leaving = xs ++ ys; gates = release t.0 t.1 c.gates })
Coherent-leaves c xs ys t e k =
    let (this, rest) = All-remove (IsEntered c.gates) xs ys t (rw e at k.leaving) in
    let here : held t.1 c.leaving ≡ 1 + held t.1 (xs ++ ys) =
      ap (held t.1) e ∙ held-remove t.1 xs ys t ∙ ground arith in
    record {
      counted = λ p.
          unfold release in
          ground (arith, k.counted p, k.counted t.1, ap (held p) e, held-remove p xs ys t);
      waiting =
          release-All c.gates t c.waiting this k.waiting (λ q. ground (arith, k.counted t.1, here));
      executing =
          release-All c.gates t c.executing this k.executing
            (λ q. ground (arith, k.counted t.1, here));
      leaving =
          release-All c.gates t (xs ++ ys) this rest (λ q. ground (arith, k.counted t.1, here));
      single = k.single;
      mapped = λ s p h. unfold release in k.mapped s p (release-mapped s t.0 t.1 p c.gates h);
    }

-- `hold` leaves the gates of the others alone.
hold-IsEntered :
    (s : String) (g : Gates) (o : Option ℕ) (u : String × ℕ)
    → gate_of s g.gates ≡ o
    → IsEntered g u
    → IsEntered (hold_found s o g).1 u
unfolding gate_of
hold-IsEntered s g none u e k = record {
  gate = elim (Bool-cases (str_eq s u.0)) [
    | inl q ↦ absurd (
        none-some u.1 (gate_of u.0 g.gates)
          (ap (λ i. gate_of i g.gates) (sym ((eq_iff s u.0).0 q)) ∙ e) k.gate)
    | inr q ↦ rw q k.gate
  ];
  old = omega (arith, k.old);
}
hold-IsEntered s g (some p) u e k = record { gate = k.gate; old = k.old }

hold-All :
    (s : String) (g : Gates) (o : Option ℕ) (us : List (String × ℕ))
    → gate_of s g.gates ≡ o
    → All (IsEntered g) us
    → All (IsEntered (hold_found s o g).1) us
hold-All s g o [] e k = tt
hold-All s g o (u ∷ us) e (ku, ks) = (hold-IsEntered s g o u e ku, hold-All s g o us e ks)

-- No worker has the gate that is not there yet.
held-fresh : (g : Gates) (us : List (String × ℕ)) → All (IsEntered g) us → held g.next us ≡ 0
unfolding held count_where
held-fresh g [] k = refl
held-fresh g (u ∷ us) (ku, ks) = ground (arith, ku.old, held-fresh g us ks)

Coherent-hold :
    (s : String) (c : Crew) (o : Option ℕ)
    → gate_of s c.gates.gates ≡ o
    → Coherent c
    → Coherent (record c {
      gates = (hold_found s o c.gates).1;
      waiting = (s, (hold_found s o c.gates).0) ∷ c.waiting;
    })
unfolding held count_where gate_of
Coherent-hold s c none e k = record {
  counted = λ p. ground (
    arith,
    k.counted p,
    held-fresh c.gates c.waiting k.waiting,
    held-fresh c.gates c.executing k.executing,
    held-fresh c.gates c.leaving k.leaving,
  );
  waiting = (
    record { gate = rw eq_refl refl; old = omega arith },
    hold-All s c.gates none c.waiting e k.waiting,
  );
  executing = hold-All s c.gates none c.executing e k.executing;
  leaving = hold-All s c.gates none c.leaving e k.leaving;
  single = k.single;
  mapped = λ s' p h. elim (Bool-cases (str_eq s s')) [
    | inl q ↦
        let new : some c.gates.next ≡ some p = rw q at h in
        (let same = some-injective c.gates.next p new in omega (arith, same))
    | inr q ↦ omega (arith, k.mapped s' p (rw q at h))
  ];
}
Coherent-hold s c (some q) e k = record {
  counted = λ p. ground (arith, k.counted p, k.counted q);
  waiting = (
    record { gate = e; old = k.mapped s q e },
    hold-All s c.gates (some q) c.waiting e k.waiting,
  );
  executing = hold-All s c.gates (some q) c.executing e k.executing;
  leaving = hold-All s c.gates (some q) c.leaving e k.leaving;
  single = k.single;
  mapped = k.mapped;
}

Coherent-entered : (s : String) (c : Crew) → Coherent c → Coherent (entered s c (hold s c.gates))
unfolding hold
Coherent-entered s c k = elim (Bool-cases (str_eq s "")) [
  | inl e ↦ rw e k
  | inr e ↦ rw e (Coherent-hold s c (gate_of s c.gates.gates) refl k)
]

Coherent-Step : {c c' : Crew} → Step c c' → Coherent c → Coherent c'
Coherent-Step (enters {c} s) k = Coherent-entered s c k
Coherent-Step (locks {c} xs ys t e free) k = Coherent-locks c xs ys t e free k
Coherent-Step (unlocks {c} xs ys t e) k = Coherent-unlocks c xs ys t e k
Coherent-Step (leaves {c} xs ys t e) k = Coherent-leaves c xs ys t e k

Coherent-Reachable : {c : Crew} → Reachable c → Coherent c
unfolding no_workers held count_where gate_of
Coherent-Reachable starts = record {
  counted = λ p. refl;
  waiting = tt;
  executing = tt;
  leaving = tt;
  single = λ p. omega arith;
  mapped = λ s p h. cc;
}
Coherent-Reachable (steps r st) = Coherent-Step st (Coherent-Reachable r)

sessions-held :
    (s : String) (g : Gates) (p : ℕ) (us : List (String × ℕ))
    → gate_of s g.gates ≡ some p
    → All (IsEntered g) us
    → count_where (is_session s) us ≤ held p us
unfolding held count_where
sessions-held s g p [] e k = omega arith
sessions-held s g p (u ∷ us) e (ku, ks) = elim (Bool-cases (is_session s u)) [
  | inl q ↦
      let same =
        some-injective p u.1
          (sym e ∙ ap (λ i. gate_of i g.gates) (sym ((eq_iff u.0 s).0 q)) ∙ ku.gate) in
      rw q (ground (arith, same, sessions-held s g p us e ks))
  | inr q ↦ rw q (ground (arith, sessions-held s g p us e ks))
]

sessions-none :
    (s : String) (g : Gates) (us : List (String × ℕ))
    → gate_of s g.gates ≡ none
    → All (IsEntered g) us
    → count_where (is_session s) us ≡ 0
unfolding count_where
sessions-none s g [] e k = refl
sessions-none s g (u ∷ us) e (ku, ks) = elim (Bool-cases (is_session s u)) [
  | inl q ↦ absurd (
      none-some u.1 (gate_of u.0 g.gates) (ap (λ i. gate_of i g.gates) ((eq_iff u.0 s).0 q) ∙ e)
        ku.gate)
  | inr q ↦ rw q (sessions-none s g us e ks)
]

-- However the workers take tasks, wait for a gate, execute, unlock and leave: at no time are two
-- tasks executed that were taken for the same session.
pub one_per_session :
    {c : Crew} → Reachable c → (s : String) → count_where (is_session s) c.executing ≤ 1
one_per_session {c} r s =
    let k = Coherent-Reachable r in
    elim (Option-cases (gate_of s c.gates.gates)) [
      | inl e ↦ omega (arith, sessions-none s c.gates c.executing e k.executing)
      | inr (p, e) ↦ omega (arith, sessions-held s c.gates p c.executing e k.executing, k.single p)
    ]
