-- ===== src/Push/Hub/Ledger.antt =====
-- Every registered connection is either still a client or has been closed, once.
use opencode_backend.Base.{
  ℕ, ◌+◌, ◌≤◌, Bool, true, false, Option, none, some, List, [], ◌∷◌, ◌++◌, ◌==◌, if◌then◌else◌, ◌≡◌,
  arith, ltb, Bool-cases, inl, inr,
}
use opencode_backend.Sql.{count_where, delete_where, exists_where}
use opencode_backend.Push.Message.{Message}
use opencode_backend.Push.Hub.{
  Hub, new_hub, is_conn, register, unregister_conn, unregister, stop, run, Op, registers,
  unregisters, stops, runs, apply, apply_all, write_to, deliver, broadcast,
}

pub occurs : ℕ → List ℕ → ℕ
occurs c xs = count_where (is_conn c) xs

-- A registered connection stands in exactly one of the two lists, once.
pub record Balanced (h : Hub) : Type 0 where
  pub at : (c : ℕ) → occurs c h.clients + occurs c h.closed ≡ (if ltb c h.next then 1 else 0)

occurs-append : (c : ℕ) (xs ys : List ℕ) → occurs c (xs ++ ys) ≡ occurs c xs + occurs c ys
unfolding occurs count_where
occurs-append c [] ys = omega arith
occurs-append c (x ∷ xs) ys = ground (arith, occurs-append c xs ys)

occurs-delete :
    (c d : ℕ) (xs : List ℕ)
    → occurs c (delete_where (is_conn d) xs) ≡ (if c == d then 0 else occurs c xs)
unfolding occurs count_where delete_where
occurs-delete c d [] = ground arith
occurs-delete c d (x ∷ xs) = ground (arith, occurs-delete c d xs)

occurs-exists : (c : ℕ) (xs : List ℕ) → exists_where (is_conn c) xs ≡ true → 1 ≤ occurs c xs
unfolding occurs count_where exists_where
occurs-exists c [] h = ground arith
occurs-exists c (x ∷ xs) h = ground (arith, occurs-exists c xs)

occurs-one : (c d : ℕ) → occurs c (d ∷ []) ≡ (if c == d then 1 else 0)
unfolding occurs count_where
occurs-one c d = ground arith

Balanced-register : (h : Hub) → Balanced h → Balanced (register h).1
unfolding register
Balanced-register h b = record {
  at = λ c. ground (arith, occurs-append c h.clients (h.next ∷ []), occurs-one c h.next, b.at c);
}

Balanced-unregister_conn : (d : ℕ) (h : Hub) → Balanced h → Balanced (unregister_conn d h)
unfolding unregister_conn
Balanced-unregister_conn d h b = elim (Bool-cases (exists_where (is_conn d) h.clients)) [
  | inl e ↦ rw e (record {
    at = λ c. ground (
      arith,
      occurs-delete c d h.clients,
      occurs-append c h.closed (d ∷ []),
      occurs-one c d,
      occurs-exists d h.clients e,
      b.at c,
    );
  })
  | inr e ↦ rw e b
]

Balanced-unregister : (d : Option ℕ) (h : Hub) → Balanced h → Balanced (unregister d h)
unfolding unregister
Balanced-unregister none h b = b
Balanced-unregister (some d) h b = Balanced-unregister_conn d h b

Balanced-run : (h : Hub) → Balanced h → Balanced (run h)
unfolding run occurs count_where
Balanced-run h b = elim (Bool-cases h.done) [
  | inl e ↦ rw e (record { at = λ c. ground (arith, occurs-append c h.closed h.clients, b.at c) })
  | inr e ↦ rw e (record { at = b.at })
]

Balanced-apply : (o : Op) (h : Hub) → Balanced h → Balanced (apply o h)
unfolding apply stop
Balanced-apply registers h b = Balanced-register h b
Balanced-apply (unregisters c) h b = Balanced-unregister c h b
Balanced-apply stops h b = record { at = b.at }
Balanced-apply runs h b = Balanced-run h b

Balanced-apply_all : (os : List Op) (h : Hub) → Balanced h → Balanced (apply_all os h)
unfolding apply_all
Balanced-apply_all [] h b = b
Balanced-apply_all (o ∷ os) h b = Balanced-apply_all os (apply o h) (Balanced-apply o h b)

Balanced-write_to :
    (msg : Message) (sent : Bool) (c : ℕ) (h : Hub) → Balanced h → Balanced (write_to msg sent c h)
unfolding write_to
Balanced-write_to msg true c h b = record { at = b.at }
Balanced-write_to msg false c h b = Balanced-unregister_conn c h b

module _ (writes : ℕ → Bool) (meanwhile : ℕ → List Op) where
  Balanced-deliver :
      (msg : Message) (cs : List ℕ) (h : Hub)
      → Balanced h
      → Balanced (deliver writes meanwhile msg cs h)
  unfolding deliver
  Balanced-deliver msg [] h b = b
  Balanced-deliver msg (c ∷ cs) h b =
      Balanced-deliver msg cs _
        (Balanced-write_to msg (writes c) c _ (Balanced-apply_all (meanwhile c) h b))

-- A call of the hub: an operation, or a broadcast with its writes and what happens meanwhile.
pub data HubCall : Type 0 where
  operates : Op → HubCall
  broadcasts : (ℕ → Bool) → (ℕ → List Op) → Message → HubCall

unfoldable pub run_calls : List HubCall → Hub → Hub
run_calls [] h = h
run_calls (operates o ∷ cs) h = run_calls cs (apply o h)
run_calls (broadcasts writes meanwhile msg ∷ cs) h = run_calls cs (broadcast writes meanwhile msg h)

run_calls-keeps : (cs : List HubCall) (h : Hub) → Balanced h → Balanced (run_calls cs h)
unfolding run_calls broadcast
run_calls-keeps [] h b = b
run_calls-keeps (operates o ∷ cs) h b = run_calls-keeps cs _ (Balanced-apply o h b)
run_calls-keeps (broadcasts writes meanwhile msg ∷ cs) h b =
    run_calls-keeps cs _ (Balanced-deliver writes meanwhile msg h.clients h b)

-- From the new hub, after any registrations, removals, stops, runs and broadcasts, whichever writes
-- fail and whatever happens to the hub during a broadcast: a connection that was registered is
-- either a client, once, or has been closed, once, and not both; no other connection is either.
pub run_calls-Balanced : (cs : List HubCall) → Balanced (run_calls cs new_hub)
unfolding new_hub occurs count_where
run_calls-Balanced cs = run_calls-keeps cs new_hub (record { at = λ c. ground arith })
