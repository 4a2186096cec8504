-- ===== src/Push/Hub.antt =====
-- internal/push/hub.go: the set of connected clients. A `*hubConn` is the number of its
-- registration; whether a write to it succeeds is the network's, an argument.
pub mod Ledger
use opencode_backend.Base.{
  ℕ, zero, suc, ◌+◌, Bool, true, false, String, Option, none, some, List, [], ◌∷◌, ◌++◌, ◌==◌,
  if◌then◌else◌, length, not,
}
use opencode_backend.Sql.{select_where, delete_where, exists_where}
use opencode_backend.Push.Message.{Message}

-- `closed` lists the connections that were closed, `delivered` what was written to which, and
-- `next` is the number of the next registration.
pub record Hub : Type 0 where
  pub clients : List ℕ
  pub done : Bool
  pub next : ℕ
  pub closed : List ℕ
  pub delivered : List (ℕ × Message)

unfoldable pub new_hub : Hub
new_hub = record { clients = []; done = false; next = 0; closed = []; delivered = [] }

abbrev pub is_conn : ℕ → ℕ → Bool
is_conn c d = c == d

unfoldable pub register : Hub → ℕ × Hub
register h = (h.next, record h { clients = h.clients ++ h.next ∷ []; next = suc h.next })

unfoldable pub unregister_conn : ℕ → Hub → Hub
unregister_conn c h =
    if exists_where (is_conn c) h.clients
    then record h { clients = delete_where (is_conn c) h.clients; closed = h.closed ++ c ∷ [] }
    else h

-- `if hc == nil { return }`
unfoldable pub unregister : Option ℕ → Hub → Hub
unfolding unregister_conn
unregister none h = h
unregister (some c) h = unregister_conn c h

unfoldable pub count : Hub → ℕ
count h = length h.clients

unfoldable pub stop : Hub → Hub
stop h = record h { done = true }

-- `Run` once `done` is closed; until then it blocks, and changes nothing.
unfoldable pub run : Hub → Hub
run h = if h.done then record h { clients = []; closed = h.closed ++ h.clients } else h

-- What other goroutines do to the hub while a broadcast writes, which holds no lock.
pub data Op : Type 0 where
  registers stops runs : Op
  unregisters : Option ℕ → Op

unfoldable pub apply : Op → Hub → Hub
unfolding register unregister stop run
apply registers h = (register h).1
apply (unregisters c) h = unregister c h
apply stops h = stop h
apply runs h = run h

unfoldable pub apply_all : List Op → Hub → Hub
unfolding apply
apply_all [] h = h
apply_all (o ∷ os) h = apply_all os (apply o h)

-- One write of the loop of `Broadcast`, and the removal of the client that it fails for.
unfoldable pub write_to : Message → Bool → ℕ → Hub → Hub
unfolding unregister_conn
write_to msg sent c h =
    if sent then record h { delivered = h.delivered ++ (c, msg) ∷ [] } else unregister_conn c h

module _ (writes : ℕ → Bool) (meanwhile : ℕ → List Op) where
  unfoldable pub deliver : Message → List ℕ → Hub → Hub
  unfolding write_to apply_all
  deliver msg [] h = h
  deliver msg (c ∷ cs) h = deliver msg cs (write_to msg (writes c) c (apply_all (meanwhile c) h))

  unfoldable pub broadcast : Message → Hub → Hub
  unfolding deliver
  broadcast msg h = deliver msg h.clients h
