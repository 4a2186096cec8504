-- ===== src/Records/Audit.antt =====
-- internal/store/audit.go and TokenUsageByAudit of stats.go: the table `audit_log`.
use opencode_backend.Base.{
  ℕ, zero, suc, Bool, true, false, String, List, [], ◌∷◌, ◌++◌, str_eq, ltb, leb, ◌&&◌, ◌||◌, take,
}
use opencode_backend.Exec.{ok, Exec}
use opencode_backend.Sql.{
  select_where, exists_where, count_where, delete_where, order_by, limit_rows,
}
use opencode_backend.Records.Site.{Site, AuditEntry, ask}

unfoldable pub record_audit : AuditEntry → Exec Site (Unit {0})
unfolding ask
record_audit e = ask (λ s. (
  ok tt,
  record s {
    audit = s.audit ++ record e { id = s.next_entry; created_at = s.now } ∷ [];
    next_entry = suc s.next_entry;
  },
))

abbrev pub of_token : String → AuditEntry → Bool
of_token token_id e = str_eq token_id "" || str_eq e.token_id token_id

-- ORDER BY id DESC
abbrev pub later_entry : AuditEntry → AuditEntry → Bool
later_entry y x = ltb x.id y.id

unfoldable pub list_audit : String → ℕ → Exec Site (List AuditEntry)
unfolding ask select_where order_by limit_rows
list_audit token_id limit = ask (λ s.
    (ok (limit_rows limit (order_by later_entry (select_where (of_token token_id) s.audit))), s))

unfoldable pub delete_audit_older_than : ℕ → Exec Site ℕ
unfolding ask count_where delete_where
delete_audit_older_than cutoff = ask (λ s. (
  ok (count_where (λ e. leb e.created_at cutoff) s.audit),
  record s { audit = delete_where (λ e. leb e.created_at cutoff) s.audit },
))

pub record TokenUsage : Type 0 where
  pub token_id : String
  pub token_name : String
  pub calls : ℕ

abbrev pub same_group : AuditEntry → TokenUsage → Bool
same_group e u = str_eq u.token_id e.token_id && str_eq u.token_name e.token_name

-- GROUP BY token_id, token_name, with COUNT(*): `groups` are those of the rows behind.
unfoldable pub group_calls : List AuditEntry → List AuditEntry → List TokenUsage → List TokenUsage
unfolding exists_where count_where
group_calls rows [] groups = groups
group_calls rows (e ∷ es) groups = elim (exists_where (same_group e) groups) [
  | true ↦ group_calls rows es groups
  | false ↦ group_calls rows es (
      groups
      ++ record {
        token_id = e.token_id;
        token_name = e.token_name;
        calls =
            count_where (λ r. str_eq r.token_id e.token_id && str_eq r.token_name e.token_name)
              rows;
      }
        ∷ [])
]

abbrev pub usage_limit : ℕ → ℕ
usage_limit zero = 20
usage_limit (suc n) = suc n

-- ORDER BY calls DESC LIMIT ?
unfoldable pub token_usage_by_audit : ℕ → Exec Site (List TokenUsage)
unfolding ask group_calls order_by
token_usage_by_audit limit = ask (λ s. (
  ok (
      take (usage_limit limit)
        (order_by (λ y x. ltb x.calls y.calls) (group_calls s.audit s.audit []))),
  s,
))
