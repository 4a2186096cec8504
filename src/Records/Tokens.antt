-- ===== src/Records/Tokens.antt =====
-- internal/store/store.go: the table `tokens`.
pub mod Revoked
use opencode_backend.Base.{
  ℕ, Bool, true, false, String, Option, none, some, List, [], ◌∷◌, ◌++◌, ◌≡◌, refl, sym, ap, ◌∙◌,
  if◌then◌else◌, str_eq, eq_iff, eq_refl, Bool-cases, inl, inr, ltb, ◌==◌, ◌&&◌, ◌||◌, All, arith,
  All-append,
}
use opencode_backend.Exec.{Result, ok, err, not_found, database, Exec}
use opencode_backend.Sql.{find_where, exists_where, update_where, count_where, order_by}
use opencode_backend.Records.Site.{Site, Token, ask, site_answer}

abbrev pub has_token_id : String → Token → Bool
has_token_id id t = str_eq t.id id

abbrev pub is_none : Option ℕ → Bool
is_none none = true
is_none (some _) = false

abbrev pub clashes : Token → Token → Bool
clashes new t = str_eq t.id new.id || str_eq t.token_hash new.token_hash

-- The id is the primary key and the hash is UNIQUE.
unfoldable pub create_token : Token → Exec Site (Unit {0})
unfolding ask exists_where
create_token t = ask (λ s. if exists_where (clashes t) s.tokens then (err database, s) else (
  ok tt,
  record s {
    tokens = s.tokens ++ record t { created_at = s.now; revoked_at = none; last_used = none } ∷ [];
  },
))

abbrev pub is_live : String → Token → Bool
is_live hash t = str_eq t.token_hash hash && is_none t.revoked_at

abbrev pub found_token : Option Token → Result Token
found_token none = err not_found
found_token (some t) = ok t

unfoldable pub get_token_by_hash : String → Exec Site Token
unfolding ask find_where
get_token_by_hash hash = ask (λ s. (found_token (find_where (is_live hash) s.tokens), s))

unfoldable pub list_tokens : Exec Site (List Token)
unfolding ask order_by
list_tokens = ask (λ s. (ok (order_by (λ y x. ltb x.created_at y.created_at) s.tokens), s))

abbrev pub is_revocable : String → Token → Bool
is_revocable id t = str_eq t.id id && is_none t.revoked_at

unfoldable pub revoke_token : String → Exec Site (Unit {0})
unfolding ask count_where update_where
revoke_token id = ask (λ s. (
  if count_where (is_revocable id) s.tokens == 0 then err not_found else ok tt,
  record s {
    tokens = update_where (is_revocable id) (λ t. record t { revoked_at = some s.now }) s.tokens;
  },
))

unfoldable pub touch_token : String → Exec Site (Unit {0})
unfolding ask update_where
touch_token id = ask (λ s. (
  ok tt,
  record s {
    tokens = update_where (has_token_id id) (λ t. record t { last_used = some s.now }) s.tokens;
  },
))

pub data TokenCall : Type 0 where
  create : Token → TokenCall
  look : String → TokenCall
  list_all : TokenCall
  revoke : String → TokenCall
  touch : String → TokenCall

-- A call at a time, and the statements that the database refuses.
pub record TokenTurn : Type 0 where
  pub call : TokenCall
  pub at : ℕ
  pub faults : List Bool

unfoldable pub run_token_call : TokenCall → Site → Site
unfolding create_token get_token_by_hash list_tokens revoke_token touch_token
run_token_call (create t) s = (create_token t s).1
run_token_call (look hash) s = (get_token_by_hash hash s).1
run_token_call list_all s = (list_tokens s).1
run_token_call (revoke id) s = (revoke_token id s).1
run_token_call (touch id) s = (touch_token id s).1

unfoldable pub run_token_turns : List TokenTurn → Site → Site
unfolding run_token_call
run_token_turns [] s = s
run_token_turns (u ∷ us) s =
    run_token_turns us (run_token_call u.call (record s { now = u.at; faults = u.faults }))
