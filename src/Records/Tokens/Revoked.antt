-- ===== src/Records/Tokens/Revoked.antt =====
-- internal/store/store.go: a revoked token stays revoked.
use mathlib.Core.Path.{subst}
use opencode_backend.Base.{
  ℕ, Bool, true, false, String, some, List, [], ◌∷◌, ◌≡◌, ◌≢◌, refl, sym, ap, ◌∙◌, str_eq, eq_iff,
  Bool-cases, Option-cases, inl, inr, ◌==◌, All, arith, All-append,
}
use opencode_backend.Exec.{Result, ok, err, not_found}
use opencode_backend.Sql.{find_where, exists_where, update_where, count_where}
use opencode_backend.Sql.Laws.{
  All-update_where, All-update_where_each, exists_where-update_where, exists_where-append,
  All-find_where, find_where-matches,
}
use opencode_backend.Records.Site.{Site, Token, ask, site_answer, ask-ran}
use opencode_backend.Records.Tokens.{
  has_token_id, clashes, create_token, is_live, found_token, get_token_by_hash, list_tokens,
  is_revocable, revoke_token, touch_token, TokenCall, TokenTurn, run_token_call, run_token_turns,
  create, look, list_all, revoke, touch,
}

-- A row has the id, and no row with it is live.
record IsDead (id : String) (ts : List Token) : Type 0 where
  held : exists_where (has_token_id id) ts ≡ true
  dead : All (λ t. is_revocable id t ≡ false) ts

-- A statement on the rows keeps the dead ids dead, refused or not.
ask-IsDead :
    {A : Type 0} (id : String) (stmt : Site → Result A × Site)
    → ((s : Site) → IsDead id s.tokens → IsDead id (Site.tokens (stmt s).1))
    → (s : Site) → IsDead id s.tokens
    → IsDead id (Site.tokens (ask stmt s).1)
unfolding ask
ask-IsDead id stmt keep s h = go s.faults
  where
    go : (fs : List Bool) → IsDead id (Site.tokens (site_answer fs stmt s).1)
    go [] = keep (record s { faults = [] }) h
    go (true ∷ fs) = h
    go (false ∷ fs) = keep (record s { faults = fs }) h

fresh-IsDead :
    (id : String) (t : Token) (ts : List Token)
    → exists_where (clashes t) ts ≡ false
    → exists_where (has_token_id id) ts ≡ true
    → str_eq t.id id ≡ false
unfolding exists_where
fresh-IsDead id t [] e h = cc
fresh-IsDead id t (u ∷ ts) e h =
    ground (arith, fresh-IsDead id t ts, eq_iff t.id id, eq_iff u.id id, eq_iff u.id t.id)

create-IsDead :
    (id : String) (t : Token) (s : Site)
    → IsDead id s.tokens
    → IsDead id (Site.tokens (create_token t s).1)
unfolding create_token
create-IsDead id t = ask-IsDead id _ (λ s h. elim (Bool-cases (exists_where (clashes t) s.tokens)) [
  | inl e ↦ rw e h
  | inr e ↦
      let other : str_eq t.id id ≡ false = fresh-IsDead id t s.tokens e h.held in
      rw e (record {
        held = rw (exists_where-append (has_token_id id) s.tokens _, h.held) refl;
        dead = All-append _ s.tokens _ h.dead (rw other refl, tt);
      })
])

revoked-not_revocable :
    (id : String) (t : Token) (now : ℕ)
    → is_revocable id (record t { revoked_at = some now }) ≡ false
revoked-not_revocable id t now = ground arith

revoke-IsDead :
    (id other : String) (s : Site)
    → IsDead id s.tokens
    → IsDead id (Site.tokens (revoke_token other s).1)
unfolding revoke_token
revoke-IsDead id other = ask-IsDead id _ (λ s h. record {
  held = exists_where-update_where (has_token_id id) _ _ (λ t. refl) s.tokens ∙ h.held;
  dead =
      All-update_where (λ t. is_revocable id t ≡ false) (is_revocable other) _
        (λ t d e. revoked-not_revocable id t s.now) s.tokens h.dead;
})

touch-IsDead :
    (id other : String) (s : Site)
    → IsDead id s.tokens
    → IsDead id (Site.tokens (touch_token other s).1)
unfolding touch_token
touch-IsDead id other = ask-IsDead id _ (λ s h. record {
  held = exists_where-update_where (has_token_id id) _ _ (λ t. refl) s.tokens ∙ h.held;
  dead =
      All-update_where (λ t. is_revocable id t ≡ false) (has_token_id other) _ (λ t d e. d) s.tokens
        h.dead;
})

call-IsDead :
    (id : String) (c : TokenCall) (s : Site)
    → IsDead id s.tokens
    → IsDead id (Site.tokens (run_token_call c s))
unfolding run_token_call get_token_by_hash list_tokens
call-IsDead id (create t) s h = create-IsDead id t s h
call-IsDead id (look hash) s h = ask-IsDead id _ (λ s' h'. h') s h
call-IsDead id list_all s h = ask-IsDead id _ (λ s' h'. h') s h
call-IsDead id (revoke other) s h = revoke-IsDead id other s h
call-IsDead id (touch other) s h = touch-IsDead id other s h

run-IsDead :
    (id : String) (us : List TokenTurn) (s : Site)
    → IsDead id s.tokens
    → IsDead id (Site.tokens (run_token_turns us s))
unfolding run_token_turns
run-IsDead id [] s h = h
run-IsDead id (u ∷ us) s h = run-IsDead id us _ (call-IsDead id u.call _ h)

revocable-held :
    (id : String) (ts : List Token)
    → (count_where (is_revocable id) ts == 0) ≡ false
    → exists_where (has_token_id id) ts ≡ true
unfolding count_where exists_where
revocable-held id [] e = ground arith
revocable-held id (t ∷ ts) e = ground (arith, revocable-held id ts)

-- What the UPDATE of RevokeToken leaves.
revoked_row : ℕ → Token → Token
revoked_row now t = record t { revoked_at = some now }

update-IsDead :
    (id : String) (now : ℕ) (ts : List Token)
    → (count_where (is_revocable id) ts == 0) ≡ false
    → IsDead id (update_where (is_revocable id) (revoked_row now) ts)
unfolding revoked_row
update-IsDead id now ts e = record {
  held = exists_where-update_where (has_token_id id) _ _ (λ t. refl) ts ∙ revocable-held id ts e;
  dead =
      All-update_where_each (λ t. is_revocable id t ≡ false) (is_revocable id) _
        (λ t. elim (Bool-cases (is_revocable id t)) [
          | inl q ↦ rw q (revoked-not_revocable id t now)
          | inr q ↦ rw q q
        ])
        ts;
}

revoked-IsDead : (id : String) (s s' : Site) → revoke_token id s ≡ (ok tt, s') → IsDead id s'.tokens
unfolding revoke_token revoked_row
revoked-IsDead id s s' e =
    let ran = ask-ran _ tt s (ap (λ p. p.0) e) in
    let step = sym (ran.1) ∙ e in
    elim (Bool-cases (count_where (is_revocable id) s.tokens == 0)) [
      | inl none_left ↦
          let bad : Path (Result (Unit {0})) (err not_found) (ok tt) =
            rw none_left at (ap (λ p. p.0) step) in
          cc
      | inr some_left ↦
          subst (IsDead id) (ap (λ p. Site.tokens p.1) step)
            (update-IsDead id s.now s.tokens some_left)
    ]

live-other :
    (id hash : String) (ts : List Token) (t : Token)
    → IsDead id ts
    → found_token (find_where (is_live hash) ts) ≡ ok t
    → t.id ≢ id
live-other id hash ts t h e = elim (Option-cases (find_where (is_live hash) ts)) [
  | inl missing ↦ cc (rw missing at e)
  | inr (u, hit) ↦
      let same : u ≡ t = cc (rw hit at e) in
      let live : is_live hash u ≡ true = find_where-matches (is_live hash) ts u hit in
      let dead : is_revocable id u ≡ false = All-find_where _ (is_live hash) ts u h.dead hit in
      λ equal. ground (arith, eq_iff u.id id, same, live, dead, equal, ap Token.id same)
]

-- Once RevokeToken has revoked a token, GetTokenByHash never returns a token with its id, for any
-- hash, after any calls at any times, some of them refused by the database.
pub revoke_token_final :
    (id : String) (s s' : Site) (us : List TokenTurn) (hash : String) (t : Token)
    → revoke_token id s ≡ (ok tt, s')
    → (get_token_by_hash hash (run_token_turns us s')).0 ≡ ok t
    → t.id ≢ id
unfolding get_token_by_hash
revoke_token_final id s s' us hash t e found =
    let end = run_token_turns us s' in
    let ran = ask-ran _ t end found in
    let dead : IsDead id end.tokens = run-IsDead id us s' (revoked-IsDead id s s' e) in
    live-other id hash end.tokens t dead (sym (ap (λ p. p.0) ran.1) ∙ found)
