-- ===== src/Access/Manager/RoundTrips.antt =====
-- internal/auth/auth.go: what is stored is found again.
use mathlib.Core.Path.{subst}
use opencode_backend.Base.{
  ℕ, true, false, String, Option, none, some, List, [], ◌∷◌, ◌++◌, ◌≡◌, ◌≢◌, refl, sym, ap, ◌∙◌,
  arith, eq_refl, Bool-cases, inl, inr,
}
use opencode_backend.Exec.{Result, ok, err}
use opencode_backend.Sql.{find_where, exists_where}
use opencode_backend.Automation.Text.{Text, trim_space, is_space}
use opencode_backend.Stt.Spaces.{without_spaces, without_spaces-trim_space}
use opencode_backend.Records.Site.{Site, Setting, Token, ask, ask-ran}
use opencode_backend.Records.Settings.{has_key, value_of}
use opencode_backend.Records.Tokens.{create_token, get_token_by_hash, clashes, is_live, found_token}
use opencode_backend.Access.Manager.{
  Crypto, done, token_row, random_token, create_api_token, verify_token, verify_full, issued,
}

found-fresh :
    (t row : Token) (ts : List Token)
    → exists_where (clashes t) ts ≡ false
    → is_live t.token_hash row ≡ true
    → find_where (is_live t.token_hash) (ts ++ row ∷ []) ≡ some row
unfolding exists_where find_where
found-fresh t row [] h live = rw live refl
found-fresh t row (u ∷ ts) h live = ground (arith, found-fresh t row ts)

-- A statement of a call that succeeded: it ran on the same rows.
create_token-found :
    (t : Token) (s s' : Site)
    → create_token t s ≡ (ok tt, s')
    → (at : ℕ) × ((get_token_by_hash t.token_hash (record s' { faults = [] })).0
        ≡ ok (record t { created_at = at; revoked_at = none; last_used = none }))
unfolding create_token get_token_by_hash ask
create_token-found t s s' e =
    let ran = ask-ran _ tt s (ap (λ p. p.0) e) in
    let step = sym ran.1 ∙ e in
    elim (Bool-cases (exists_where (clashes t) s.tokens)) [
      | inl taken ↦ cc (rw taken at (ap (λ p. p.0) step))
      | inr new ↦
          let row : Token = record t { created_at = s.now; revoked_at = none; last_used = none } in
          let rows : s.tokens ++ row ∷ [] ≡ s'.tokens =
            ap (λ p. Site.tokens p.1) (rw new at step) in
          let live : is_live t.token_hash row ≡ true = rw (eq_refl t.token_hash) refl in
          (
            s.now,
            ap (λ ts. found_token (find_where (is_live t.token_hash) ts)) (sym rows)
                ∙ ap found_token (found-fresh t row s.tokens new live),
          )
    ]

random_token-full : (bytes : List ℕ) → trim_space (random_token bytes) ≢ []
unfolding without_spaces random_token is_space
random_token-full bytes e =
    let lost : without_spaces (random_token bytes) ≡ [] =
      sym (without_spaces-trim_space (random_token bytes)) ∙ ap without_spaces e in
    cc

issued-row :
    (raw raw' : Text) (made : Result (Unit {0}) × Site) (s' : Site)
    → issued raw made ≡ (done raw', s')
    → (raw ≡ raw') × (made ≡ (ok tt, s'))
issued-row raw raw' (ok u, s) s' e = (cc, ap (λ r. (ok tt, r)) (ap (λ p. p.1) e))
issued-row raw raw' (err x, s) s' e = cc (ap (λ p. p.0) e)

verify_token-hash :
    (k : Crypto) (raw : Text) (s : Site)
    → trim_space raw ≢ []
    → verify_token k raw s ≡ get_token_by_hash (k.hash_token raw) s
unfolding verify_token
verify_token-hash k raw s h = go (trim_space raw) h
  where
    go : (t : Text) → t ≢ [] → verify_full k raw t s ≡ get_token_by_hash (k.hash_token raw) s
    go [] h = elim (h refl) [ ]
    go (c ∷ cs) h = refl

-- A token that CreateToken has issued is accepted: when the database answers, VerifyToken returns its
-- record, with the id and name it was created with, not revoked.
pub create_api_token-verify_token :
    (k : Crypto) (bytes : List ℕ) (id name : String) (s s' : Site) (raw : Text)
    → create_api_token k (some bytes) (some id) name s ≡ (done raw, s')
    → (at : ℕ) × ((verify_token k raw (record s' { faults = [] })).0
        ≡ ok (record (token_row id name (k.hash_token raw)) { created_at = at }))
unfolding create_api_token
create_api_token-verify_token k bytes id name s s' raw e =
    let first = random_token bytes in
    let row : Token = token_row id name (k.hash_token first) in
    let made = issued-row first raw (create_token row s) s' e in
    let found = create_token-found row s s' made.1 in
    let later = record s' { faults = [] } in
    subst
      (λ r.
        (at : ℕ) × ((verify_token k r later).0
          ≡ ok (record (token_row id name (k.hash_token r)) { created_at = at })))
      made.0
      (found.0, ap (λ p. p.0) (verify_token-hash k first later (random_token-full bytes)) ∙ found.1)

abbrev setting_value : String → List Setting → Option String
setting_value key rows = value_of (find_where (has_key key) rows)
