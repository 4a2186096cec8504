-- ===== src/Server/Projects/Counts.antt =====
-- internal/server/orchestrate.go: the counts of the listed directories.
use opencode_backend.Base.{
  ◌&&◌, ℕ, suc, ◌+◌, ◌≤◌, Bool, true, false, Option, List, [], ◌∷◌, ◌++◌, ◌≡◌, refl, ap, ◌∙◌, arith,
  Bool-cases, inl, inr, if◌then◌else◌, not, ◌||◌, ◌==◌,
}
use opencode_backend.Automation.Text.{Text, codes}
use opencode_backend.Config.{trim_slashes}
use opencode_backend.Sql.{select_where}
use opencode_backend.Stt.Runes.{equal_runes, equal_runes-eq}
use opencode_backend.Server.Projects.{
  SessionInfo, ProjectSummary, bump, directory_of, count_sessions, has_dir, add_project,
  add_projects, worktrees, is_used, is_unused, list_projects,
}

-- The sum of `weight` over the counts listed for a directory.
unfoldable pub weigh : (ℕ → ℕ) → Text → List ProjectSummary → ℕ
weigh weight dir [] = 0
weigh weight dir (row ∷ rows) =
    let rest = weigh weight dir rows in
    if equal_runes row.directory dir then weight row.session_count + rest else rest

abbrev pub total : Text → List ProjectSummary → ℕ
total = weigh (λ n. n)

abbrev pub appearances : Text → List ProjectSummary → ℕ
appearances = weigh (λ n. 1)

-- The sessions whose directory, less its trailing slashes, is this one.
unfoldable pub sessions_in : Text → List SessionInfo → ℕ
sessions_in dir [] = 0
sessions_in dir (it ∷ its) =
    let rest = sessions_in dir its in if equal_runes (directory_of it) dir then suc rest else rest

weigh-append :
    (f : ℕ → ℕ) (dir : Text) (xs ys : List ProjectSummary)
    → weigh f dir (xs ++ ys) ≡ weigh f dir xs + weigh f dir ys
unfolding weigh
weigh-append f dir [] ys = omega arith
weigh-append f dir (x ∷ xs) ys = elim (Bool-cases (equal_runes x.directory dir)) [
  | inl here ↦ rw (here, weigh-append f dir xs ys) (omega arith)
  | inr away ↦ rw (away, weigh-append f dir xs ys) refl
]

-- Listing the directories with sessions first keeps every sum.
weigh-split :
    (f : ℕ → ℕ) (dir : Text) (rows : List ProjectSummary)
    → weigh f dir (select_where is_used rows ++ select_where is_unused rows) ≡ weigh f dir rows
unfolding weigh select_where
weigh-split f dir [] = refl
weigh-split f dir (x ∷ xs) =
    let apart = weigh-append f dir (select_where is_used xs) (select_where is_unused xs) in
    let here = weigh-append f dir (select_where is_used xs) (x ∷ select_where is_unused xs) in
    elim (Bool-cases (x.session_count == 0)) [
      | inl unused ↦ rw unused (ground (arith, apart, here, weigh-split f dir xs))
      | inr used ↦ rw used (ground (arith, weigh-split f dir xs))
    ]

bump-total :
    (dir e : Text) (rows : List ProjectSummary)
    → total e (bump dir rows) ≡ (if equal_runes dir e then suc (total e rows) else total e rows)
unfolding weigh bump
bump-total dir e [] = refl
bump-total dir e (x ∷ xs) = elim (Bool-cases (equal_runes x.directory dir)) [
  | inl same ↦
      let alike : equal_runes x.directory e ≡ equal_runes dir e =
        ap (λ d. equal_runes d e) (equal_runes-eq x.directory dir same) in
      rw (same, alike) (ground arith)
  | inr other ↦ rw other (ground (arith, bump-total dir e xs))
]

blank-other :
    (d dir : Text)
    → equal_runes d [] ≡ true
    → equal_runes dir [] ≡ false
    → equal_runes d dir ≡ false
unfolding equal_runes
blank-other [] [] blank named = ground (arith, named)
blank-other [] (c ∷ cs) blank named = refl
blank-other (d ∷ ds) dir blank named = ground (arith, blank)

count_sessions-total :
    (dir : Text) (sessions : List SessionInfo) (rows : List ProjectSummary)
    → equal_runes dir [] ≡ false
    → total dir (count_sessions sessions rows) ≡ total dir rows + sessions_in dir sessions
unfolding count_sessions sessions_in
count_sessions-total dir [] rows named = omega arith
count_sessions-total dir (it ∷ its) rows named =
    elim (Bool-cases (equal_runes (directory_of it) [])) [
      | inl blank ↦
          rw (blank, blank-other (directory_of it) dir blank named)
            (count_sessions-total dir its rows named)
      | inr full ↦ rw full (
          ground (
            arith,
            bump-total (directory_of it) dir rows,
            count_sessions-total dir its (bump (directory_of it) rows) named,
          ))
    ]

abbrev pub is_skipped : Text → List ProjectSummary → Bool
is_skipped dir rows = equal_runes dir [] || equal_runes dir (codes "/") || has_dir dir rows

add_project-total :
    (dir w : Text) (rows : List ProjectSummary) → total dir (add_project w rows) ≡ total dir rows
unfolding weigh
add_project-total dir w rows = elim (Bool-cases (is_skipped w rows)) [
  | inl skip ↦ rw skip refl
  | inr added ↦ rw added (
      ground
        (arith, weigh-append (λ n. n) dir rows (record { directory = w; session_count = 0 } ∷ [])))
]

add_projects-total :
    (dir : Text) (ws : List Text) (rows : List ProjectSummary)
    → total dir (add_projects ws rows) ≡ total dir rows
unfolding add_projects weigh
add_projects-total dir [] rows = refl
add_projects-total dir (w ∷ ws) rows =
    add_projects-total dir ws (add_project (trim_slashes w) rows)
    ∙ add_project-total dir (trim_slashes w) rows

-- Every directory stands in at most one row.
abbrev pub IsOnce : List ProjectSummary → Type 0
IsOnce rows = (dir : Text) → appearances dir rows ≤ 1

appearances-new :
    (dir e : Text) (rows : List ProjectSummary)
    → has_dir dir rows ≡ false
    → equal_runes dir e ≡ true
    → appearances e rows ≡ 0
unfolding weigh has_dir
appearances-new dir e [] new same = refl
appearances-new dir e (x ∷ xs) new same =
    let alike : equal_runes x.directory dir ≡ equal_runes x.directory e =
      ap (λ d. equal_runes x.directory d) (equal_runes-eq dir e same) in
    ground (arith, new, alike, appearances-new dir e xs)

bump-appearances :
    (dir e : Text) (rows : List ProjectSummary)
    → appearances e (bump dir rows) ≡ (
        if equal_runes dir e && not (has_dir dir rows)
        then suc (appearances e rows)
        else appearances e rows)
unfolding weigh bump has_dir
bump-appearances dir e [] = ground arith
bump-appearances dir e (x ∷ xs) = elim (Bool-cases (equal_runes x.directory dir)) [
  | inl same ↦ rw same (ground arith)
  | inr other ↦ rw other (ground (arith, bump-appearances dir e xs))
]

bump-IsOnce : (dir : Text) (rows : List ProjectSummary) → IsOnce rows → IsOnce (bump dir rows)
bump-IsOnce dir rows once e =
    ground (arith, bump-appearances dir e rows, appearances-new dir e rows, once e)

count_sessions-IsOnce :
    (sessions : List SessionInfo) (rows : List ProjectSummary)
    → IsOnce rows
    → IsOnce (count_sessions sessions rows)
unfolding count_sessions
count_sessions-IsOnce [] rows once = once
count_sessions-IsOnce (it ∷ its) rows once = elim (Bool-cases (equal_runes (directory_of it) [])) [
  | inl blank ↦ rw blank (count_sessions-IsOnce its rows once)
  | inr full ↦ rw full (
      count_sessions-IsOnce its (bump (directory_of it) rows)
        (bump-IsOnce (directory_of it) rows once))
]

added-IsOnce :
    (w : Text) (rows : List ProjectSummary)
    → is_skipped w rows ≡ false
    → IsOnce rows
    → IsOnce (rows ++ record { directory = w; session_count = 0 } ∷ [])
unfolding weigh
added-IsOnce w rows added once e = ground (
  arith,
  added,
  weigh-append (λ n. 1) e rows (record { directory = w; session_count = 0 } ∷ []),
  appearances-new w e rows,
  once e,
)

add_project-IsOnce :
    (w : Text) (rows : List ProjectSummary) → IsOnce rows → IsOnce (add_project w rows)
add_project-IsOnce w rows once = elim (Bool-cases (is_skipped w rows)) [
  | inl skip ↦ rw skip once
  | inr added ↦ rw added (added-IsOnce w rows added once)
]

add_projects-IsOnce :
    (ws : List Text) (rows : List ProjectSummary) → IsOnce rows → IsOnce (add_projects ws rows)
unfolding add_projects
add_projects-IsOnce [] rows once = once
add_projects-IsOnce (w ∷ ws) rows once =
    add_projects-IsOnce ws (add_project (trim_slashes w) rows)
      (add_project-IsOnce (trim_slashes w) rows once)

-- For every directory but the empty one, the counts listed for it add up to the number of sessions
-- that work there, slashes at the end aside, and no directory is listed twice.
pub list_projects-counts :
    (sessions : List SessionInfo) (upstream : Option (List Text)) (dir : Text)
    → equal_runes dir [] ≡ false
    → (total dir (list_projects sessions upstream) ≡ sessions_in dir sessions)
      × (appearances dir (list_projects sessions upstream) ≤ 1)
unfolding list_projects weigh
list_projects-counts sessions upstream dir named =
    let found = count_sessions sessions [] in
    let rows = add_projects (worktrees upstream) found in
    let once =
      add_projects-IsOnce (worktrees upstream) found
        (count_sessions-IsOnce sessions [] (λ e. omega arith)) dir in
    (
      weigh-split (λ n. n) dir rows
          ∙ add_projects-total dir (worktrees upstream) found
          ∙ count_sessions-total dir sessions [] named
          ∙ omega arith,
      ground (arith, weigh-split (λ n. 1) dir rows, once),
    )
