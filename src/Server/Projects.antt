-- ===== src/Server/Projects.antt =====
-- internal/server/orchestrate.go: the sessions of OpenCode, grouped by working directory. What
-- OpenCode answers is an argument, none for an error, whose text is left out of the reply.
pub mod Counts
use opencode_backend.Base.{
  ℕ, zero, suc, Bool, true, false, String, Option, none, some, List, [], ◌∷◌, ◌++◌, if◌then◌else◌,
  not, ◌||◌, ◌==◌,
}
use opencode_backend.Automation.Text.{Text, codes}
use opencode_backend.Config.{trim_slashes}
use opencode_backend.Sql.{select_where}
use opencode_backend.Stt.Runes.{equal_runes}

-- What the grouping reads of a session.
pub record SessionInfo : Type 0 where
  pub directory : Text
  pub path : Text

unfoldable pub session_dir : SessionInfo → Text
unfolding equal_runes
session_dir it = if equal_runes it.directory [] then it.path else it.directory

pub record ProjectSummary : Type 0 where
  pub directory : Text
  pub session_count : ℕ

-- `counts[dir]++`, in the order of the first session of each directory.
unfoldable pub bump : Text → List ProjectSummary → List ProjectSummary
unfolding equal_runes
bump dir [] = record { directory = dir; session_count = 1 } ∷ []
bump dir (row ∷ rows) =
    let rest = bump dir rows in
    if equal_runes row.directory dir
    then record row { session_count = suc row.session_count } ∷ rows
    else row ∷ rest

abbrev pub directory_of : SessionInfo → Text
directory_of it = trim_slashes (session_dir it)

unfoldable pub count_sessions : List SessionInfo → List ProjectSummary → List ProjectSummary
unfolding bump session_dir trim_slashes equal_runes
count_sessions [] rows = rows
count_sessions (it ∷ its) rows =
    count_sessions its
      (if equal_runes (directory_of it) [] then rows else bump (directory_of it) rows)

unfoldable pub has_dir : Text → List ProjectSummary → Bool
unfolding equal_runes
has_dir dir [] = false
has_dir dir (row ∷ rows) = equal_runes row.directory dir || has_dir dir rows

abbrev pub add_project : Text → List ProjectSummary → List ProjectSummary
add_project dir rows =
    if equal_runes dir [] || equal_runes dir (codes "/") || has_dir dir rows
    then rows
    else rows ++ record { directory = dir; session_count = 0 } ∷ []

unfoldable pub add_projects : List Text → List ProjectSummary → List ProjectSummary
unfolding has_dir trim_slashes equal_runes
add_projects [] rows = rows
add_projects (worktree ∷ ws) rows = add_projects ws (add_project (trim_slashes worktree) rows)

abbrev pub worktrees : Option (List Text) → List Text
worktrees none = []
worktrees (some ws) = ws

abbrev pub is_used : ProjectSummary → Bool
is_used row = not (row.session_count == 0)

abbrev pub is_unused : ProjectSummary → Bool
is_unused row = row.session_count == 0

unfoldable pub list_projects : List SessionInfo → Option (List Text) → List ProjectSummary
unfolding count_sessions add_projects select_where
list_projects sessions upstream =
    let rows = add_projects (worktrees upstream) (count_sessions sessions []) in
    select_where is_used rows ++ select_where is_unused rows

pub data ProjectReply : Type 0 where
  project_refused : ℕ → String → ProjectReply
  projects_page : List ProjectSummary → ProjectReply

abbrev pub projects_of : Option (List SessionInfo) → Option (List Text) → ProjectReply
projects_of none upstream = project_refused 502 "opencode"
projects_of (some sessions) upstream = projects_page (list_projects sessions upstream)

unfoldable pub handle_projects :
    Bool → Bool → Option (List SessionInfo) → Option (List Text) → ProjectReply
unfolding list_projects
handle_projects is_get allowed sessions upstream =
    if not is_get
    then project_refused 405 "method not allowed"
    else if not allowed
    then project_refused 401 "web session or APP token required"
    else projects_of sessions upstream

abbrev pub before_slash : Text → Text
before_slash [] = []
before_slash (c ∷ cs) = let rest = before_slash cs in if c == b'/' then [] else c ∷ rest

-- `raw` is what the escaped path has behind /api/projects/, `unescape` is url.PathUnescape.
unfoldable pub project_id_from_path : (Text → Option Text) → Text → Option Text
unfolding equal_runes
project_id_from_path unescape raw =
    if equal_runes (before_slash raw) [] then none else unescape (before_slash raw)

pub data SessionsReply : Type 0 where
  sessions_refused : ℕ → String → SessionsReply
  sessions_page : Text → List SessionInfo → SessionsReply

abbrev pub sessions_of : Text → Option (List SessionInfo) → SessionsReply
sessions_of id none = sessions_refused 502 "opencode"
sessions_of id (some sessions) = sessions_page id sessions

abbrev pub sessions_at : (Text → Option (List SessionInfo)) → Option Text → SessionsReply
sessions_at fetch none = sessions_refused 400 "project id"
sessions_at fetch (some id) = sessions_of id (fetch id)

-- `fetch` gives what OpenCode answers for a directory.
unfoldable pub handle_project_sessions :
    (Text → Option Text) → (Text → Option (List SessionInfo)) → Bool → Bool → Text → SessionsReply
unfolding project_id_from_path
handle_project_sessions unescape fetch is_get allowed raw =
    if not is_get
    then sessions_refused 405 "method not allowed"
    else if not allowed
    then sessions_refused 401 "web session or APP token required"
    else sessions_at fetch (project_id_from_path unescape raw)

abbrev pub same_host : Text → Option Text → Bool
same_host host none = false
same_host host (some h) = equal_runes h host

-- `host_of` is the host of url.Parse, none for an error.
unfoldable pub check_origin : (Text → Option Text) → Text → Text → Bool
unfolding equal_runes
check_origin host_of origin host =
    if equal_runes origin [] then true else same_host host (host_of origin)
