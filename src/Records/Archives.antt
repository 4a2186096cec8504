-- ===== src/Records/Archives.antt =====
-- internal/store/archive.go: the table `archives`.
use opencode_backend.Base.{
  ℕ, zero, suc, Bool, String, Option, none, some, List, [], ◌∷◌, ◌++◌, map, if◌then◌else◌, str_eq,
  ltb, ◌==◌, take, length,
}
use opencode_backend.Exec.{Result, ok, err, not_found, database, Exec}
use opencode_backend.Sql.{find_where, exists_where, count_where, delete_where, order_by}
use opencode_backend.Records.Site.{Site, Archive, ask}

abbrev pub has_archive_id : String → Archive → Bool
has_archive_id id a = str_eq a.id id

unfoldable pub create_archive : Archive → Exec Site (Unit {0})
unfolding ask exists_where
create_archive a = ask (λ s.
    if exists_where (has_archive_id a.id) s.archives
    then (err database, s)
    else (ok tt, record s { archives = s.archives ++ record a { created_at = s.now } ∷ [] }))

abbrev pub archive_limit : ℕ → ℕ
archive_limit zero = 50
archive_limit (suc n) = suc n

-- Metadata only: the content and the messages are selected as empty texts.
abbrev pub metadata : Archive → Archive
metadata a = record a { content = ""; raw_messages = "" }

unfoldable pub list_archives : ℕ → Exec Site (List Archive)
unfolding ask order_by
list_archives limit = ask (λ s. (
  ok (
      map metadata
        (take (archive_limit limit) (order_by (λ y x. ltb x.created_at y.created_at) s.archives))),
  s,
))

abbrev pub found_archive : Option Archive → Result Archive
found_archive none = err not_found
found_archive (some a) = ok a

unfoldable pub get_archive : String → Exec Site Archive
unfolding ask find_where
get_archive id = ask (λ s. (found_archive (find_where (has_archive_id id) s.archives), s))

unfoldable pub delete_archive : String → Exec Site (Unit {0})
unfolding ask count_where delete_where
delete_archive id = ask (λ s. (
  if count_where (has_archive_id id) s.archives == 0 then err not_found else ok tt,
  record s { archives = delete_where (has_archive_id id) s.archives },
))

unfoldable pub count_archives : Exec Site ℕ
unfolding ask
count_archives = ask (λ s. (ok (length s.archives), s))
