-- ===== src/Share/Repository.antt =====
-- backend/internal/share/repository.go, its SQL as operations on the tables.
use online_colab_document.Base.{
  String, List, [], ◌∷◌, ◌++◌, Option, none, some, Bool, true, ◌||◌, ltb, ◌==◌, if◌then◌else◌,
  find_where, any_where, select_where, update_where, order_by,
}
use online_colab_document.Model.Share.{Link}
use online_colab_document.World.{internal, share_not_found, Result, ok, err, M, query, exec}

-- The primary key, and the unique `token_hash`.
unfoldable pub create : Link → M (Unit {0})
create link = exec λ db.
    if any_where (λ l. l.id == link.id || l.token_hash == link.token_hash) db.links
    then err internal
    else ok (record db { links = db.links ++ link ∷ [] })

unfoldable pub list_for_document : String → M (List Link)
list_for_document document_id = query λ db. ok (
    order_by (λ k l. ltb l.created_at k.created_at)
      (select_where (λ l. l.document_id == document_id) db.links))

abbrev link_row : Option Link → Result Link
link_row none = err share_not_found
link_row (some l) = ok l

unfoldable pub find_by_id : String → M Link
find_by_id id = query λ db. link_row (find_where (λ l. l.id == id) db.links)

abbrev pub has_hash : String → Link → Bool
has_hash token_hash l = l.token_hash == token_hash

unfoldable pub find_by_token_hash : String → M Link
find_by_token_hash token_hash = query λ db. link_row (find_where (has_hash token_hash) db.links)

abbrev pub disabled_link : Link → Link
disabled_link l = record l { disabled = true }

unfoldable pub disable : String → M (Unit {0})
disable id = exec λ db.
    if any_where (λ l. l.id == id) db.links
    then ok (record db { links = update_where (λ l. l.id == id) disabled_link db.links })
    else err share_not_found
