-- ===== src/Document/Repository.antt =====
-- backend/internal/document/repository.go, its SQL as operations on the tables.
use online_colab_document.Base.{
  ℕ, ◌+◌, String, List, [], ◌∷◌, ◌++◌, Option, none, some, Bool, ◌&&◌, ◌||◌, nat_eq, ltb, ◌==◌,
  if◌then◌else◌, is_nil, find_where, any_where, select_where, update_where, max_where, order_by,
  take,
}
use online_colab_document.Model.Document.{Document, Version}
use online_colab_document.Model.Permission.{Permission, role_viewer, role_editor}
use online_colab_document.World.{
  internal, document_not_found, Result, ok, err, Db, M, ◌>>=◌, ◌>>◌, call, lift, query, exec,
}
use online_colab_document.Permission.Repository.{is_live, is_for_user}

abbrev begin_tx : M Db
begin_tx = call >> λ w. (ok w.db, w)

-- A statement of a transaction, on the tables as the transaction sees them.
abbrev tx_exec : (Db → Result Db) → Db → M Db
tx_exec write db = call >> lift (write db)

-- Without a commit the deferred `Rollback` leaves the tables as they were.
abbrev commit : Db → M (Unit {0})
commit db = call >> λ w. (ok tt, record w { db = db })

-- The primary key of `documents`.
unfoldable pub insert_document : Document → Db → Result Db
insert_document doc db =
    if any_where (λ d. d.id == doc.id) db.documents
    then err internal
    else ok (record db { documents = db.documents ++ doc ∷ [] })

abbrev pub has_number : String → ℕ → Version → Bool
has_number document_id n v = v.document_id == document_id && nat_eq v.version_no n

-- The primary key of `document_versions`, its unique (document_id, version_no), and its reference
-- to a document.
unfoldable pub insert_version : Version → Db → Result Db
insert_version version db =
    if any_where (λ v. v.id == version.id) db.versions
      || any_where (has_number version.document_id version.version_no) db.versions
    then err internal
    else if any_where (λ d. d.id == version.document_id) db.documents
    then ok (record db { versions = db.versions ++ version ∷ [] })
    else err internal

unfoldable pub create_with_version : Document → Version → M (Unit {0})
unfolding insert_document insert_version
create_with_version doc version = do
  tx ← begin_tx
  tx ← tx_exec (insert_document doc) tx
  tx ← tx_exec (insert_version version) tx
  commit tx

-- `ORDER BY updated_at DESC`.
abbrev newest_first : List Document → List Document
newest_first = order_by (λ c d. ltb d.updated_at c.updated_at)

unfoldable pub list_by_owner : String → M (List Document)
list_by_owner owner_id = query λ db.
    ok (
      newest_first (select_where (λ d. d.owner_id == owner_id && is_nil d.deleted_at) db.documents))

abbrev pub grants_access : String → String → Permission → Bool
grants_access document_id user_id p =
    is_for_user document_id user_id p
    && (p.permission == role_viewer || p.permission == role_editor)

-- The `SELECT DISTINCT` over the outer join with the user's permissions.
abbrev pub is_accessible : Db → String → Document → Bool
is_accessible db user_id d =
    is_nil d.deleted_at
    && (d.owner_id == user_id || any_where (grants_access d.id user_id) db.permissions)

unfoldable pub list_accessible : String → M (List Document)
list_accessible user_id =
    query λ db. ok (newest_first (select_where (is_accessible db user_id) db.documents))

unfoldable pub list_admin : ℕ → M (List Document)
list_admin limit =
    query
      λ db. ok (take limit (newest_first (select_where (λ d. is_nil d.deleted_at) db.documents)))

abbrev pub soft_deleted : ℕ → Document → Document
soft_deleted deleted_at d = record d { deleted_at = some deleted_at; updated_at = deleted_at }

abbrev soft_delete : (Document → Bool) → ℕ → M (Unit {0})
soft_delete test deleted_at = exec λ db.
    if any_where test db.documents
    then ok (record db { documents = update_where test (soft_deleted deleted_at) db.documents })
    else err document_not_found

unfoldable pub soft_delete_admin : String → ℕ → M (Unit {0})
soft_delete_admin id deleted_at = soft_delete (is_live id) deleted_at

unfoldable pub soft_delete_for_owner : String → String → ℕ → M (Unit {0})
soft_delete_for_owner id owner_id deleted_at =
    soft_delete (λ d. is_live id d && d.owner_id == owner_id) deleted_at

abbrev document_row : Option Document → Result Document
document_row none = err document_not_found
document_row (some d) = ok d

unfoldable pub find_by_id : String → M Document
find_by_id id = query λ db. document_row (find_where (is_live id) db.documents)

unfoldable pub list_versions : String → M (List Version)
list_versions document_id = query λ db. ok (
    if any_where (is_live document_id) db.documents
    then order_by (λ u v. ltb v.version_no u.version_no)
        (select_where (λ v. v.document_id == document_id) db.versions)
    else [])

abbrev version_row : Option Version → Result Version
version_row none = err document_not_found
version_row (some v) = ok v

abbrev pub is_version : String → String → Version → Bool
is_version document_id version_id v = v.document_id == document_id && v.id == version_id

unfoldable pub find_version : String → String → M Version
find_version document_id version_id = query λ db.
    if any_where (is_live document_id) db.documents
    then version_row (find_where (is_version document_id version_id) db.versions)
    else err document_not_found

-- `COALESCE(MAX(version_no), 0) + 1`.
unfoldable pub next_version_no : String → Db → ℕ
next_version_no document_id db =
    max_where (λ v. v.document_id == document_id) (λ v. v.version_no) db.versions + 1

abbrev pub with_version : Version → ℕ → Document → Document
with_version version updated_at d = record d {
  current_version_id = some version.id;
  storage_key = version.storage_key;
  size_bytes = version.size_bytes;
  updated_at = updated_at;
}

-- The `UPDATE` of the document's current version; no row means that the document is not live.
unfoldable pub set_current : String → Version → ℕ → Db → Result Db
set_current document_id version updated_at db =
    if any_where (is_live document_id) db.documents
    then ok (record db {
      documents = update_where (is_live document_id) (with_version version updated_at) db.documents;
    })
    else err document_not_found

unfoldable pub add_document_version : String → Version → ℕ → M (Unit {0})
unfolding next_version_no insert_version set_current
add_document_version document_id version updated_at = do
  tx ← begin_tx
  call
  let numbered : Version = record version { version_no = next_version_no document_id tx }
  tx ← tx_exec (insert_version numbered) tx
  tx ← tx_exec (set_current document_id numbered updated_at) tx
  commit tx
