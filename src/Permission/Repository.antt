-- ===== src/Permission/Repository.antt =====
-- backend/internal/permission/repository.go, its SQL as operations on the tables.
use online_colab_document.Base.{
  String, List, [], ◌∷◌, ◌++◌, map, Option, none, some, Bool, not, ◌&&◌, ◌==◌, if◌then◌else◌,
  is_nil, ltb, find_where, any_where, select_where, update_where, delete_where, order_by,
}
use online_colab_document.Model.User.{User}
use online_colab_document.Model.Document.{Document}
use online_colab_document.Model.Permission.{Permission, subject_type_user}
use online_colab_document.World.{
  internal, permission_not_found, Result, ok, err, Db, M, query, exec,
}

-- A row of `documents` with this id that is not deleted.
abbrev pub is_live : String → Document → Bool
is_live document_id d = d.id == document_id && is_nil d.deleted_at

abbrev owner_row : Option Document → Result String
owner_row none = err permission_not_found
owner_row (some d) = ok d.owner_id

unfoldable pub document_owner_id : String → M String
document_owner_id document_id =
    query λ db. owner_row (find_where (is_live document_id) db.documents)

abbrev pub is_for_subject : String → String → String → Permission → Bool
is_for_subject document_id subject_type subject_id p =
    p.document_id == document_id && (p.subject_type == subject_type && p.subject_id == subject_id)

abbrev pub is_for_user : String → String → Permission → Bool
is_for_user document_id user_id = is_for_subject document_id subject_type_user user_id

-- The columns of a row that `scanPermission` reads, the subject's name and address given.
abbrev pub scan_permission : Option String → Option String → Permission → Permission
scan_permission name email p = record p { subject_display_name = name; subject_email = email }

abbrev permission_row : Option Permission → Result Permission
permission_row none = err permission_not_found
permission_row (some p) = ok (scan_permission none none p)

unfoldable pub find_for_user : String → String → M Permission
find_for_user document_id user_id =
    query λ db. permission_row (find_where (is_for_user document_id user_id) db.permissions)

abbrev joined : Permission → Option User → Permission
joined p none = scan_permission none none p
joined p (some u) = scan_permission (some u.display_name) (some u.email) p

-- `LEFT JOIN users u ON p.subject_type = 'user' AND p.subject_id = u.id`.
with_subject : Db → Permission → Permission
with_subject db p =
    joined p
      (find_where (λ u. p.subject_type == subject_type_user && p.subject_id == u.id) db.users)

unfoldable pub list_for_document : String → M (List Permission)
unfolding with_subject
list_for_document document_id = query λ db. ok (
    map (with_subject db) (
      order_by (λ p q. ltb p.created_at q.created_at)
        (select_where (λ p. p.document_id == document_id) db.permissions)))

-- What `INSERT … ON CONFLICT (document_id, subject_type, subject_id) DO UPDATE` writes: a row that is
-- there already keeps its id.
unfoldable pub upsert : Permission → List Permission → List Permission
upsert new rows =
    let same = is_for_subject new.document_id new.subject_type new.subject_id in
    let merge = λ (old : Permission). record old {
      permission = new.permission;
      created_by = new.created_by;
      created_at = new.created_at;
    } in
    if any_where same rows
    then update_where same merge rows
    else rows ++ scan_permission none none new ∷ []

abbrev pub has_key : String → Permission → Bool
has_key id p = p.id == id

-- A row that is inserted needs an id of its own.
abbrev pub key_clashes : Permission → List Permission → Bool
key_clashes new rows =
    not (any_where (is_for_subject new.document_id new.subject_type new.subject_id) rows)
    && any_where (has_key new.id) rows

unfoldable pub create : Permission → M (Unit {0})
unfolding upsert
create new = exec λ db.
    if key_clashes new db.permissions
    then err internal
    else ok (record db { permissions = upsert new db.permissions })

abbrev pub is_permission : String → String → Permission → Bool
is_permission document_id permission_id p = p.document_id == document_id && p.id == permission_id

unfoldable pub delete : String → String → M (Unit {0})
delete document_id permission_id = exec λ db.
    let named = is_permission document_id permission_id in
    if any_where named db.permissions
    then ok (record db { permissions = delete_where named db.permissions })
    else err permission_not_found
