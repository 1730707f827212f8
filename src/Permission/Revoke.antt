-- ===== src/Permission/Revoke.antt =====
-- What a deletion does to the roles, where a subject of a document has one row.
use online_colab_document.Base.{
  String, List, [], ◌∷◌, Option, some, none, Bool, false, ◌&&◌, ◌==◌, if◌then◌else◌, ◌≡◌, refl,
  arith, find_where, any_where, delete_where, ==_iff, ==_refl, subst, Bool-cases, inl, inr,
  find_where-delete_where, find_where-true,
}
use online_colab_document.Model.Permission.{Permission, role_owner, role_none}
use online_colab_document.World.{World, Db, ok}
use online_colab_document.Permission.Repository.{
  is_live, is_for_user, is_for_subject, is_permission, upsert, scan_permission,
}
use online_colab_document.Permission.Service
use online_colab_document.Permission.Service.{GrantInput, grant, can_manage}
use online_colab_document.Permission.Repository
use online_colab_document.Permission.Access.{
  access, granted, granted-ne-owner, none_is_not_owner, can_manage-cases, can_manage-ReadsOnly,
}
use online_colab_document.Permission.Upsert.{same_subject, any_same}

-- The index document_permissions_unique_subject.
abbrev pub UniqueSubjects : List Permission → Type 0
UniqueSubjects [] = Unit
UniqueSubjects (p ∷ ps) = (any_where (same_subject p) ps ≡ false) × UniqueSubjects ps

module _ (d u pid : String) where
  abbrev revoked : Option Permission → Bool
  revoked none = false
  revoked (some p) = p.document_id == d && p.id == pid

  remaining : Option Permission → Option Permission
  remaining o = if revoked o then none else o

  -- A user who has no second row has none after the deletion of the first.
  find-delete :
      (rows : List Permission)
      → UniqueSubjects rows
      → find_where (is_for_user d u) (delete_where (is_permission d pid) rows)
        ≡ remaining (find_where (is_for_user d u) rows)
  unfolding find_where delete_where remaining
  find-delete [] h = refl
  find-delete (x ∷ xs) (h, hs) = ground (arith, any_same x u d xs, find-delete xs hs)

delete_owner :
    (a d pid : String) (w : World) {w' : World}
    → Service.delete a d pid w ≡ (ok tt, w')
    → access w.db a d ≡ role_owner
unfolding Service.delete
delete_owner a d pid w h =
    ground (arith, can_manage-cases a d w, ==_iff (access w.db a d) role_owner)

delete_rows :
    (a d pid : String) (w : World) {w' : World}
    → Service.delete a d pid w ≡ (ok tt, w')
    → (w'.db ≡ record w.db { permissions = delete_where (is_permission d pid) w.db.permissions })
unfolding Service.delete Repository.delete
delete_rows a d pid w h = ground (arith, can_manage-ReadsOnly a d w)

find-delete_elsewhere :
    (d e u pid : String) (rows : List Permission)
    → (d == e) ≡ false
    → find_where (is_for_user e u) (delete_where (is_permission d pid) rows)
      ≡ find_where (is_for_user e u) rows
find-delete_elsewhere d e u pid rows h =
    find_where-delete_where (is_for_user e u) (is_permission d pid) rows
      (λ x k. ground (arith, ==_iff x.document_id d, ==_iff x.document_id e, ==_iff d e))

-- Whether the user's role at the document comes from the row with this id.
abbrev pub is_granted_by : String → Option Permission → Bool
is_granted_by pid none = false
is_granted_by pid (some p) = p.id == pid

abbrev after_delete : Db → String → String → String → String → String
after_delete db d pid u e =
    if d == e && is_granted_by pid (find_where (is_for_user e u) db.permissions)
    then (if access db u e == role_owner then role_owner else role_none)
    else access db u e

module _ (db : Db) (d pid u : String) (unique : UniqueSubjects db.permissions) where
  abbrev row : Option Permission
  row = find_where (is_for_user d u) db.permissions

  revoked-row : (o : Option Permission) → row ≡ o → revoked d u pid o ≡ is_granted_by pid o
  revoked-row none e = refl
  revoked-row (some p) e = ground (arith, find_where-true (is_for_user d u) db.permissions e)

  granted-remaining :
      granted (remaining d u pid row) ≡ (if is_granted_by pid row then role_none else granted row)
  unfolding remaining
  granted-remaining = ground (arith, revoked-row row refl)

  access-delete_here :
      access (record db { permissions = delete_where (is_permission d pid) db.permissions }) u d
      ≡ after_delete db d pid u d
  unfolding access
  access-delete_here = rw (find-delete d u pid db.permissions unique) (
      ground (
        arith,
        granted-remaining,
        ==_refl d,
        ==_refl role_owner,
        none_is_not_owner,
        granted-ne-owner row,
        ==_iff (access db u d) role_owner,
      ))

access-delete_elsewhere :
    (db : Db) (d pid u e : String)
    → (d == e) ≡ false
    → access (record db { permissions = delete_where (is_permission d pid) db.permissions }) u e
      ≡ after_delete db d pid u e
unfolding access
access-delete_elsewhere db d pid u e h = rw (find-delete_elsewhere d e u pid db.permissions h, h)

access-delete :
    (db : Db) (d pid u e : String)
    → UniqueSubjects db.permissions
    → access (record db { permissions = delete_where (is_permission d pid) db.permissions }) u e
      ≡ after_delete db d pid u e
access-delete db d pid u e unique = elim (Bool-cases (d == e)) [
  | inl same ↦
      subst
        (λ x.
          access (record db { permissions = delete_where (is_permission d pid) db.permissions }) u x
          ≡ after_delete db d pid u x)
        ((==_iff d e).0 same) (access-delete_here db d pid u unique)
  | inr other ↦ access-delete_elsewhere db d pid u e other
]

-- Where every subject of a document has at most one row, a deletion that succeeds was made by
-- the document's owner, and takes the role from exactly the user whose row at this document has
-- the id; an owner stays one, and every other role is as it was.
pub delete-access :
    (a d pid : String) (w : World) (u e : String) {w' : World}
    → UniqueSubjects w.db.permissions
    → Service.delete a d pid w ≡ (ok tt, w')
    → (access w.db a d ≡ role_owner)
      × (access w'.db u e ≡ (
          if d == e && is_granted_by pid (find_where (is_for_user e u) w.db.permissions)
          then (if access w.db u e == role_owner then role_owner else role_none)
          else access w.db u e))
delete-access a d pid w u e unique h =
    (delete_owner a d pid w h, rw (delete_rows a d pid w h) (access-delete w.db d pid u e unique))
