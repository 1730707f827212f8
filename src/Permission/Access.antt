-- ===== src/Permission/Access.antt =====
-- The role that the tables give a user, and that `Role` reads it.
use online_colab_document.Base.{
  ℕ, suc, String, Option, some, none, Bool, false, ◌||◌, ◌==◌, if◌then◌else◌, ◌≡◌, refl, ◌⊎◌, arith,
  find_where, ==_iff,
}
use online_colab_document.Model.Document.{Document}
use online_colab_document.Model.Permission.{
  Permission, role_owner, role_editor, role_viewer, role_none,
}
use online_colab_document.World.{Db, World, ok, err, internal}
use online_colab_document.Permission.Repository.{
  is_live, is_for_user, document_owner_id, find_for_user,
}
use online_colab_document.Permission.Service.{
  role, can_view, can_edit, can_manage, can_delete, can_share,
}

abbrev pub granted : Option Permission → String
granted none = role_none
granted (some p) =
    if p.permission == role_editor || p.permission == role_viewer then p.permission else role_none

abbrev pub role_of : String → Option Document → String → String
role_of user_id none g = role_none
role_of user_id (some d) g = if d.owner_id == user_id then role_owner else g

abbrev pub role_at : String → String → Option Document → String → String
role_at user_id document_id doc g =
    if user_id == "" || document_id == "" then role_none else role_of user_id doc g

-- The role that the tables give: of the live document's owner, or of the user's row.
unfoldable pub access : Db → String → String → String
access db user_id document_id =
    role_at user_id document_id (find_where (is_live document_id) db.documents)
      (granted (find_where (is_for_user document_id user_id) db.permissions))

editor_is_not_owner : (role_editor == role_owner) ≡ false
unfolding ◌==◌
editor_is_not_owner = refl

viewer_is_not_owner : (role_viewer == role_owner) ≡ false
unfolding ◌==◌
viewer_is_not_owner = refl

pub none_is_not_owner : (role_none == role_owner) ≡ false
unfolding ◌==◌
none_is_not_owner = refl

-- No row makes its subject an owner.
pub granted-ne-owner : (o : Option Permission) → (granted o == role_owner) ≡ false
granted-ne-owner none = none_is_not_owner
granted-ne-owner (some p) = ground (
  arith,
  ==_iff p.permission role_editor,
  ==_iff p.permission role_viewer,
  editor_is_not_owner,
  viewer_is_not_owner,
  none_is_not_owner,
)

pub role_at-ne-owner : (u d g : String) → (role_at u d none g == role_owner) ≡ false
role_at-ne-owner u d g = ground (arith, none_is_not_owner)

abbrev pub allows_view : String → Bool
allows_view r = r == role_owner || (r == role_editor || r == role_viewer)

pub none_is_no_role : allows_view role_none ≡ false
unfolding ◌==◌
none_is_no_role = refl

abbrev pub allows_edit : String → Bool
allows_edit r = r == role_owner || r == role_editor

abbrev pub allows_manage : String → Bool
allows_manage r = r == role_owner

module _ (u d : String) (w : World) where
  pub role-cases : ((role u d w).0 ≡ ok (access w.db u d)) ⊎ ((role u d w).0 ≡ err internal)
  unfolding role document_owner_id find_for_user access
  role-cases = ground arith

  pub role-ReadsOnly : (role u d w).1 ≡ record w { calls = (role u d w).1.calls }
  unfolding role document_owner_id find_for_user
  role-ReadsOnly = ground arith

  pub can_view-cases :
      ((can_view u d w).0 ≡ ok (allows_view (access w.db u d)))
      ⊎ ((can_view u d w).0 ≡ err internal)
  unfolding can_view
  can_view-cases = ground (arith, role-cases)

  pub can_view-ReadsOnly : (can_view u d w).1 ≡ record w { calls = (can_view u d w).1.calls }
  unfolding can_view
  can_view-ReadsOnly = ground (arith, role-ReadsOnly)

  pub can_edit-cases :
      ((can_edit u d w).0 ≡ ok (allows_edit (access w.db u d)))
      ⊎ ((can_edit u d w).0 ≡ err internal)
  unfolding can_edit
  can_edit-cases = ground (arith, role-cases)

  pub can_edit-ReadsOnly : (can_edit u d w).1 ≡ record w { calls = (can_edit u d w).1.calls }
  unfolding can_edit
  can_edit-ReadsOnly = ground (arith, role-ReadsOnly)

  pub can_manage-cases :
      ((can_manage u d w).0 ≡ ok (allows_manage (access w.db u d)))
      ⊎ ((can_manage u d w).0 ≡ err internal)
  unfolding can_manage
  can_manage-cases = ground (arith, role-cases)

  pub can_manage-ReadsOnly : (can_manage u d w).1 ≡ record w { calls = (can_manage u d w).1.calls }
  unfolding can_manage
  can_manage-ReadsOnly = ground (arith, role-ReadsOnly)

  pub can_delete-cases :
      ((can_delete u d w).0 ≡ ok (allows_manage (access w.db u d)))
      ⊎ ((can_delete u d w).0 ≡ err internal)
  unfolding can_delete
  can_delete-cases = ground (arith, role-cases)

  pub can_delete-ReadsOnly : (can_delete u d w).1 ≡ record w { calls = (can_delete u d w).1.calls }
  unfolding can_delete
  can_delete-ReadsOnly = ground (arith, role-ReadsOnly)

  pub can_share-cases :
      ((can_share u d w).0 ≡ ok (allows_manage (access w.db u d)))
      ⊎ ((can_share u d w).0 ≡ err internal)
  unfolding can_share
  can_share-cases = ground (arith, role-cases)

  pub can_share-ReadsOnly : (can_share u d w).1 ≡ record w { calls = (can_share u d w).1.calls }
  unfolding can_share
  can_share-ReadsOnly = ground (arith, role-ReadsOnly)

role_calm :
    (u d : String) (w : World)
    → ((n : ℕ) → w.env.fault n ≡ false)
    → (role u d w).0 ≡ ok (access w.db u d)
unfolding role document_owner_id find_for_user access
role_calm u d w calm = ground (arith, calm w.calls, calm (suc w.calls))

-- If no outside call fails, `Role` answers with the role that the tables give the user at the
-- document, and each permission check with whether that role is one that it asks for: any of the
-- three to view, owner or editor to edit, owner to manage, delete and share.
pub role-access :
    (u d : String) (w : World)
    → ((n : ℕ) → w.env.fault n ≡ false)
    → ((role u d w).0 ≡ ok (access w.db u d))
      × ((can_view u d w).0 ≡ ok (allows_view (access w.db u d)))
      × ((can_edit u d w).0 ≡ ok (allows_edit (access w.db u d)))
      × ((can_manage u d w).0 ≡ ok (allows_manage (access w.db u d)))
      × ((can_delete u d w).0 ≡ ok (allows_manage (access w.db u d)))
      × ((can_share u d w).0 ≡ ok (allows_manage (access w.db u d)))
unfolding can_view can_edit can_manage can_delete can_share
role-access u d w calm =
    let r = role_calm u d w calm in
    (r, ground arith, ground arith, ground arith, ground arith, ground arith)
