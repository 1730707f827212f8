-- ===== src/Permission/Service.antt =====
-- backend/internal/permission/service.go.
use online_colab_document.Base.{
  String, List, some, none, Bool, not, ◌&&◌, ◌||◌, ◌==◌, if◌then◌else◌,
}
use online_colab_document.Model.Permission.{
  Permission, subject_type_user, role_owner, role_editor, role_viewer, role_none,
}
use online_colab_document.World.{
  permission_forbidden, permission_invalid_input, permission_not_found, Result, ok, err, M, pure,
  throw, ◌>>=◌, ◌>>◌, attempt, reject_if, now,
}
use online_colab_document.Uuid.{new_uuid}
use online_colab_document.Permission.Repository.{
  document_owner_id, find_for_user, list_for_document, create,
}
use online_colab_document.Permission.Repository

pub record GrantInput : Type 0 where
  pub actor_id : String
  pub document_id : String
  pub subject_type : String
  pub subject_id : String
  pub permission : String

-- `errors.Is(err, ErrNotFound)` turns a missing row into `RoleNone`.
abbrev or_none : {A : Type 0} → Result A → (A → M String) → M String
or_none (ok a) f = f a
or_none (err permission_not_found) f = pure role_none
or_none (err e) f = throw e

abbrev granted_role : Permission → M String
granted_role p =
    if not (p.permission == role_editor) && not (p.permission == role_viewer)
    then pure role_none
    else pure p.permission

unfoldable pub role : String → String → M String
role user_id document_id = if user_id == "" || document_id == "" then pure role_none else do
  owner ← attempt (document_owner_id document_id)
  or_none owner λ owner_id. if owner_id == user_id then pure role_owner else do
    permission ← attempt (find_for_user document_id user_id)
    or_none permission granted_role

unfoldable pub can_view : String → String → M Bool
can_view user_id document_id = do
  r ← role user_id document_id
  pure (r == role_owner || (r == role_editor || r == role_viewer))

unfoldable pub can_edit : String → String → M Bool
can_edit user_id document_id = do
  r ← role user_id document_id
  pure (r == role_owner || r == role_editor)

unfoldable pub can_manage : String → String → M Bool
can_manage user_id document_id = do r ← role user_id document_id; pure (r == role_owner)

unfoldable pub can_delete : String → String → M Bool
can_delete user_id document_id = do r ← role user_id document_id; pure (r == role_owner)

unfoldable pub can_share : String → String → M Bool
can_share user_id document_id = do r ← role user_id document_id; pure (r == role_owner)

unfoldable pub list : String → String → M (List Permission)
list actor_id document_id = do
  manages ← can_manage actor_id document_id
  reject_if (not manages) permission_forbidden
  list_for_document document_id

unfoldable pub grant : GrantInput → M Permission
grant input = do
  reject_if
      (not (input.subject_type == subject_type_user)
        || (input.subject_id == "" || input.document_id == ""))
      permission_invalid_input
  reject_if (not (input.permission == role_editor) && not (input.permission == role_viewer))
      permission_invalid_input
  manages ← can_manage input.actor_id input.document_id
  reject_if (not manages) permission_forbidden
  id ← new_uuid
  created_at ← now
  let permission : Permission = record {
    id = id;
    document_id = input.document_id;
    subject_type = input.subject_type;
    subject_id = input.subject_id;
    subject_display_name = none;
    subject_email = none;
    permission = input.permission;
    created_by = some input.actor_id;
    created_at = created_at;
  }
  create permission
  pure permission

unfoldable pub delete : String → String → String → M (Unit {0})
delete actor_id document_id permission_id = do
  reject_if (permission_id == "" || document_id == "") permission_invalid_input
  manages ← can_manage actor_id document_id
  reject_if (not manages) permission_forbidden
  Repository.delete document_id permission_id
