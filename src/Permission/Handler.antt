-- ===== src/Permission/Handler.antt =====
-- backend/internal/permission/handler.go.
use online_colab_document.Base.{String, List, [], ◌∷◌, map, Option, none, some}
use online_colab_document.Model.User.{User}
use online_colab_document.Model.Permission.{Permission, PublicPermission, to_public}
use online_colab_document.World.{
  Error, permission_forbidden, permission_invalid_input, permission_not_found,
}
use online_colab_document.Http.Response.{
  Handler, Request, AuditRecorder, respond, refuse, serve, with_user, record_audit, audit_input,
}
use online_colab_document.Permission.Service
use online_colab_document.Base.{ℕ}

-- `writeError`.
abbrev pub status_of : Error → ℕ × String
status_of permission_forbidden = (403, "forbidden")
status_of permission_invalid_input = (400, "invalid permission input")
status_of permission_not_found = (404, "permission not found")
status_of e = (500, "internal server error")

pub record GrantRequest : Type 0 where
  pub subject_type : String
  pub subject_id : String
  pub permission : String

unfoldable pub list : Option User → String → Handler (List PublicPermission)
list current id = with_user current λ u.
    serve status_of (Service.list u.id id) λ permissions. respond 200 (map to_public permissions)

abbrev decoded : {A : Type 0} → Option GrantRequest → (GrantRequest → Handler A) → Handler A
decoded none k = refuse 400 "invalid json"
decoded (some req) k = k req

abbrev grant_metadata : Permission → List (String × String)
grant_metadata p =
    ("permissionId", p.id)
    ∷ ("subjectType", p.subject_type)
    ∷ ("subjectId", p.subject_id)
    ∷ ("permission", p.permission)
    ∷ []

-- The body is what the JSON decoder gives, none for an error.
unfoldable pub grant :
    Option AuditRecorder
    → Request
    → Option User
    → String
    → Option GrantRequest
    → Handler PublicPermission
grant recorder r current id body = with_user current λ u. decoded body λ req.
    serve status_of
      (Service.grant (record {
        actor_id = u.id;
        document_id = id;
        subject_type = req.subject_type;
        subject_id = req.subject_id;
        permission = req.permission;
      }))
      λ p.
        record_audit recorder r
          (audit_input u "permission.grant" "document" p.document_id (grant_metadata p))
          (respond 201 (to_public p))

unfoldable pub delete :
    Option AuditRecorder → Request → Option User → String → String → Handler (Unit {0})
delete recorder r current id permission_id = with_user current λ u.
    serve status_of (Service.delete u.id id permission_id) λ a.
      record_audit recorder r
        (audit_input u "permission.delete" "document" id (("permissionId", permission_id) ∷ []))
        (respond 200 tt)
