-- ===== src/Share/Handler.antt =====
-- backend/internal/share/handler.go.
use online_colab_document.Base.{
  ℕ, String, List, [], ◌∷◌, map, Option, none, some, Bool, if◌then◌else◌,
}
use online_colab_document.Model.User.{User}
use online_colab_document.Model.Audit.{RecordInput}
use online_colab_document.Model.Share.{PublicLink, CreateResponse, AccessResponse, to_public}
use online_colab_document.World.{
  Error, share_forbidden, share_invalid_input, share_not_found, share_expired, share_disabled,
  share_unsupported_file, document_not_found, Env,
}
use online_colab_document.Http.Response.{
  Handler, Request, AuditRecorder, respond, refuse, serve, with_user, record_audit, audit_input,
  decimal,
}
use online_colab_document.Document.Handler.{Attachment, attachment, size_metadata, decoded}
use online_colab_document.Share.Service.{Config}
use online_colab_document.Share.Service

-- `writeError`.
abbrev pub status_of : Error → ℕ × String
status_of share_forbidden = (403, "forbidden")
status_of share_invalid_input = (400, "invalid share input")
status_of share_not_found = (404, "share link not found")
status_of document_not_found = (404, "document not found")
status_of share_expired = (403, "share link expired")
status_of share_disabled = (403, "share link disabled")
status_of share_unsupported_file = (400, "unsupported shared file")
status_of e = (500, "internal server error")

pub record CreateRequest : Type 0 where
  pub permission : String
  pub expires_at : Option ℕ

abbrev with_request : {A : Type 0} → Option CreateRequest → (CreateRequest → Handler A) → Handler A
with_request none k = refuse 400 "invalid json"
with_request (some req) k = k req

-- The JSON of a time that may be missing.
abbrev time_text : Env → Option ℕ → String
time_text env none = "null"
time_text env (some t) = env.rfc3339_nano t

abbrev create_metadata : Env → PublicLink → List (String × String)
create_metadata env l =
    ("shareLinkId", l.id)
    ∷ ("permission", l.permission)
    ∷ ("expiresAt", time_text env l.expires_at)
    ∷ []

unfoldable pub create :
    Config
    → Option AuditRecorder
    → Request
    → Option User
    → String
    → Option CreateRequest
    → Handler CreateResponse
create s recorder r current id body = with_user current λ u. with_request body λ req.
    serve status_of
      (Service.create_link s (record {
        actor_id = u.id;
        document_id = id;
        permission = req.permission;
        expires_at = req.expires_at;
      }))
      λ c w.
        record_audit recorder r
          (audit_input u "share.create" "document" c.public_link.document_id
            (create_metadata w.env c.public_link))
          (respond 201 c) w

unfoldable pub list : Config → Option User → String → Handler (List PublicLink)
list s current id =
    with_user current
      λ u. serve status_of (Service.list s u.id id) λ links. respond 200 (map to_public links)

unfoldable pub disable :
    Config → Option AuditRecorder → Request → Option User → String → Handler (Unit {0})
disable s recorder r current id = with_user current λ u.
    serve status_of (Service.disable s u.id id) λ a.
      record_audit recorder r (audit_input u "share.disable" "share_link" id []) (respond 200 tt)

-- The routes of a token name no user.
abbrev anonymous : String → String → List (String × String) → RecordInput
anonymous action id metadata = record {
  actor_user_id = none;
  action = action;
  target_type = "document";
  target_id = id;
  ip_addr = "";
  user_agent = "";
  metadata = metadata;
}

abbrev bool_text : Bool → String
bool_text b = if b then "true" else "false"

unfoldable pub access : Option AuditRecorder → Request → String → Handler AccessResponse
access recorder r token = serve status_of (Service.access token) λ a.
    record_audit recorder r
      (anonymous "share.access" a.document.id (("canEdit", bool_text a.can_edit) ∷ []))
      (respond 200 a)

unfoldable pub download : Option AuditRecorder → Request → String → Handler Attachment
download recorder r token = serve status_of (Service.download token) λ d.
    record_audit recorder r (anonymous "share.download" d.document.id (size_metadata d.document))
      (respond 200 (attachment d.document d.document.size_bytes d.reader))

unfoldable pub save_markdown :
    Option AuditRecorder → Request → String → Option String → Handler AccessResponse
save_markdown recorder r token body = decoded body λ content.
    serve status_of (Service.save_markdown token content) λ a.
      record_audit recorder r
        (anonymous "share.markdown_save" a.document.id
          (("sizeBytes", decimal a.document.size_bytes) ∷ []))
        (respond 200 a)
