-- ===== src/Office/Handler.antt =====
-- backend/internal/office/handler.go. Of the proxy of the web socket, the decision whether a client is
-- let through, and as what.
use online_colab_document.Base.{
  ℕ, String, List, [], ◌∷◌, Option, none, some, Bool, true, false, not, ◌||◌, ◌==◌, if◌then◌else◌,
}
use online_colab_document.Model.User.{User}
use online_colab_document.Model.Document.{Document}
use online_colab_document.Model.Audit.{RecordInput}
use online_colab_document.Model.Office.{Session, CollabSession}
use online_colab_document.World.{
  Error, office_forbidden, document_not_found, office_unsupported_file, office_too_large, now,
}
use online_colab_document.Http.Response.{
  Handler, Request, AuditRecorder, respond, refuse, serve, with_user, record_audit, audit_input,
  decimal,
}
use online_colab_document.Office.Service.{Service, Info}
use online_colab_document.Office.Service

-- `writeError`.
abbrev pub status_of : Error → ℕ × String
status_of office_forbidden = (403, "forbidden")
status_of document_not_found = (404, "document not found")
status_of office_unsupported_file = (400, "unsupported office document")
status_of office_too_large = (413, "office document too large")
status_of e = (500, "internal server error")

unfoldable pub session : Service → Option User → String → Handler Session
session s current id =
    with_user current λ u. serve status_of (Service.session s u id) λ a. respond 200 a

unfoldable pub collab_session : Service → Option User → String → Handler CollabSession
collab_session s current id =
    with_user current λ u. serve status_of (Service.collab_session s u id) λ a. respond 200 a

abbrev save_metadata : Document → ℕ → List (String × String)
save_metadata d size = ("fileExt", d.file_ext) ∷ ("size", decimal size) ∷ []

-- The answer's field `etag`.
unfoldable pub save :
    Service → Option AuditRecorder → Request → Option User → String → String → Handler String
save s recorder r current id body = with_user current λ u.
    serve status_of (Service.save s u id body) λ (d, size).
      record_audit recorder r (audit_input u "office.save" "document" d.id (save_metadata d size))
        (respond 200 d.id)

pub record WopiInfo : Type 0 where
  pub base_file_name : String
  pub size : ℕ
  pub version : String
  pub user_can_write : Bool
  pub read_only : Bool

abbrev wopi_answer : Info → WopiInfo
wopi_answer i = record {
  base_file_name = i.document.original_filename;
  size = i.document.size_bytes;
  version = i.version;
  user_can_write = i.can_edit;
  read_only = not i.can_edit;
}

unfoldable pub wopi_info : Service → String → String → Handler WopiInfo
wopi_info s token id =
    serve status_of (Service.wopi_info s token id) λ i. respond 200 (wopi_answer i)

-- A document's bytes: the headers, and the reader that they are copied from.
pub record Content : Type 0 where
  pub content_type : String
  pub item_version : Option String
  pub filename : Option String
  pub no_store : Bool
  pub reader : String

unfoldable pub wopi_content : Service → String → String → Handler Content
wopi_content s token id = serve status_of (Service.wopi_content s token id) λ (d, reader, version).
    respond 200 (record {
      content_type = d.mime_type;
      item_version = some version;
      filename = none;
      no_store = false;
      reader = reader;
    })

abbrev anonymous : String → List (String × String) → RecordInput
anonymous id metadata = record {
  actor_user_id = none;
  action = "office.save";
  target_type = "document";
  target_id = id;
  ip_addr = "";
  user_agent = "";
  metadata = metadata;
}

abbrev via_wopi : Document → ℕ → List (String × String)
via_wopi d size = ("fileExt", d.file_ext) ∷ ("size", decimal size) ∷ ("via", "wopi") ∷ []

-- The answer is the header `X-WOPI-ItemVersion`: the clock.
unfoldable pub wopi_save :
    Service → Option AuditRecorder → Request → String → String → String → Handler String
wopi_save s recorder r token id body =
    serve status_of (Service.wopi_save s token id body) λ (d, size).
      record_audit recorder r (anonymous d.id (via_wopi d size))
        (serve status_of now λ t. respond 200 (decimal t))

unfoldable pub sheets_room_info : Service → Option User → String → Handler (Unit {0})
sheets_room_info s current id =
    with_user current λ u. serve status_of (Service.sheets_room_info s u id) λ a. respond 200 tt

unfoldable pub sheets_room_seed : Service → Option User → String → Handler Content
sheets_room_seed s current id = with_user current λ u.
    serve status_of (Service.sheets_room_seed s u id) λ (d, reader). respond 200 (record {
      content_type = d.mime_type;
      item_version = none;
      filename = none;
      no_store = true;
      reader = reader;
    })

unfoldable pub docs_room_seed : Service → Option User → String → Handler Content
docs_room_seed s current id = with_user current λ u.
    serve status_of (Service.docs_room_seed s u id) λ (d, reader). respond 200 (record {
      content_type = d.mime_type;
      item_version = none;
      filename = some d.original_filename;
      no_store = true;
      reader = reader;
    })

-- The query's token: `share`, or `access_token`. The answer is the role that the upstream is told.
unfoldable pub proxy_role : Service → String → String → String → String → String → Handler String
proxy_role s kind upstream room share access_token =
    let token : String = if share == "" then access_token else share in
    if room == "" || (token == "" || upstream == "")
    then refuse 403 "forbidden"
    else serve status_of (Service.authorize_collab s token room kind) λ role. respond 101 role
