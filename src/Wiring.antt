-- ===== src/Wiring.antt =====
-- backend/internal/server/server.go: which service each service is given. The limits that the
-- configuration names are arguments.
use online_colab_document.Base.{ℕ, ℤ, String, some}
use online_colab_document.Permission.Service.{can_view, can_edit, can_manage, can_delete, can_share}
use online_colab_document.Document.Service as Documents
use online_colab_document.Document.Service.{PermissionService}
use online_colab_document.Share.Service as Shares
use online_colab_document.Collab.Service as Collabs
use online_colab_document.Model.Office as Office
use online_colab_document.Office.Service as Offices
use online_colab_document.Local.Password.{hash_password, verify_password}
use online_colab_document.Local.Service as Accounts

unfoldable pub permission_service : PermissionService
permission_service = record {
  can_view = can_view;
  can_edit = can_edit;
  can_manage = can_manage;
  can_delete = can_delete;
}

unfoldable pub document_service : ℤ → Documents.Config
unfolding permission_service
document_service max_upload_bytes = Documents.new_service (some permission_service) max_upload_bytes

unfoldable pub share_service : String → Shares.Config
share_service public_app_url = Shares.new_service can_share public_app_url

unfoldable pub collab_service : ℤ → Collabs.Config
collab_service interval = Collabs.new_service can_view can_edit interval

unfoldable pub local_service : String → ℕ → Accounts.Config
local_service pepper session_ttl = record {
  pepper = pepper;
  session_ttl = session_ttl;
  hash_password = hash_password;
  verify_password = verify_password;
}

unfoldable pub office_service : Office.Config → Offices.Service
office_service cfg = Offices.new_service cfg (record { can_view = can_view; can_edit = can_edit })
