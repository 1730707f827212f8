-- ===== src/Share/Service.antt =====
-- backend/internal/share/service.go.
use Prim.Native.String.{◌++◌}
use online_colab_document.Base.{
  ℕ, String, List, Option, some, none, Bool, true, false, not, ◌&&◌, ◌||◌, ltb, ◌==◌, if◌then◌else◌,
}
use online_colab_document.Text.{to_lower, trim_prefix, trim_right, is_slash}
use online_colab_document.Model.Document.{Document}
use online_colab_document.Model.Document
use online_colab_document.Model.Share.{
  Link, CreateResponse, AccessResponse, permission_viewer, permission_editor, to_public,
}
use online_colab_document.World.{
  share_forbidden, share_invalid_input, share_not_found, share_expired, share_disabled,
  share_unsupported_file, ok, M, pure, ◌>>=◌, ◌>>◌, reject_if, now,
}
use online_colab_document.Uuid.{new_uuid, new_token}
use online_colab_document.Storage.{get_object, read_all}
use online_colab_document.Document.Repository
use online_colab_document.Document.Service.{store_version, key_for, Download}
use online_colab_document.Share.Repository.{create, list_for_document, find_by_token_hash}
use online_colab_document.Share.Repository as Links

-- `permissions` is the interface `PermissionService`, which has `CanShare` alone.
pub record Config : Type 0 where
  pub can_share : String → String → M Bool
  pub public_app_url : String

unfoldable pub new_service : (String → String → M Bool) → String → Config
unfolding trim_right is_slash
new_service can_share url = record {
  can_share = can_share;
  public_app_url = trim_right is_slash url;
}

pub record CreateInput : Type 0 where
  pub actor_id : String
  pub document_id : String
  pub permission : String
  pub expires_at : Option ℕ

unfoldable pub hash_token : String → M String
hash_token token w = (ok (w.env.sha256_hex token), w)

share_url : Config → String → String
share_url s token =
    if s.public_app_url == "" then "/share/" ++ token else s.public_app_url ++ "/share/" ++ token

unfoldable pub create_link : Config → CreateInput → M CreateResponse
unfolding share_url hash_token
create_link s input = do
  reject_if (input.actor_id == "" || input.document_id == "") share_invalid_input
  reject_if
      (not (input.permission == permission_viewer) && not (input.permission == permission_editor))
      share_invalid_input
  shares ← s.can_share input.actor_id input.document_id
  reject_if (not shares) share_forbidden
  Repository.find_by_id input.document_id
  id ← new_uuid
  token ← new_token
  token_hash ← hash_token token
  created_at ← now
  let link : Link = record {
    id = id;
    document_id = input.document_id;
    token_hash = token_hash;
    permission = input.permission;
    expires_at = input.expires_at;
    disabled = false;
    created_by = some input.actor_id;
    created_at = created_at;
  }
  create link
  pure (record { public_link = to_public link; token = token; url = share_url s token })

unfoldable pub list : Config → String → String → M (List Link)
list s actor_id document_id = do
  reject_if (actor_id == "" || document_id == "") share_invalid_input
  shares ← s.can_share actor_id document_id
  reject_if (not shares) share_forbidden
  list_for_document document_id

unfoldable pub disable : Config → String → String → M (Unit {0})
disable s actor_id link_id = do
  reject_if (actor_id == "" || link_id == "") share_invalid_input
  link ← Links.find_by_id link_id
  shares ← s.can_share actor_id link.document_id
  reject_if (not shares) share_forbidden
  Links.disable link_id

-- The clock is read only for a link with a date.
abbrev check_expiry : Option ℕ → M (Unit {0})
check_expiry none = pure tt
check_expiry (some expires_at) = do t ← now; reject_if (not (ltb t expires_at)) share_expired

unfoldable pub valid_link : String → M (Link × Document)
unfolding hash_token
valid_link token = do
  reject_if (token == "") share_not_found
  token_hash ← hash_token token
  link ← find_by_token_hash token_hash
  reject_if link.disabled share_disabled
  check_expiry link.expires_at
  doc ← Repository.find_by_id link.document_id
  pure (link, doc)

unfoldable pub is_markdown_document : String → Bool
unfolding to_lower trim_prefix
is_markdown_document file_ext =
    let ext = to_lower (trim_prefix "." file_ext) in ext == "md" || ext == "markdown"

unfoldable pub read_document_content : Document → M String
read_document_content doc = do reader ← get_object doc.storage_key; read_all reader

unfoldable pub access : String → M AccessResponse
unfolding read_document_content
access token = do
  (link, doc) ← valid_link token
  let edits = link.permission == permission_editor
  content ← if is_markdown_document doc.file_ext then read_document_content doc else pure ""
  pure (record {
    document = Document.to_public doc false edits;
    content = content;
    can_edit = edits;
  })

unfoldable pub download : String → M Download
download token = do
  (_, doc) ← valid_link token
  reader ← get_object doc.storage_key
  pure (record { document = doc; reader = reader })

unfoldable pub save_markdown : String → String → M AccessResponse
save_markdown token content = do
  (link, doc) ← valid_link token
  reject_if (not (link.permission == permission_editor)) share_forbidden
  reject_if (not (is_markdown_document doc.file_ext)) share_unsupported_file
  store_version (key_for doc) doc content none
  updated ← Repository.find_by_id doc.id
  pure (record {
    document = Document.to_public updated false true;
    content = content;
    can_edit = true;
  })
