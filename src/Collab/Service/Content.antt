-- ===== src/Collab/Service/Content.antt =====
-- backend/internal/markdown/collab/service.go: the service, the access check and the stored content.
use online_colab_document.Base.{
  ℕ, ℤ, String, List, [], ◌∷◌, Bool, not, ◌==◌, if◌then◌else◌, le_zero, pos_part,
}
use online_colab_document.Model.User.{User}
use online_colab_document.Model.Collab.{
  Snapshot, ClientUpdate, UpdateData, json, undecodable, Update, PublicSnapshot,
}
use online_colab_document.World.{
  internal, collab_forbidden, collab_not_found, collab_unsupported_file, Result, ok, err, M, pure,
  throw, ◌>>=◌, ◌>>◌, attempt, reject_if,
}
use online_colab_document.Storage.{get_object, read_all}
use online_colab_document.Document.Filename.{is_text_document}
use online_colab_document.Document.Repository.{find_by_id}
use online_colab_document.Collab.Repository.{latest_snapshot, list_updates_after}
use online_colab_document.Collab.Room.{presence}

-- `permissions` is the interface `PermissionService`.
pub record Config : Type 0 where
  pub can_view : String → String → M Bool
  pub can_edit : String → String → M Bool
  pub snapshot_interval : ℕ

unfoldable pub new_service : (String → String → M Bool) → (String → String → M Bool) → ℤ → Config
new_service can_view can_edit interval = record {
  can_view = can_view;
  can_edit = can_edit;
  snapshot_interval = if le_zero interval then 100 else pos_part interval;
}

unfoldable pub check_access : Config → String → String → M Bool
check_access s user_id document_id = do
  doc ← find_by_id document_id
  reject_if (not (is_text_document doc.file_ext)) collab_unsupported_file
  views ← s.can_view user_id document_id
  reject_if (not views) collab_forbidden
  s.can_edit user_id document_id

unfoldable pub initial_document_content : String → M String
initial_document_content document_id = do
  doc ← find_by_id document_id
  reader ← get_object doc.storage_key
  read_all reader

-- The content after one stored update.
abbrev pub applied : ClientUpdate → ℕ → String × ℕ → String × ℕ
applied p update_seq (content, seq) =
    if p.type == "update" then (p.content, update_seq) else (content, seq)

abbrev pub decoded : UpdateData → Result ClientUpdate
decoded (json p) = ok p
decoded undecodable = err internal

abbrev pub and_then {ℓ κ} : {A : Type ℓ} {B : Type κ} → Result A → (A → Result B) → Result B
and_then (ok a) f = f a
and_then (err e) f = err e

-- The loop over the stored updates; one that does not decode ends it.
unfoldable pub replay : String × ℕ → List Update → Result (String × ℕ)
replay state [] = ok state
replay state (u ∷ us) =
    and_then (decoded u.update_data) λ p. replay (applied p u.update_seq state) us

-- `errors.Is(err, ErrNotFound)` falls back to the stored file.
abbrev pub start_content : String → Result Snapshot → M (String × ℕ)
start_content document_id (ok s) = pure (s.content, s.version_no)
start_content document_id (err collab_not_found) = do
  content ← initial_document_content document_id
  pure (content, 0)
start_content document_id (err e) = throw e

unfoldable pub current_content : String → M (String × ℕ)
unfolding replay initial_document_content
current_content document_id = do
  snapshot ← attempt (latest_snapshot document_id)
  (content, seq) ← start_content document_id snapshot
  updates ← list_updates_after document_id seq
  λ w. (replay (content, seq) updates, w)

unfoldable pub snapshot : Config → User → String → M PublicSnapshot
snapshot s current_user document_id = do
  edits ← check_access s current_user.id document_id
  (content, version_no) ← current_content document_id
  users ← presence document_id
  pure (record {
    document_id = document_id;
    content = content;
    version_no = version_no;
    can_edit = edits;
    users = users;
  })
