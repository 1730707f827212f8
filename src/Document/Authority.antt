-- ===== src/Document/Authority.antt =====
-- Who may change a document, with backend/internal/permission behind the service.
use online_colab_document.Base.{ℤ, String, false, ◌≡◌, arith, ◌⊎◌}
use online_colab_document.World.{World, Result, err, internal, document_forbidden}
use online_colab_document.Permission.Access.{
  access, allows_edit, allows_view, allows_manage, can_edit-cases, can_edit-ReadsOnly,
  can_view-cases, can_view-ReadsOnly, can_delete-cases, can_delete-ReadsOnly,
}
use online_colab_document.Document.Service.{
  new_service, save_markdown, restore_version, get_markdown,
}
use online_colab_document.Document.Service
use online_colab_document.Wiring.{document_service}

-- The call was refused, and has changed nothing but the count of outside calls.
abbrev pub Refused {ℓ} : {A : Type ℓ} → World → Result A × World → Type ℓ
Refused w (r, w') =
    ((r ≡ err document_forbidden) ⊎ (r ≡ err internal)) × (w' ≡ record w { calls = w'.calls })

module _ (n : ℤ) (u id : String) (w : World) where
  save_markdown-Refused :
      (content : String)
      → allows_edit (access w.db u id) ≡ false
      → Refused w (save_markdown (document_service n) u id content w)
  unfolding save_markdown document_service new_service
  save_markdown-Refused content h = ground (arith, can_edit-cases u id w, can_edit-ReadsOnly u id w)

  restore_version-Refused :
      (version_id : String)
      → allows_edit (access w.db u id) ≡ false
      → Refused w (restore_version (document_service n) u id version_id w)
  unfolding restore_version document_service new_service
  restore_version-Refused version_id h =
      ground (arith, can_edit-cases u id w, can_edit-ReadsOnly u id w)

  -- Only the owner deletes a document: for another user the call fails, and the tables, the objects
  -- and the rooms are as they were.
  pub delete-Refused :
      allows_manage (access w.db u id) ≡ false
      → Refused w (Service.delete (document_service n) u id w)
  unfolding Service.delete document_service new_service
  delete-Refused h = ground (arith, can_delete-cases u id w, can_delete-ReadsOnly u id w)

  -- A user whose role does not let him view a document cannot read it: the call fails, and the
  -- tables, the objects and the rooms are as they were.
  pub get_markdown-Refused :
      allows_view (access w.db u id) ≡ false → Refused w (get_markdown (document_service n) u id w)
  unfolding get_markdown document_service new_service
  get_markdown-Refused h = ground (arith, can_view-cases u id w, can_view-ReadsOnly u id w)

-- A user whose role does not let him edit can neither save a document nor restore a version: the
-- call fails, and the tables, the objects and the rooms are as they were.
pub edits-Refused :
    (n : ℤ) (u id content version_id : String) (w : World)
    → allows_edit (access w.db u id) ≡ false
    → Refused w (save_markdown (document_service n) u id content w)
      × Refused w (restore_version (document_service n) u id version_id w)
edits-Refused n u id content version_id w h =
    (save_markdown-Refused n u id w content h, restore_version-Refused n u id w version_id h)
