-- ===== src/Document/Routes.antt =====
-- What the routes of the documents answer.
use online_colab_document.Base.{ℤ, String, Option, some, false, ◌≡◌, ◌⊎◌, refl, arith, inl, inr}
use online_colab_document.Model.User.{User}
use online_colab_document.World.{World, internal, document_forbidden, Result, ok, err, M}
use online_colab_document.Permission.Access.{access, allows_edit, allows_manage}
use online_colab_document.Http.Response.{
  Handler, Request, AuditRecorder, Response, refused, serve, after,
}
use online_colab_document.Document.Service.{MarkdownDocument, save_markdown, restore_version}
use online_colab_document.Document.Service
use online_colab_document.Document.Handler.{MarkdownResponse, status_of, update_markdown}
use online_colab_document.Document.Handler
use online_colab_document.Document.Authority.{Refused, edits-Refused, delete-Refused}
use online_colab_document.Wiring.{document_service}

-- The route answers that it is forbidden, or that a call failed, and has changed nothing but the
-- count of outside calls.
abbrev pub Forbids : {A : Type 0} → World → Response A × World → Type 0
Forbids w (r, w') =
    ((r ≡ refused 403 "forbidden") ⊎ (r ≡ refused 500 "internal server error"))
    × (w' ≡ record w { calls = w'.calls })

serve-Forbids :
    {A B : Type 0} (m : M A) (k : A → Handler B) (w : World)
    → Refused w (m w)
    → Forbids w (serve status_of m k w)
serve-Forbids {A} {B} m k w h = go (m w) h
  where
    go : (r : Result A × World) → Refused w r → Forbids w (after status_of r k)
    go (ok a, v) (inl e, same) = absurd (ground arith)
    go (ok a, v) (inr e, same) = absurd (ground arith)
    go (err e, v) (inl f, same) =
        let g : e ≡ document_forbidden = ground arith in (inl (rw g refl), same)
    go (err e, v) (inr f, same) = let g : e ≡ internal = ground arith in (inr (rw g refl), same)

-- The routes that save a document and restore a version of it answer a user whose role does not let him
-- edit it, and the route that deletes it answers a user whose role does not let him delete it, that it
-- is forbidden, or that the check failed, and change nothing and record nothing in the log.
pub routes-Forbids :
    (n : ℤ) (recorder : Option AuditRecorder) (r : Request) (u v : User)
    (id version_id content : String) (w : World)
    → allows_edit (access w.db u.id id) ≡ false
    → allows_manage (access w.db v.id id) ≡ false
    → Forbids w (update_markdown (document_service n) recorder r (some u) id (some content) w)
      × Forbids w (Handler.restore_version (document_service n) recorder r (some u) id version_id w)
      × Forbids w (Handler.delete (document_service n) recorder r (some v) id w)
unfolding update_markdown Handler.restore_version Handler.delete
routes-Forbids n recorder r u v id version_id content w edits manages =
    let (saves, restores) = edits-Refused n u.id id content version_id w edits in
    (
      serve-Forbids (save_markdown (document_service n) u.id id content) _ w saves,
      serve-Forbids (restore_version (document_service n) u.id id version_id) _ w restores,
      serve-Forbids (Service.delete (document_service n) v.id id) _ w
          (delete-Refused n v.id id w manages),
    )
