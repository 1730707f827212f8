-- ===== src/Office/Routes.antt =====
-- What the route of an editor's save answers.
use Prim.Native.String.{String, len}
use online_colab_document.Base.{ℕ, ◌≤◌, Option, some, true, ◌≡◌, arith, inl, inr}
use online_colab_document.Model.Document.{Document}
use online_colab_document.Model.Office.{WopiClaims, Config}
use online_colab_document.World.{World, ok}
use online_colab_document.World.Laws.{Result-cases, returned}
use online_colab_document.Permission.Access.{access, allows_edit}
use online_colab_document.Document.Saving.{HoldsContent, stored_row}
use online_colab_document.Http.Response.{Request, AuditRecorder, done}
use online_colab_document.Office.Service.{key_for}
use online_colab_document.Office.Service
use online_colab_document.Office.Handler.{wopi_save}
use online_colab_document.Office.Live.{Verifies, checked, wopi_save_ok}
use online_colab_document.Office.Saving.{limit, kept, ready, save_ok}
use online_colab_document.Wiring.{office_service}

module _ (cfg : Config) (recorder : Option AuditRecorder) (r : Request) (token id body : String)
    (w : World) where
  -- The save that the route runs.
  abbrev saving : World
  saving = (Service.wopi_save (office_service cfg) token id body w).1

  wopi_save-saved :
      {status : ℕ} {version : String} {w' : World}
      → wopi_save (office_service cfg) recorder r token id body w ≡ (done status version, w')
      → (d : Document) × (n : ℕ) × (Service.wopi_save (office_service cfg) token id body w
          ≡ (ok (d, n), saving))
  unfolding wopi_save
  wopi_save-saved h =
      elim (Result-cases (Service.wopi_save (office_service cfg) token id body w).0) [
        | inl ((d, n), e) ↦
            (d, n, returned (Service.wopi_save (office_service cfg) token id body) w e)
        | inr (x, e) ↦ absurd (ground arith)
      ]

  -- An editor's save that the route does not refuse comes with a token that is accepted at that
  -- moment for the document, of a user who may edit it by the tables of that moment; what is
  -- kept of its body - all of it, but nothing under the greatest limit that an int64 can be - is
  -- within the limit, and is then, before the log is written, the content of the object that the
  -- document names.
  pub wopi_save_done :
      {status : ℕ} {version : String} {w' : World}
      → wopi_save (office_service cfg) recorder r token id body w ≡ (done status version, w')
      → (c : WopiClaims) × Verifies cfg token id w c
        × (allows_edit (access w.db c.subject id) ≡ true)
        × (len (kept cfg body) ≤ limit cfg)
        × (d : Document) × HoldsContent id d (kept cfg body) saving
  wopi_save_done h =
      let (d, n, saved) = wopi_save-saved h in
      let (c, e, edits, run) = wopi_save_ok cfg token id body w saved in
      let at_save = checked cfg token id body w saved c in
      let (_, _, _, short, _, holds) = save_ok cfg (Service.token_user c) id body at_save run in
      let moment = ready cfg (Service.token_user c) id body at_save in
      (c, e, edits, short, stored_row (key_for d) d (kept cfg body) (some c.subject) moment, holds)
