-- ===== src/Office/Live.antt =====
-- The editors' operations ask for the permission that the tables give at that moment.
use Prim.Native.String.{String}
use online_colab_document.Base.{
  ℕ, some, true, ◌==◌, if◌then◌else◌, ◌≡◌, arith, inl, inr, find_where, ==_iff,
}
use online_colab_document.Model.Document.{Document}
use online_colab_document.Model.Office.{WopiClaims, Config}
use online_colab_document.World.{World, ok, called}
use online_colab_document.World.Laws.{Result-cases, >>=-eq-ok, returned}
use online_colab_document.Permission.Repository.{is_live}
use online_colab_document.Permission.Service.{can_view, can_edit}
use online_colab_document.Permission.Access.{
  access, allows_view, allows_edit, can_view-ReadsOnly, can_edit-ReadsOnly, can_view-cases,
  can_edit-cases,
}
use online_colab_document.Document.Repository.{find_by_id}
use online_colab_document.Office.Token.{verify_wopi_token}
use online_colab_document.Office.Signed.{verify_wopi_token_ok}
use online_colab_document.Office.Service.{
  Info, new_service, wopi_info, wopi_save, authorize_collab, save, token_user,
}
use online_colab_document.Wiring.{office_service}

-- What `wopi_info` does after the token.
abbrev pub Verifies : Config → String → String → World → WopiClaims → Type 0
Verifies cfg token id w c = verify_wopi_token (office_service cfg).cfg token id w ≡ (ok c, called w)

module _ (cfg : Config) (token id : String) (w : World) {info : Info} {w' : World}
    (h : wopi_info (office_service cfg) token id w ≡ (ok info, w')) where
  wopi_info-token : (c : WopiClaims) × Verifies cfg token id w c
  unfolding wopi_info
  wopi_info-token =
      let (c, v, e, f) = >>=-eq-ok (verify_wopi_token (office_service cfg).cfg token id) _ w h in
      let (_, _, _, same) = verify_wopi_token_ok (office_service cfg).cfg token id w e in
      (c, rw (← same) e)

  module _ (c : WopiClaims) (e : Verifies cfg token id w c) where
    wopi_info-live : find_where (is_live id) w.db.documents ≡ some info.document
    unfolding wopi_info find_by_id office_service new_service
    wopi_info-live = ground (arith, can_view-ReadsOnly c.subject id (called (called w)))

    wopi_info-views : allows_view (access w.db c.subject id) ≡ true
    unfolding wopi_info find_by_id office_service new_service
    wopi_info-views = ground (arith, can_view-cases c.subject id (called (called w)))

    wopi_info-edits : info.can_edit ≡ allows_edit (access w.db c.subject id)
    unfolding wopi_info find_by_id office_service new_service
    wopi_info-edits = ground (
      arith,
      can_view-ReadsOnly c.subject id (called (called w)),
      can_edit-cases c.subject id (can_view c.subject id (called (called w))).1,
    )

    wopi_info-ReadsOnly : w' ≡ record w { calls = w'.calls }
    unfolding wopi_info find_by_id office_service new_service
    wopi_info-ReadsOnly = ground (
      arith,
      can_view-ReadsOnly c.subject id (called (called w)),
      can_edit-ReadsOnly c.subject id (can_view c.subject id (called (called w))).1,
    )

  pub wopi_info-reads : w' ≡ record w { calls = w'.calls }
  wopi_info-reads = let (c, e) = wopi_info-token in wopi_info-ReadsOnly c e

-- Whoever is told of a document by its token is the token's user, may view the live document by the
-- tables of that moment, whatever held when the token was made, and is told whether he may edit it by
-- the tables of that moment.
pub wopi_info_ok :
    (cfg : Config) (token id : String) (w : World) {info : Info} {w' : World}
    → wopi_info (office_service cfg) token id w ≡ (ok info, w')
    → (c : WopiClaims) × Verifies cfg token id w c
      × (find_where (is_live id) w.db.documents ≡ some info.document)
      × (allows_view (access w.db c.subject id) ≡ true)
      × (info.can_edit ≡ allows_edit (access w.db c.subject id))
wopi_info_ok cfg token id w h =
    let (c, e) = wopi_info-token cfg token id w h in
    (
      c,
      e,
      wopi_info-live cfg token id w h c e,
      wopi_info-views cfg token id w h c e,
      wopi_info-edits cfg token id w h c e,
    )

token_called :
    (cfg : Config) (token id : String) (w : World) {c : WopiClaims}
    → (verify_wopi_token (office_service cfg).cfg token id w).0 ≡ ok c
    → Verifies cfg token id w c
token_called cfg token id w e =
    let h = returned (verify_wopi_token (office_service cfg).cfg token id) w e in
    let (_, _, _, same) = verify_wopi_token_ok (office_service cfg).cfg token id w h in
    rw (← same) h

module _ (cfg : Config) (token id kind : String) (w : World) {r : String} {w' : World}
    (h : authorize_collab (office_service cfg) token id kind w ≡ (ok r, w')) where
  authorize_collab-token : (c : WopiClaims) × Verifies cfg token id w c
  unfolding authorize_collab
  authorize_collab-token =
      elim (Result-cases (verify_wopi_token (office_service cfg).cfg token id w).0) [
        | inl (c, e) ↦ (c, token_called cfg token id w e)
        | inr (x, e) ↦ absurd (ground arith)
      ]

  module _ (c : WopiClaims) (e : Verifies cfg token id w c) where
    authorize_collab-kind : (c.kind == kind) ≡ true
    unfolding authorize_collab
    authorize_collab-kind = ground arith

    authorize_collab-views : allows_view (access w.db c.subject id) ≡ true
    unfolding authorize_collab office_service new_service
    authorize_collab-views = ground (arith, can_view-cases c.subject id (called w))

    authorize_collab-role : r ≡ (if allows_edit (access w.db c.subject id) then "write" else "view")
    unfolding authorize_collab office_service new_service
    authorize_collab-role = ground (
      arith,
      can_view-ReadsOnly c.subject id (called w),
      can_edit-cases c.subject id (can_view c.subject id (called w)).1,
    )

-- Who is let into a room by a token is the token's user, the token is for that kind of room, and his
-- role in the room is the one that the tables give at that moment.
pub authorize_collab_ok :
    (cfg : Config) (token id kind : String) (w : World) {r : String} {w' : World}
    → authorize_collab (office_service cfg) token id kind w ≡ (ok r, w')
    → (c : WopiClaims) × Verifies cfg token id w c
      × (c.kind ≡ kind)
      × (allows_view (access w.db c.subject id) ≡ true)
      × (r ≡ (if allows_edit (access w.db c.subject id) then "write" else "view"))
authorize_collab_ok cfg token id kind w h =
    let (c, e) = authorize_collab-token cfg token id kind w h in
    (
      c,
      e,
      (==_iff c.kind kind).0 (authorize_collab-kind cfg token id kind w h c e),
      authorize_collab-views cfg token id kind w h c e,
      authorize_collab-role cfg token id kind w h c e,
    )

module _ (cfg : Config) (token id body : String) (w : World) {saved : Document × ℕ} {w' : World}
    (h : wopi_save (office_service cfg) token id body w ≡ (ok saved, w')) where
  -- The moment after the token and the first check of the permission.
  abbrev pub checked : WopiClaims → World
  checked c = (can_edit c.subject id (called w)).1

  wopi_save-token : (c : WopiClaims) × Verifies cfg token id w c
  unfolding wopi_save
  wopi_save-token = elim (Result-cases (verify_wopi_token (office_service cfg).cfg token id w).0) [
    | inl (c, e) ↦ (c, token_called cfg token id w e)
    | inr (x, e) ↦ absurd (ground arith)
  ]

  module _ (c : WopiClaims) (e : Verifies cfg token id w c) where
    wopi_save-edits : allows_edit (access w.db c.subject id) ≡ true
    unfolding wopi_save office_service new_service
    wopi_save-edits = ground (arith, can_edit-cases c.subject id (called w))

    wopi_save-save : save (office_service cfg) (token_user c) id body (checked c) ≡ (ok saved, w')
    unfolding wopi_save office_service new_service
    wopi_save-save = ground arith

  pub wopi_save_ok :
      (c : WopiClaims) × Verifies cfg token id w c
      × (allows_edit (access w.db c.subject id) ≡ true)
      × (save (office_service cfg) (token_user c) id body (checked c) ≡ (ok saved, w'))
  wopi_save_ok = let (c, e) = wopi_save-token in (c, e, wopi_save-edits c e, wopi_save-save c e)
