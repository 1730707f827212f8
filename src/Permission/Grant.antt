-- ===== src/Permission/Grant.antt =====
-- What a successful grant and a refused one do to the roles.
use online_colab_document.Base.{
  String, some, false, ◌&&◌, ◌==◌, if◌then◌else◌, ◌≡◌, refl, arith, find_where, ==_iff, ==_refl,
  ◌⊎◌, ap, inl, inr, Option-cases, ◌≢◌,
}
use online_colab_document.Model.Document.{Document}
use online_colab_document.Model.Permission.{
  Permission, subject_type_user, role_owner, role_editor, role_viewer,
}
use online_colab_document.World.{World, Db, ok, err, Error, called}
use online_colab_document.World.Laws.{Result-cases, returned}
use online_colab_document.Uuid.{new_uuid, new_uuid-ReadsOnly}
use online_colab_document.Permission.Repository.{is_live, is_for_user, upsert, create}
use online_colab_document.Permission.Service.{GrantInput, grant, can_manage}
use online_colab_document.Permission.Access.{
  access, granted, role_at, granted-ne-owner, role_at-ne-owner, can_manage-cases,
  can_manage-ReadsOnly,
}
use online_colab_document.Permission.Upsert.{granted-upsert}

-- The row is the input's.
pub record Fits (input : GrantInput) (p : Permission) : Type 0 where
  pub document_id : p.document_id ≡ input.document_id
  pub subject_type : p.subject_type ≡ subject_type_user
  pub subject_id : p.subject_id ≡ input.subject_id
  pub permission : p.permission ≡ input.permission
  pub sharable : (p.permission ≡ role_editor) ⊎ (p.permission ≡ role_viewer)

create_rows :
    (p : Permission) (v : World) {v' : World}
    → create p v ≡ (ok tt, v')
    → v'.db ≡ record v.db { permissions = upsert p v.db.permissions }
unfolding create
create_rows p v h = ground arith

module _ (input : GrantInput) (w : World) {p : Permission} {w' : World}
    (h : grant input w ≡ (ok p, w')) where
  grant_owner : access w.db input.actor_id input.document_id ≡ role_owner
  unfolding grant
  grant_owner = ground (
    arith,
    can_manage-cases input.actor_id input.document_id w,
    ==_iff (access w.db input.actor_id input.document_id) role_owner,
  )

  -- The moment before the row is written.
  abbrev writing : World
  writing = called (new_uuid (can_manage input.actor_id input.document_id w).1).1

  writing-db : writing.db ≡ w.db
  writing-db =
      rw
        (
          new_uuid-ReadsOnly (can_manage input.actor_id input.document_id w).1,
          can_manage-ReadsOnly input.actor_id input.document_id w,
        )
        refl

  grant-creates : (x : Error) → (create p writing).0 ≢ err x
  unfolding grant
  grant-creates x e = ground arith

  grant-last : w' ≡ (create p writing).1
  unfolding grant
  grant-last = ground arith

  grant_db : w'.db ≡ record w.db { permissions = upsert p w.db.permissions }
  grant_db = elim (Result-cases (create p writing).0) [
    | inl (tt, e) ↦
        let rows = create_rows p writing (returned (create p) writing e) in
        rw grant-last (rw rows (rw writing-db refl))
    | inr (x, e) ↦ absurd (grant-creates x e)
  ]

  grant_fields :
      (p.document_id ≡ input.document_id)
      × (p.subject_type ≡ input.subject_type)
      × (p.subject_id ≡ input.subject_id)
      × (p.permission ≡ input.permission)
  unfolding grant create
  grant_fields = ground arith

  grant_valid :
      (input.subject_type ≡ subject_type_user)
      × ((input.permission ≡ role_editor) ⊎ (input.permission ≡ role_viewer))
  unfolding grant
  grant_valid = ground (
    arith,
    ==_iff input.subject_type subject_type_user,
    ==_iff input.permission role_editor,
    ==_iff input.permission role_viewer,
  )

  grant_row : Fits input p
  grant_row = ground (arith, grant_fields, grant_valid)

access-upsert :
    (db : Db) (new : Permission) (u d : String)
    → access (record db { permissions = upsert new db.permissions }) u d
      ≡ role_at u d (find_where (is_live d) db.documents) (
          if is_for_user d u new
          then granted (some new)
          else granted (find_where (is_for_user d u) db.permissions))
unfolding access
access-upsert db new u d =
    ap (role_at u d (find_where (is_live d) db.documents)) (granted-upsert new u d db.permissions)

-- An owner's document is there.
live_of_owner :
    (db : Db) (u d : String)
    → access db u d ≡ role_owner
    → (doc : Document) × (find_where (is_live d) db.documents ≡ some doc)
unfolding access
live_of_owner db u d h = elim (Option-cases (find_where (is_live d) db.documents)) [
  | inl e ↦ absurd (
      ground (
        arith,
        e,
        role_at-ne-owner u d (granted (find_where (is_for_user d u) db.permissions)),
        ==_refl role_owner,
      ))
  | inr f ↦ f
]

module _ (db : Db) (new : Permission) (doc : Document) (u d : String)
    (live : find_where (is_live new.document_id) db.documents ≡ some doc)
    (user : new.subject_type ≡ subject_type_user)
    (share : (new.permission ≡ role_editor) ⊎ (new.permission ≡ role_viewer))
    (hs : new.subject_id ≢ "") (hd : new.document_id ≢ "") where
  access_elsewhere :
      (new.document_id == d && new.subject_id == u) ≡ false
      → access (record db { permissions = upsert new db.permissions }) u d ≡ access db u d
  unfolding access
  access_elsewhere e = rw (access-upsert db new u d) (ground (arith))

  access_here :
      access (record db { permissions = upsert new db.permissions }) new.subject_id new.document_id
      ≡ (if access db new.subject_id new.document_id == role_owner
          then role_owner
          else new.permission)
  unfolding access
  access_here =
      rw (access-upsert db new new.subject_id new.document_id, live)
        (ground (
          arith,
          granted-ne-owner (find_where (is_for_user new.document_id new.subject_id) db.permissions),
          ==_refl new.document_id,
          ==_refl new.subject_id,
          ==_refl role_owner,
          ==_iff new.subject_type subject_type_user,
          ==_iff new.permission role_editor,
          ==_iff new.permission role_viewer,
          ==_iff new.subject_id "",
          ==_iff new.document_id "",
        ))

-- The role that a grant leaves a user with at a document.
abbrev after_grant : GrantInput → Db → String → String → String
after_grant input db u d =
    if input.document_id == d && input.subject_id == u
    then (if access db u d == role_owner then role_owner else input.permission)
    else access db u d

upsert-after_grant :
    (input : GrantInput) (db : Db) (new : Permission) (doc : Document) (u d : String)
    → find_where (is_live input.document_id) db.documents ≡ some doc
    → Fits input new
    → input.subject_id ≢ ""
    → input.document_id ≢ ""
    → access (record db { permissions = upsert new db.permissions }) u d ≡ after_grant input db u d
upsert-after_grant input db new doc u d live f hs hd =
    let live' : find_where (is_live new.document_id) db.documents ≡ some doc =
      rw f.document_id live in
    let hs' : new.subject_id ≢ "" = rw f.subject_id hs in
    let hd' : new.document_id ≢ "" = rw f.document_id hd in
    ground (
      arith,
      ==_iff input.document_id d,
      ==_iff input.subject_id u,
      ==_iff (access db u d) role_owner,
      access_here db new doc u d live' f.subject_type f.sharable hs' hd',
      access_elsewhere db new doc u d live' f.subject_type f.sharable hs' hd',
    )

grant_named :
    (input : GrantInput) (w : World) {p : Permission} {w' : World}
    → grant input w ≡ (ok p, w')
    → (input.subject_id ≢ "") × (input.document_id ≢ "")
unfolding grant
grant_named input w h = ground (arith, ==_iff input.subject_id "", ==_iff input.document_id "")

-- A grant that succeeds was made by the document's owner. It gives the subject the granted role at
-- this document, unless the subject is the owner, and leaves every other role as it was.
pub grant-access :
    (input : GrantInput) (w : World) (u d : String) {p : Permission} {w' : World}
    → grant input w ≡ (ok p, w')
    → (access w.db input.actor_id input.document_id ≡ role_owner)
      × (access w'.db u d ≡ (
          if input.document_id == d && input.subject_id == u
          then (if access w.db u d == role_owner then role_owner else input.permission)
          else access w.db u d))
grant-access input w u d {p} h =
    let owner = grant_owner input w h in
    let (doc, live) = live_of_owner w.db input.actor_id input.document_id owner in
    let (hs, hd) = grant_named input w h in
    (
      owner,
      rw (grant_db input w h)
          (upsert-after_grant input w.db p doc u d live (grant_row input w h) hs hd),
    )
