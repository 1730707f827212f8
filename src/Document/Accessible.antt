-- ===== src/Document/Accessible.antt =====
-- The list of a user's documents against the role that a single document gives him.
use online_colab_document.Base.{
  String, List, [], ◌∷◌, Option, some, none, Bool, false, ◌&&◌, ◌||◌, ◌==◌, ◌≡◌, ◌≢◌, refl, arith,
  ==_iff, ==_refl, find_where, any_where, select_where, any_where-select_where, any_where-order_by,
  ltb, order_by, Option-cases, inl, inr, find_where-true, sym, ◌∙◌,
}
use online_colab_document.Model.Document.{Document}
use online_colab_document.Model.Permission.{Permission, role_owner, role_editor, role_viewer}
use online_colab_document.World.{World, Db, ok}
use online_colab_document.Permission.Repository.{is_live, is_for_user}
use online_colab_document.Permission.Access.{access, allows_view, granted, none_is_no_role}
use online_colab_document.Permission.Revoke.{UniqueSubjects}
use online_colab_document.Permission.Upsert.{any_same}
use online_colab_document.Document.Repository.{list_accessible, is_accessible, grants_access}

abbrev pub has_id : String → Document → Bool
has_id id d = d.id == id

-- The primary key of `documents`.
abbrev pub UniqueDocuments : List Document → Type 0
UniqueDocuments [] = Unit
UniqueDocuments (d ∷ ds) = (any_where (has_id d.id) ds ≡ false) × UniqueDocuments ds

-- A row that shares its access: what the outer join finds for a user.
abbrev shares : Option Permission → Bool
shares none = false
shares (some p) = p.permission == role_viewer || p.permission == role_editor

any_grants :
    (id u : String) (rows : List Permission)
    → UniqueSubjects rows
    → any_where (grants_access id u) rows ≡ shares (find_where (is_for_user id u) rows)
unfolding any_where find_where
any_grants id u [] h = refl
any_grants id u (p ∷ ps) (h, hs) = ground (arith, any_grants id u ps hs, any_same p u id ps)

abbrev opens : Db → String → Option Document → Bool
opens db u none = false
opens db u (some d) = d.owner_id == u || any_where (grants_access d.id u) db.permissions

shares-granted : (o : Option Permission) → shares o ≡ allows_view (granted o)
shares-granted none = sym none_is_no_role
shares-granted (some p) = ground (
  arith,
  ==_iff p.permission role_editor,
  ==_iff p.permission role_viewer,
  ==_refl role_editor,
  ==_refl role_viewer,
  none_is_no_role,
)

abbrev newer : Document → Document → Bool
newer c d = ltb d.updated_at c.updated_at

list_accessible-rows :
    (u : String) (w : World) {ds : List Document} {w' : World}
    → list_accessible u w ≡ (ok ds, w')
    → ds ≡ order_by newer (select_where (is_accessible w.db u) w.db.documents)
unfolding list_accessible
list_accessible-rows u w h = ground arith

no_other :
    (id : String) (q : Document → Bool) (ds : List Document)
    → any_where (has_id id) ds ≡ false
    → any_where (λ d. q d && has_id id d) ds ≡ false
unfolding any_where
no_other id q [] h = refl
no_other id q (d ∷ ds) h = ground (arith, no_other id q ds)

pub no_live :
    (id : String) (ds : List Document)
    → any_where (has_id id) ds ≡ false
    → find_where (is_live id) ds ≡ none
unfolding any_where find_where
no_live id [] h = refl
no_live id (d ∷ ds) h = ground (arith, no_live id ds)

any_accessible :
    (db : Db) (id u : String) (ds : List Document)
    → UniqueDocuments ds
    → any_where (λ d. is_accessible db u d && has_id id d) ds
      ≡ opens db u (find_where (is_live id) ds)
unfolding any_where find_where
any_accessible db id u [] h = refl
any_accessible db id u (d ∷ ds) (h, hs) = ground (
  arith,
  any_accessible db id u ds hs,
  ==_iff d.id id,
  no_other id (is_accessible db u) ds,
  no_live id ds,
)

listed :
    (db : Db) (u id : String)
    → UniqueDocuments db.documents
    → UniqueSubjects db.permissions
    → u ≢ ""
    → id ≢ ""
    → opens db u (find_where (is_live id) db.documents) ≡ allows_view (access db u id)
unfolding access
listed db u id uniq subj hu hi = elim (Option-cases (find_where (is_live id) db.documents)) [
  | inl e ↦ ground (arith, e, none_is_no_role)
  | inr (d, e) ↦
      let same : d.id ≡ id =
        ground (arith, find_where-true (is_live id) db.documents e, ==_iff d.id id) in
      rw (e, same, any_grants id u db.permissions subj)
        (ground (
          arith,
          ==_iff u "",
          ==_iff id "",
          shares-granted (find_where (is_for_user id u) db.permissions),
          ==_refl role_owner,
        ))
]

-- Where no two documents have the same id and every subject of a document has at most one row, a
-- list that is returned to a user holds a document exactly if his role at it lets him view it.
-- Neither his id nor the document's is empty.
pub list_accessible-access :
    (u id : String) (w : World) {ds : List Document} {w' : World}
    → UniqueDocuments w.db.documents
    → UniqueSubjects w.db.permissions
    → u ≢ ""
    → id ≢ ""
    → list_accessible u w ≡ (ok ds, w')
    → any_where (has_id id) ds ≡ allows_view (access w.db u id)
list_accessible-access u id w {ds} uniq subj hu hi h =
    rw
      (
        list_accessible-rows u w h,
        any_where-order_by (has_id id) newer (select_where (is_accessible w.db u) w.db.documents),
        any_where-select_where (has_id id) (is_accessible w.db u) w.db.documents,
      )
      (any_accessible w.db id u w.db.documents uniq ∙ listed w.db u id uniq subj hu hi)
