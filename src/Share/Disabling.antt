-- ===== src/Share/Disabling.antt =====
-- Taking a link back.
use online_colab_document.Base.{
  String, Option, some, none, Bool, true, false, ◌==◌, ◌≡◌, refl, arith, ==_iff, ==_refl,
  find_where, update_where, inl, inr, find_where-update_where, changed, Option-cases, ap, ◌∙◌,
}
use online_colab_document.Model.Permission.{role_owner}
use online_colab_document.Model.Share.{Link}
use online_colab_document.World.{World, ok, err, Error, called}
use online_colab_document.Permission.Access.{access, can_share-cases, can_share-ReadsOnly}
use online_colab_document.Share.Repository.{has_hash, disabled_link, find_by_id}
use online_colab_document.Share.Repository
use online_colab_document.Share.Service.{valid_link, new_service}
use online_colab_document.Share.Service
use online_colab_document.Share.Access.{link_of, disabled_refused}
use online_colab_document.Wiring.{share_service}

abbrev pub named : String → Link → Bool
named id l = l.id == id

module _ (url a id : String) (w : World) {w' : World}
    (h : Service.disable (share_service url) a id w ≡ (ok tt, w')) where
  disable_found : (l : Link) × (find_where (named id) w.db.links ≡ some l)
  unfolding Service.disable find_by_id
  disable_found = elim (Option-cases (find_where (named id) w.db.links)) [
    | inl e ↦ absurd (ground arith)
    | inr found ↦ found
  ]

  disable_owner :
      (l : Link)
      → find_where (named id) w.db.links ≡ some l
      → access w.db a l.document_id ≡ role_owner
  unfolding Service.disable find_by_id share_service new_service
  disable_owner l e = ground (
    arith,
    can_share-cases a l.document_id (called w),
    ==_iff (access w.db a l.document_id) role_owner,
  )

  disable_db :
      (l : Link)
      → find_where (named id) w.db.links ≡ some l
      → (w'.db ≡ record w.db { links = update_where (named id) disabled_link w.db.links })
        × (w'.env ≡ w.env)
  unfolding Service.disable find_by_id share_service new_service Repository.disable
  disable_db l e = (
    ground (arith, can_share-ReadsOnly a l.document_id (called w)),
    ground (arith, can_share-ReadsOnly a l.document_id (called w)),
  )

  -- What a token names afterwards.
  disable_link_of :
      (token : String) → link_of w' token ≡ changed (named id) disabled_link (link_of w token)
  disable_link_of token =
      let (l, e) = disable_found in
      let (db, env) = disable_db l e in
      rw (db, env)
        (find_where-update_where (has_hash (w.env.sha256_hex token)) (named id) disabled_link
          w.db.links (λ k. refl))

refused_of_disabled :
    (token : String) (w : World) (l : Link)
    → link_of w token ≡ some l
    → l.disabled ≡ true
    → (e : Error) × ((valid_link token w).0 ≡ err e)
refused_of_disabled token w l found h = elim (disabled_refused token w l found h) [
  | inl e ↦ (_, e)
  | inr (inl e) ↦ (_, e)
  | inr (inr e) ↦ (_, e)
]

unchanged_link :
    (id : String) (o : Option Link)
    → ((l : Link) → o ≡ some l → (l.id == id) ≡ false)
    → changed (named id) disabled_link o ≡ o
unchanged_link id none h = refl
unchanged_link id (some l) h = rw (h l refl) refl

-- A link that is disabled was disabled by the owner of its document. A token that named it opens
-- nothing afterwards, and a token that named another link, or none, names the same as before.
pub disable-refused :
    (url a id token : String) (w : World) {w' : World}
    → Service.disable (share_service url) a id w ≡ (ok tt, w')
    → ((l : Link) × (find_where (named id) w.db.links ≡ some l)
        × (access w.db a l.document_id ≡ role_owner))
      × ((l : Link)
          → link_of w token ≡ some l
          → l.id ≡ id
          → (e : Error) × ((valid_link token w').0 ≡ err e))
      × (((l : Link) → link_of w token ≡ some l → (l.id == id) ≡ false)
          → link_of w' token ≡ link_of w token)
disable-refused url a id token w {w' = w'} h =
    let (l, e) = disable_found url a id w h in
    (
      (l, e, disable_owner url a id w h l e),
      (λ k f same.
          refused_of_disabled token w' (disabled_link k)
            (rw (disable_link_of url a id w h token, f, ap (λ x. x == id) same, ==_refl id) refl)
            refl),
      λ other. disable_link_of url a id w h token ∙ unchanged_link id (link_of w token) other,
    )
