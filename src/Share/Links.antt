-- ===== src/Share/Links.antt =====
-- Making a link and taking it back.
use online_colab_document.Base.{
  String, List, [], ◌∷◌, ◌++◌, some, false, ◌||◌, ◌==◌, ◌≡◌, refl, arith, ==_iff, ==_refl,
  find_where, any_where, ◌⊎◌, inl, inr,
}
use online_colab_document.Model.Permission.{role_owner}
use online_colab_document.Model.Share.{Link, CreateResponse, permission_viewer, permission_editor}
use online_colab_document.World.Laws.{Result-cases}
use online_colab_document.World.{World, ok, called}
use online_colab_document.Uuid.{new_uuid, new_token, new_uuid-ReadsOnly, new_token-ReadsOnly}
use online_colab_document.Permission.Service.{can_share}
use online_colab_document.Permission.Access.{access, can_share-cases, can_share-ReadsOnly}
use online_colab_document.Document.Repository.{find_by_id}
use online_colab_document.Share.Repository.{has_hash, create}
use online_colab_document.Share.Service.{CreateInput, create_link, new_service}
use online_colab_document.Share.Service
use online_colab_document.Share.Access.{link_of}
use online_colab_document.Wiring.{share_service}

-- The link is the input's.
pub record Answers (input : CreateInput) (l : Link) : Type 0 where
  pub document_id : l.document_id ≡ input.document_id
  pub permission : l.permission ≡ input.permission
  pub expires_at : l.expires_at ≡ input.expires_at
  pub disabled : l.disabled ≡ false
  pub allowed : (l.permission ≡ permission_viewer) ⊎ (l.permission ≡ permission_editor)

find-fresh :
    (h : String) (l : Link) (ls : List Link)
    → l.token_hash ≡ h
    → any_where (λ k. k.id == l.id || k.token_hash == l.token_hash) ls ≡ false
    → find_where (has_hash h) (ls ++ l ∷ []) ≡ some l
unfolding find_where any_where
find-fresh h l [] e k = ground (arith, ==_refl h)
find-fresh h l (x ∷ xs) e k = ground (arith, find-fresh h l xs e, ==_refl h)

module _ (url : String) (input : CreateInput) (w : World) {r : CreateResponse} {w' : World}
    (h : create_link (share_service url) input w ≡ (ok r, w')) where
  create_link_owner : access w.db input.actor_id input.document_id ≡ role_owner
  unfolding create_link share_service new_service
  create_link_owner = ground (
    arith,
    can_share-cases input.actor_id input.document_id w,
    ==_iff (access w.db input.actor_id input.document_id) role_owner,
  )

  abbrev at_uuid : World
  at_uuid = called (can_share input.actor_id input.document_id w).1

  abbrev at_token : World
  at_token = (new_uuid at_uuid).1

  abbrev at_clock : World
  at_clock = (new_token at_token).1

  abbrev made : String → String → Link
  made id token = record {
    id = id;
    document_id = input.document_id;
    token_hash = at_clock.env.sha256_hex token;
    permission = input.permission;
    expires_at = input.expires_at;
    disabled = false;
    created_by = some input.actor_id;
    created_at = at_clock.env.time at_clock.calls;
  }

  create_link_values :
      (id : String) × (token : String) × ((new_uuid at_uuid).0 ≡ ok id)
      × ((new_token at_token).0 ≡ ok token)
  unfolding create_link share_service new_service find_by_id
  create_link_values = elim (Result-cases (new_uuid at_uuid).0) [
    | inr (e, failed) ↦ absurd (ground arith)
    | inl (id, a) ↦ elim (Result-cases (new_token at_token).0) [
      | inr (e, failed) ↦ absurd (ground arith)
      | inl (token, b) ↦ (id, token, a, b)
    ]
  ]

  create_link_db :
      (id token : String)
      → (new_uuid at_uuid).0 ≡ ok id
      → (new_token at_token).0 ≡ ok token
      → (w'.db ≡ record w.db { links = w.db.links ++ made id token ∷ [] })
        × (any_where (λ k. k.id == id || k.token_hash == (made id token).token_hash) w.db.links
            ≡ false)
        × (r.token ≡ token)
        × (w'.env ≡ at_clock.env)
  unfolding create_link share_service new_service find_by_id create Service.hash_token
  create_link_db id token a b = (
    ground (
      arith,
      can_share-ReadsOnly input.actor_id input.document_id w,
      new_uuid-ReadsOnly at_uuid,
      new_token-ReadsOnly at_token,
    ),
    ground (
      arith,
      can_share-ReadsOnly input.actor_id input.document_id w,
      new_uuid-ReadsOnly at_uuid,
      new_token-ReadsOnly at_token,
    ),
    ground arith,
    ground arith,
  )

  create_link_allowed :
      (input.permission ≡ permission_viewer) ⊎ (input.permission ≡ permission_editor)
  unfolding create_link
  create_link_allowed =
      ground (
        arith,
        ==_iff input.permission permission_viewer,
        ==_iff input.permission permission_editor,
      )

-- A link that is made was made by the document's owner, and the token of the response names it: a
-- link of the input's document, with the input's permission, which is one of the two, and date, not
-- disabled.
pub create_link-opens :
    (url : String) (input : CreateInput) (w : World) {r : CreateResponse} {w' : World}
    → create_link (share_service url) input w ≡ (ok r, w')
    → (access w.db input.actor_id input.document_id ≡ role_owner)
      × (l : Link) × (link_of w' r.token ≡ some l)
      × Answers input l
create_link-opens url input w {r = r} {w' = w'} h =
    let (id, token, a, b) = create_link_values url input w h in
    let (db, fresh, same, env) = create_link_db url input w h id token a b in
    let l = made url input w h id token in
    let e : w'.env.sha256_hex r.token ≡ l.token_hash = rw (env, same) refl in
    (
      create_link_owner url input w h,
      l,
      rw (db, e) (find-fresh l.token_hash l w.db.links refl fresh),
      record {
        document_id = refl;
        permission = refl;
        expires_at = refl;
        disabled = refl;
        allowed = create_link_allowed url input w h;
      },
    )
