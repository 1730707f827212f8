-- ===== src/Share/Access.antt =====
-- What a share link opens: the decision of `validLink`, and what a link that may not edit cannot do.
use online_colab_document.Base.{
  ℕ, suc, String, Option, some, none, Bool, true, false, ltb, ◌≡◌, ◌≢◌, refl, arith, ==_iff,
  ==_refl, find_where, ◌⊎◌, inl, inr, ap,
}
use online_colab_document.Model.Document.{Document}
use online_colab_document.Model.Share.{Link, permission_editor}
use online_colab_document.World.Laws.{Result-cases}
use online_colab_document.World.{
  World, ok, err, Error, internal, share_forbidden, share_not_found, share_disabled,
}
use online_colab_document.Permission.Repository.{is_live}
use online_colab_document.Document.Repository.{find_by_id}
use online_colab_document.Share.Repository.{has_hash, find_by_token_hash}
use online_colab_document.Share.Service.{valid_link, access, save_markdown, download}
use online_colab_document.Share.Service

-- The link is good at this moment.
abbrev pub unexpired : Option ℕ → ℕ → Bool
unexpired none t = true
unexpired (some e) t = ltb t e

-- The link that a token names in the tables.
abbrev pub link_of : World → String → Option Link
link_of w token = find_where (has_hash (w.env.sha256_hex token)) w.db.links

pub valid_link-ReadsOnly :
    (token : String) (w : World)
    → (valid_link token w).1 ≡ record w { calls = (valid_link token w).1.calls }
unfolding valid_link find_by_token_hash find_by_id Service.hash_token
valid_link-ReadsOnly token w = ground arith

-- A token that opens a document names a link of the tables that is neither disabled nor, at the
-- clock's time after the query, expired, and the document is the link's, not deleted.
pub valid_link_ok :
    (token : String) (w : World) {l : Link} {doc : Document} {w' : World}
    → valid_link token w ≡ (ok (l, doc), w')
    → (token ≢ "")
      × (link_of w token ≡ some l)
      × (l.disabled ≡ false)
      × (unexpired l.expires_at (w.env.time (suc w.calls)) ≡ true)
      × (find_where (is_live l.document_id) w.db.documents ≡ some doc)
unfolding valid_link find_by_token_hash find_by_id Service.hash_token
valid_link_ok token w {l} {doc} h =
    (ground (arith, ==_refl ""), ground arith, ground arith, ground arith, ground arith)

-- A token that names a link of the tables.
module _ (token : String) (w : World) (l : Link) (found : link_of w token ≡ some l) where
  pub disabled_refused :
      l.disabled ≡ true
      → ((valid_link token w).0 ≡ err share_disabled)
        ⊎ (((valid_link token w).0 ≡ err internal) ⊎ ((valid_link token w).0 ≡ err share_not_found))
  unfolding valid_link find_by_token_hash Service.hash_token
  disabled_refused h = ground arith

  opened_link : (k : Link) (doc : Document) → (valid_link token w).0 ≡ ok (k, doc) → k ≡ l
  unfolding valid_link find_by_token_hash Service.hash_token
  opened_link k doc h = ground arith

  refused_when_opened :
      (content : String) (k : Link) (doc : Document)
      → (valid_link token w).0 ≡ ok (k, doc)
      → l.permission ≢ permission_editor
      → save_markdown token content w ≡ (err share_forbidden, (valid_link token w).1)
  unfolding save_markdown
  refused_when_opened content k doc h ne =
      let p : k.permission ≡ l.permission = ap (λ (x : Link). x.permission) (opened_link k doc h) in
      ground (arith, ==_iff k.permission permission_editor)

  refused_when_shut :
      (content : String) (e : Error)
      → (valid_link token w).0 ≡ err e
      → save_markdown token content w ≡ (err e, (valid_link token w).1)
  unfolding save_markdown
  refused_when_shut content e h = ground arith

  -- Whoever has a link that does not let him edit cannot save through it: the call fails, and the
  -- tables, the objects and the rooms are as they were.
  pub save_markdown-refused :
      (content : String)
      → l.permission ≢ permission_editor
      → ((e : Error) × ((save_markdown token content w).0 ≡ err e))
        × ((save_markdown token content w).1
            ≡ record w { calls = (save_markdown token content w).1.calls })
  save_markdown-refused content ne = elim (Result-cases (valid_link token w).0) [
    | inl ((k, doc), e) ↦
        rw (refused_when_opened content k doc e ne)
          ((share_forbidden, refl), valid_link-ReadsOnly token w)
    | inr (e, failed) ↦
        rw (refused_when_shut content e failed) ((e, refl), valid_link-ReadsOnly token w)
  ]
