-- ===== src/Document/Versions.antt =====
-- The transaction that adds a version: all or nothing, and a number above every earlier one.
use online_colab_document.Base.{
  ℕ, suc, ◌+◌, ◌<◌, String, List, [], ◌∷◌, ◌++◌, Bool, true, false, ◌==◌, ◌≡◌, refl, arith,
  any_where, update_where, max_where, any_where_mono, subst, sym,
}
use online_colab_document.Model.Document.{Document, Version}
use online_colab_document.World.{World, Db, ok, err}
use online_colab_document.Permission.Repository.{is_live}
use online_colab_document.Document.Repository.{
  next_version_no, insert_version, set_current, add_document_version, with_version, has_number,
}

abbrev pub is_of : String → Version → Bool
is_of document_id v = v.document_id == document_id

-- The number that the transaction gives lies above every number in use.
max_where-above :
    (document_id : String) (n : ℕ) (vs : List Version)
    → max_where (is_of document_id) (λ v. v.version_no) vs < n
    → any_where (has_number document_id n) vs ≡ false
unfolding max_where any_where
max_where-above d n [] h = refl
max_where-above d n (v ∷ vs) h = ground (arith, max_where-above d n vs)

-- The version as it is stored.
abbrev pub numbered : Db → String → Version → Version
numbered db document_id version = record version { version_no = next_version_no document_id db }

-- The tables after the transaction.
abbrev pub versioned : Db → String → Version → ℕ → Db
versioned db document_id version updated_at = record db {
  versions = db.versions ++ numbered db document_id version ∷ [];
  documents =
      update_where (is_live document_id) (with_version (numbered db document_id version) updated_at)
        db.documents;
}

module _ (d : String) (v : Version) (t : ℕ) (w : World) where
  -- Adding a version changes the tables by all that it does if it succeeds, and by nothing if it
  -- fails.
  pub add_document_version-db :
      (add_document_version d v t w).1.db
      ≡ elim (add_document_version d v t w).0 [ ok u ↦ versioned w.db d v t | err e ↦ w.db ]
  unfolding add_document_version
  add_document_version-db = ground arith

  pub add_document_version-objects : (add_document_version d v t w).1.objects ≡ w.objects
  unfolding add_document_version
  add_document_version-objects = ground arith

  pub add_document_version-env : (add_document_version d v t w).1.env ≡ w.env
  unfolding add_document_version
  add_document_version-env = ground arith

  pub add_document_version_ok :
      (add_document_version d v t w).0 ≡ ok tt
      → (any_where (is_live d) w.db.documents ≡ true)
        × (any_where (λ u. u.id == v.id) w.db.versions ≡ false)
  unfolding add_document_version
  add_document_version_ok h = ground arith

next_is_free :
    (d : String) (db : Db) → any_where (has_number d (next_version_no d db)) db.versions ≡ false
unfolding next_version_no
next_is_free d db =
    max_where-above d (max_where (is_of d) (λ v. v.version_no) db.versions + 1) db.versions
      (ground arith)

stored_document :
    (d : String) (ds : List Document)
    → any_where (is_live d) ds ≡ true
    → any_where (λ c. c.id == d) ds ≡ true
stored_document d ds h = any_where_mono (is_live d) (λ c. c.id == d) ds (λ c k. ground arith) h

insert_succeeds :
    (d : String) (v : Version) (db : Db)
    → v.document_id ≡ d
    → any_where (λ u. u.id == v.id) db.versions ≡ false
    → any_where (λ c. c.id == d) db.documents ≡ true
    → insert_version (numbered db d v) db
      ≡ ok (record db { versions = db.versions ++ numbered db d v ∷ [] })
unfolding insert_version
insert_succeeds d v db same fresh there =
    let free =
      subst (λ x. any_where (has_number x (next_version_no d db)) db.versions ≡ false) (sym same)
        (next_is_free d db) in
    let there' = subst (λ x. any_where (λ c. c.id == x) db.documents ≡ true) (sym same) there in
    rw (fresh, free, there') refl

set_succeeds :
    (d : String) (v : Version) (t : ℕ) (db : Db)
    → any_where (is_live d) db.documents ≡ true
    → set_current d v t db
      ≡ ok (record db { documents = update_where (is_live d) (with_version v t) db.documents })
unfolding set_current
set_succeeds d v t db live = rw live refl

-- The number that a version gets is in use by no version of its document. If no outside call
-- fails, the document is live and the version names it under a new id, the version is added: the
-- call succeeds and the tables are those with it.
pub add_document_version-succeeds :
    (d : String) (v : Version) (t : ℕ) (w : World)
    → ((n : ℕ) → w.env.fault n ≡ false)
    → any_where (is_live d) w.db.documents ≡ true
    → any_where (λ u. u.id == v.id) w.db.versions ≡ false
    → v.document_id ≡ d
    → (any_where (has_number d (next_version_no d w.db)) w.db.versions ≡ false)
      × ((add_document_version d v t w).0 ≡ ok tt)
      × ((add_document_version d v t w).1.db ≡ versioned w.db d v t)
unfolding add_document_version
add_document_version-succeeds d v t w calm live fresh same =
    let inserted = insert_succeeds d v w.db same fresh (stored_document d w.db.documents live) in
    let set =
      set_succeeds d (numbered w.db d v) t
        (record w.db { versions = w.db.versions ++ numbered w.db d v ∷ [] }) live in
    let n = w.calls in
    (
      next_is_free d w.db,
      rw
          (
            calm n,
            calm (suc n),
            calm (suc (suc n)),
            inserted,
            calm (suc (suc (suc n))),
            set,
            calm (suc (suc (suc (suc n)))),
          )
          refl,
      rw
          (
            calm n,
            calm (suc n),
            calm (suc (suc n)),
            inserted,
            calm (suc (suc (suc n))),
            set,
            calm (suc (suc (suc (suc n)))),
          )
          refl,
    )
