-- ===== src/Collab/Repository.antt =====
-- backend/internal/markdown/collab/repository.go, its SQL as operations on the tables.
use online_colab_document.Base.{
  ℕ, ◌+◌, String, List, [], ◌∷◌, ◌++◌, Bool, ◌&&◌, ◌||◌, nat_eq, ltb, ◌==◌, if◌then◌else◌,
  any_where, select_where, max_where, order_by,
}
use online_colab_document.Model.Collab.{Snapshot, Update}
use online_colab_document.World.{internal, collab_not_found, Result, ok, err, M, query, exec}

abbrev pub first_snapshot : List Snapshot → Result Snapshot
first_snapshot [] = err collab_not_found
first_snapshot (s ∷ _) = ok s

abbrev pub is_of_document : String → Snapshot → Bool
is_of_document document_id s = s.document_id == document_id

-- `ORDER BY version_no DESC LIMIT 1`.
unfoldable pub latest_snapshot : String → M Snapshot
latest_snapshot document_id = query λ db. first_snapshot (
    order_by (λ s t. ltb t.version_no s.version_no)
      (select_where (is_of_document document_id) db.snapshots))

abbrev pub comes_after : String → ℕ → Update → Bool
comes_after document_id seq u = u.document_id == document_id && ltb seq u.update_seq

unfoldable pub list_updates_after : String → ℕ → M (List Update)
list_updates_after document_id seq = query λ db. ok (
    order_by (λ u v. ltb u.update_seq v.update_seq)
      (select_where (comes_after document_id seq) db.updates))

unfoldable pub next_update_seq : String → M ℕ
next_update_seq document_id =
    query
      λ db. ok (max_where (λ u. u.document_id == document_id) (λ u. u.update_seq) db.updates + 1)

abbrev pub has_seq : String → ℕ → Update → Bool
has_seq document_id seq u = u.document_id == document_id && nat_eq u.update_seq seq

-- The primary key, and the unique (document_id, update_seq).
unfoldable pub create_update : Update → M (Unit {0})
create_update update = exec λ db.
    if any_where (λ u. u.id == update.id) db.updates
      || any_where (has_seq update.document_id update.update_seq) db.updates
    then err internal
    else ok (record db { updates = db.updates ++ update ∷ [] })

unfoldable pub create_snapshot : Snapshot → M (Unit {0})
create_snapshot snapshot = exec λ db.
    if any_where (λ s. s.id == snapshot.id) db.snapshots
    then err internal
    else ok (record db { snapshots = db.snapshots ++ snapshot ∷ [] })
