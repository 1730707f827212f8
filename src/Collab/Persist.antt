-- ===== src/Collab/Persist.antt =====
-- The rows that an accepted update stores.
use online_colab_document.Base.{
  ℕ, ◌%◌, String, [], ◌∷◌, ◌++◌, Option, some, none, true, false, nat_eq, if◌then◌else◌, ◌≡◌, refl,
  arith, inl, inr, Bool-cases,
}
use online_colab_document.Model.Collab.{Snapshot, Update, json, ClientSession}
use online_colab_document.World.{World, Db, ok, err, Error, called}
use online_colab_document.World.Laws.{Result-cases}
use online_colab_document.Uuid.{new_uuid, new_uuid-ReadsOnly}
use online_colab_document.Collab.Repository.{create_update, create_snapshot}
use online_colab_document.Collab.Service.{Config, persist, store_snapshot}

-- The same world but for the tables.
pub record StoresOnly (w w' : World) : Type 0 where
  pub env : w'.env ≡ w.env
  pub objects : w'.objects ≡ w.objects
  pub hub : w'.hub ≡ w.hub

abbrev pub snapshot_row : String → ℕ → String → Option String → ℕ → String → Snapshot
snapshot_row d n content by t id = record {
  id = id;
  document_id = d;
  version_no = n;
  content = content;
  created_by = by;
  created_at = t;
}

abbrev pub update_row : ClientSession → String → ℕ → ℕ → String → Update
update_row c content seq t id = record {
  id = id;
  document_id = c.document_id;
  update_seq = seq;
  update_data = json (record { type = "update"; content = content; cursor = none });
  created_by = some c.user.id;
  created_at = t;
}

module _ (d : String) (n : ℕ) (content : String) (by : Option String) (t : ℕ) (w : World) where
  store_snapshot-StoresOnly : StoresOnly w (store_snapshot d n content by t w).1
  unfolding store_snapshot create_snapshot
  store_snapshot-StoresOnly = ground (arith, new_uuid-ReadsOnly w)

  store_snapshot_ok :
      (store_snapshot d n content by t w).0 ≡ ok tt
      → (id : String) × ((store_snapshot d n content by t w).1.db
          ≡ record w.db { snapshots = w.db.snapshots ++ snapshot_row d n content by t id ∷ [] })
  unfolding store_snapshot create_snapshot
  store_snapshot_ok h = elim (Result-cases (new_uuid w).0) [
    | inl (id, e) ↦ (id, ground (arith, new_uuid-ReadsOnly w))
    | inr (x, e) ↦ absurd (ground arith)
  ]

module _ (u : Update) (w : World) where
  create_update-StoresOnly : StoresOnly w (create_update u w).1
  unfolding create_update
  create_update-StoresOnly = ground arith

  create_update_ok :
      (create_update u w).0 ≡ ok tt
      → (create_update u w).1.db ≡ record w.db { updates = w.db.updates ++ u ∷ [] }
  unfolding create_update
  create_update_ok h = ground arith

-- The tables with the update, and with the snapshot if its number is a multiple of the interval.
abbrev pub Persisted : Config → ClientSession → String → ℕ → Db → Db → Type 0
Persisted s c content seq db db' =
    (t : ℕ) × (id : String) × (sid : String) × (db' ≡ record db {
      updates = db.updates ++ update_row c content seq t id ∷ [];
      snapshots =
          if nat_eq (seq % s.snapshot_interval) 0
          then db.snapshots ++ snapshot_row c.document_id seq content (some c.user.id) t sid ∷ []
          else db.snapshots;
    })

module _ (s : Config) (c : ClientSession) (content : String) (seq : ℕ) (w : World) where
  abbrev t : ℕ
  t = w.env.time w.calls

  abbrev at_update : World
  at_update = (new_uuid (called w)).1

  -- The rest of `persist` once the update's id is known.
  module _ (id : String) (e : (new_uuid (called w)).0 ≡ ok id) where
    abbrev at_snapshot : World
    at_snapshot = (create_update (update_row c content seq t id) at_update).1

    persist-StoresOnly_id : StoresOnly w (persist s c content seq w).1
    unfolding persist
    persist-StoresOnly_id = ground (
      arith,
      new_uuid-ReadsOnly (called w),
      create_update-StoresOnly (update_row c content seq t id) at_update,
      store_snapshot-StoresOnly c.document_id seq content (some c.user.id) t at_snapshot,
    )

    persist_ok_plain :
        (persist s c content seq w).0 ≡ ok tt
        → nat_eq (seq % s.snapshot_interval) 0 ≡ false
        → (persist s c content seq w).1.db
          ≡ record w.db { updates = w.db.updates ++ update_row c content seq t id ∷ [] }
    unfolding persist
    persist_ok_plain h k = ground (
      arith,
      new_uuid-ReadsOnly (called w),
      create_update_ok (update_row c content seq t id) at_update,
    )

    persist_ok_snapshot :
        (persist s c content seq w).0 ≡ ok tt
        → nat_eq (seq % s.snapshot_interval) 0 ≡ true
        → ((store_snapshot c.document_id seq content (some c.user.id) t at_snapshot).0 ≡ ok tt)
          × ((persist s c content seq w).1
              ≡ (store_snapshot c.document_id seq content (some c.user.id) t at_snapshot).1)
          × (at_snapshot.db
              ≡ record w.db { updates = w.db.updates ++ update_row c content seq t id ∷ [] })
    unfolding persist
    persist_ok_snapshot h k = ground (
      arith,
      new_uuid-ReadsOnly (called w),
      create_update_ok (update_row c content seq t id) at_update,
    )

    persist_ok_id :
        (persist s c content seq w).0 ≡ ok tt
        → Persisted s c content seq w.db (persist s c content seq w).1.db
    persist_ok_id h = elim (Bool-cases (nat_eq (seq % s.snapshot_interval) 0)) [
      | inl k ↦
          let (a, b, d) = persist_ok_snapshot h k in
          let (sid, f) =
            store_snapshot_ok c.document_id seq content (some c.user.id) t at_snapshot a in
          (t, id, sid, rw (k, b, f, d) refl)
      | inr k ↦ (t, id, id, rw (k, persist_ok_plain h k) refl)
    ]

  persist_failed :
      (x : Error) → (new_uuid (called w)).0 ≡ err x → persist s c content seq w ≡ (err x, at_update)
  unfolding persist
  persist_failed x e = ground arith

  pub persist-StoresOnly : StoresOnly w (persist s c content seq w).1
  persist-StoresOnly = elim (Result-cases (new_uuid (called w)).0) [
    | inl (id, e) ↦ persist-StoresOnly_id id e
    | inr (x, e) ↦ ground (arith, persist_failed x e, new_uuid-ReadsOnly (called w))
  ]

  pub persist_ok :
      (persist s c content seq w).0 ≡ ok tt
      → Persisted s c content seq w.db (persist s c content seq w).1.db
  persist_ok h = elim (Result-cases (new_uuid (called w)).0) [
    | inl (id, e) ↦ persist_ok_id id e h
    | inr (x, e) ↦ absurd (ground (arith, persist_failed x e))
  ]
