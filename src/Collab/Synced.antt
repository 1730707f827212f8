-- ===== src/Collab/Synced.antt =====
-- The content of a room against what the tables hold of it, through one update.
use online_colab_document.Base.{
  ℕ, suc, ◌%◌, ◌≤◌, ◌<◌, String, List, [], ◌∷◌, ◌++◌, Option, some, nat_eq, ◌≡◌, refl, arith,
  ==_refl, select_where, order_by, Bool-cases, inl, inr,
}
use online_colab_document.Model.Collab.{Snapshot, Update, ClientSession}
use online_colab_document.World.{Db, Result, ok, err}
use online_colab_document.World.Laws.{Result-cases}
use online_colab_document.Collab.Repository.{is_of_document, comes_after, first_snapshot}
use online_colab_document.Collab.Service.{Config, replay}
use online_colab_document.Collab.Recovery.{
  earlier, newer, UpdatesTo, SnapshotsTo, updates-append, updates-none, replay-append,
  latest-append, latest-bound,
}
use online_colab_document.Collab.Persist.{Persisted, update_row, snapshot_row}

abbrev pub latest : String → List Snapshot → Result Snapshot
latest d ss = first_snapshot (order_by newer (select_where (is_of_document d) ss))

-- Where a replay starts: at the latest snapshot, or at the file.
abbrev pub base : String → Result Snapshot → String × ℕ
base file (ok s) = (s.content, s.version_no)
base file (err e) = (file, 0)

abbrev pub left : String → ℕ → List Update → List Update
left d n us = order_by earlier (select_where (comes_after d n) us)

abbrev pub replay_from : String → List Update → String × ℕ → Result (String × ℕ)
replay_from d us b = replay b (left d b.1 us)

-- The content and the number that the tables give for a document with this file.
abbrev pub stored_content : String → String → Db → Result (String × ℕ)
stored_content file d db = replay_from d db.updates (base file (latest d db.snapshots))

-- The tables hold exactly this content under this number, and nothing beyond it.
pub record Synced (file d content : String) (n : ℕ) (db : Db) : Type 0 where
  pub recovered : stored_content file d db ≡ ok (content, n)
  pub updates : UpdatesTo d n db.updates
  pub snapshots : SnapshotsTo d n db.snapshots

UpdatesTo-append :
    (d : String) (n : ℕ) (u : Update) (us : List Update)
    → UpdatesTo d n us
    → u.update_seq ≤ suc n
    → UpdatesTo d (suc n) (us ++ u ∷ [])
UpdatesTo-append d n u [] h k = (λ e. k, tt)
UpdatesTo-append d n u (x ∷ xs) (h, hs) k = (λ e. ground (arith), UpdatesTo-append d n u xs hs k)

SnapshotsTo-append :
    (d : String) (n : ℕ) (u : Snapshot) (us : List Snapshot)
    → SnapshotsTo d n us
    → u.version_no ≤ suc n
    → SnapshotsTo d (suc n) (us ++ u ∷ [])
SnapshotsTo-append d n u [] h k = (λ e. k, tt)
SnapshotsTo-append d n u (x ∷ xs) (h, hs) k =
    (λ e. ground (arith), SnapshotsTo-append d n u xs hs k)

SnapshotsTo-suc :
    (d : String) (n : ℕ) (us : List Snapshot) → SnapshotsTo d n us → SnapshotsTo d (suc n) us
SnapshotsTo-suc d n [] h = tt
SnapshotsTo-suc d n (x ∷ xs) (h, hs) = (λ e. ground (arith), SnapshotsTo-suc d n xs hs)

base-bound :
    (file d : String) (n : ℕ) (ss : List Snapshot)
    → SnapshotsTo d n ss
    → (base file (latest d ss)).1 ≤ n
base-bound file d n ss h = elim (Result-cases (latest d ss)) [
  | inl (s, e) ↦ rw e (latest-bound d n ss h s e)
  | inr (x, e) ↦ rw e (ground arith)
]

module _ (c : ClientSession) (content : String) (n t : ℕ) (id : String) where
  replay_one :
      (state : String × ℕ) → replay state (update_row c content n t id ∷ []) ≡ ok (content, n)
  unfolding replay
  replay_one state = rw (==_refl "update") refl

  -- The update comes on top of what was there.
  replay_from-update :
      (us : List Update) (b state : String × ℕ) (m : ℕ)
      → UpdatesTo c.document_id m us
      → m < n
      → b.1 < n
      → replay_from c.document_id us b ≡ ok state
      → replay_from c.document_id (us ++ update_row c content n t id ∷ []) b ≡ ok (content, n)
  replay_from-update us b state m h lt above e =
      rw
        (
          updates-append c.document_id b.1 m (update_row c content n t id) us h refl lt above,
          replay-append b (left c.document_id b.1 us) (update_row c content n t id),
          e,
        )
        (replay_one state)

-- A snapshot at the number of the last update leaves nothing to replay.
replay_from-snapshot :
    (d content : String) (n : ℕ) (us : List Update)
    → UpdatesTo d n us
    → replay_from d us (content, n) ≡ ok (content, n)
unfolding replay
replay_from-snapshot d content n us h = rw (updates-none d n us h) refl

module _ (file : String) (s : Config) (c : ClientSession) (old content : String) (n : ℕ) (db : Db)
    (h : Synced file c.document_id old n db) where
  abbrev d : String
  d = c.document_id

  plain-Synced :
      (t : ℕ) (id : String)
      → Synced file d content
          (suc n)
          (record db { updates = db.updates ++ update_row c content (suc n) t id ∷ [] })
  plain-Synced t id = record {
    recovered =
        replay_from-update c content (suc n) t id db.updates (base file (latest d db.snapshots))
          (old, n) n h.updates (ground arith)
          (ground (arith, base-bound file d n db.snapshots h.snapshots)) h.recovered;
    updates = UpdatesTo-append d n _ db.updates h.updates (ground arith);
    snapshots = SnapshotsTo-suc d n db.snapshots h.snapshots;
  }

  snapshot-Synced :
      (t : ℕ) (id sid : String) (by : Option String)
      → Synced file d content (suc n) (record db {
        updates = db.updates ++ update_row c content (suc n) t id ∷ [];
        snapshots = db.snapshots ++ snapshot_row d (suc n) content by t sid ∷ [];
      })
  snapshot-Synced t id sid by = record {
    recovered =
        rw
          (latest-append d n (snapshot_row d (suc n) content by t sid) db.snapshots h.snapshots refl
            (ground arith))
          (replay_from-snapshot d content (suc n)
            (db.updates ++ update_row c content (suc n) t id ∷ [])
            (UpdatesTo-append d n _ db.updates h.updates (ground arith)));
    updates = UpdatesTo-append d n _ db.updates h.updates (ground arith);
    snapshots = SnapshotsTo-append d n _ db.snapshots h.snapshots (ground arith);
  }

  pub Persisted-Synced :
      (db' : Db) → Persisted s c content (suc n) db db' → Synced file d content (suc n) db'
  Persisted-Synced db' (t, id, sid, e) =
      elim (Bool-cases (nat_eq (suc n % s.snapshot_interval) 0)) [
        | inl k ↦ rw (e, k) (snapshot-Synced t id sid (some c.user.id))
        | inr k ↦ rw (e, k) (plain-Synced t id)
      ]
