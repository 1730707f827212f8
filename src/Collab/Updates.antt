-- ===== src/Collab/Updates.antt =====
-- An accepted update, in the room and in the tables, and what a later reader is given.
use online_colab_document.Base.{
  ℕ, suc, String, List, [], ◌∷◌, Option, some, none, ◌≡◌, refl, arith, find_where, find_where-true,
  find_where-update_where, update_where, inl, inr, subst, ap, ◌⊎◌, order_by, select_where, ◌∙◌,
}
use online_colab_document.Model.Document.{Document}
use online_colab_document.Model.Collab.{Snapshot, ClientSession, Room}
use online_colab_document.World.{World, Object, Db, ok, err, called, collab_not_found}
use online_colab_document.World.Laws.{Result-cases}
use online_colab_document.Permission.Repository.{is_live}
use online_colab_document.Storage.{get_object, read_all}
use online_colab_document.Storage.Laws.{object_at}
use online_colab_document.Document.Repository.{find_by_id}
use online_colab_document.Collab.Recovery.{newer}
use online_colab_document.Collab.Repository.{
  is_of_document, first_snapshot, latest_snapshot, list_updates_after,
}
use online_colab_document.Collab.Room.{broadcast, room_of, is_room}
use online_colab_document.Collab.Service.{
  Config, apply_content_update, accept, persist, current_content, initial_document_content,
  update_message,
}
use online_colab_document.Collab.Broadcast.{SendsOnly, broadcast-SendsOnly}
use online_colab_document.Collab.Persist.{persist-StoresOnly, persist_ok, Persisted}
use online_colab_document.Collab.Synced.{Synced, Persisted-Synced, stored_content, latest}

abbrev pub with_content : String → Room → Room
with_content content r = record r { content = content; update_seq = suc r.update_seq }

module _ (s : Config) (c : ClientSession) (content : String) (w : World) (r : Room)
    (room : room_of w.hub c.document_id ≡ some r) where
  abbrev accepted : World
  accepted = (accept c content w).1

  abbrev stored : World
  stored = (persist s c content (suc r.update_seq) accepted).1

  accept_lem :
      ((accept c content w).0 ≡ ok (suc r.update_seq, r.clients))
      × (accepted.db ≡ w.db)
      × (accepted.objects ≡ w.objects)
      × (accepted.hub.rooms
          ≡ update_where (is_room c.document_id) (with_content content) w.hub.rooms)
  unfolding accept
  accept_lem = ground arith

  accepted_room : room_of accepted.hub c.document_id ≡ some (with_content content r)
  accepted_room =
      let (_, _, _, rooms) = accept_lem in
      let found = find_where-true (is_room c.document_id) w.hub.rooms room in
      rw
        (
          rooms,
          find_where-update_where (is_room c.document_id) (is_room c.document_id)
              (with_content content) w.hub.rooms (λ x. refl),
          room,
          found,
        )
        refl

  module _ {w' : World} (h : apply_content_update s c content w ≡ (ok tt, w')) where
    update_stored :
        ((persist s c content (suc r.update_seq) accepted).0 ≡ ok tt)
        × (w'
            ≡ (broadcast
                (some c.handle)
                (update_message c content (suc r.update_seq))
                r.clients
                stored).1)
    unfolding apply_content_update
    update_stored = ground (arith, accept_lem)

    abbrev sent : SendsOnly stored w'
    sent = rw (update_stored.1) (
        broadcast-SendsOnly (some c.handle) (update_message c content (suc r.update_seq)) r.clients
          stored)

    update_room_lem : room_of w'.hub c.document_id ≡ some (with_content content r)
    update_room_lem =
        ground
          (arith, accepted_room, sent, persist-StoresOnly s c content (suc r.update_seq) accepted)

    update_objects : w'.objects ≡ w.objects
    update_objects =
        ground (arith, accept_lem, sent, persist-StoresOnly s c content (suc r.update_seq) accepted)

    update-Persisted : Persisted s c content (suc r.update_seq) w.db w'.db
    update-Persisted =
        let (_, db, _, _) = accept_lem in
        subst (λ x. Persisted s c content (suc r.update_seq) x w'.db) db
          (rw sent.db (persist_ok s c content (suc r.update_seq) accepted update_stored.0))

-- An update that succeeds, in a room whose content is what the tables hold under its number, gives
-- the room the new content under the next number, and the tables hold exactly that.
pub apply_content_update-Synced :
    (file : String) (s : Config) (c : ClientSession) (content : String) (r : Room) (w : World)
    {w' : World}
    → room_of w.hub c.document_id ≡ some r
    → Synced file c.document_id r.content r.update_seq w.db
    → apply_content_update s c content w ≡ (ok tt, w')
    → (room_of w'.hub c.document_id
        ≡ some (record r { content = content; update_seq = suc r.update_seq }))
      × Synced file c.document_id content (suc r.update_seq) w'.db
apply_content_update-Synced file s c content r w {w' = w'} room synced h = (
  update_room_lem s c content w r room h,
  Persisted-Synced file s c r.content content r.update_seq w.db synced w'.db
      (update-Persisted s c content w r room h),
)

abbrev body_of : Option Object → String
body_of none = ""
body_of (some o) = o.body

abbrev file_of : World → Option Document → String
file_of w none = ""
file_of w (some doc) = body_of (object_at doc.storage_key w)

-- The bytes of the document's current version.
abbrev pub file : World → String → String
file w d = file_of w (find_where (is_live d) w.db.documents)

initial_ok :
    (d : String) (w : World) (content : String)
    → (initial_document_content d w).0 ≡ ok content
    → (content ≡ file w d) × ((initial_document_content d w).1.db ≡ w.db)
unfolding initial_document_content find_by_id get_object read_all
initial_ok d w content h = ground arith

latest-cases :
    (ss : List Snapshot)
    → ((s : Snapshot) × (first_snapshot ss ≡ ok s)) ⊎ (first_snapshot ss ≡ err collab_not_found)
latest-cases [] = inr refl
latest-cases (s ∷ ss) = inl (s, refl)

-- What a reader is given is what the tables hold.
module _ (d : String) (w : World) {p : String × ℕ} (h : (current_content d w).0 ≡ ok p) where
  content_of_snapshot :
      (s : Snapshot) → latest d w.db.snapshots ≡ ok s → stored_content (file w d) d w.db ≡ ok p
  unfolding current_content latest_snapshot list_updates_after
  content_of_snapshot s e = rw e (ground arith)

  content_of_file :
      latest d w.db.snapshots ≡ err collab_not_found → stored_content (file w d) d w.db ≡ ok p
  unfolding current_content latest_snapshot list_updates_after
  content_of_file e = elim (Result-cases (initial_document_content d (called w)).0) [
    | inl (content, f) ↦ rw e (ground (arith, initial_ok d (called w) content f))
    | inr (x, f) ↦ absurd (ground arith)
  ]

  pub current_content_ok : stored_content (file w d) d w.db ≡ ok p
  current_content_ok =
      elim (latest-cases (order_by newer (select_where (is_of_document d) w.db.snapshots))) [
        | inl (s, e) ↦ content_of_snapshot s e
        | inr e ↦ content_of_file e
      ]

file_same :
    (d : String) (v w : World)
    → v.db.documents ≡ w.db.documents
    → v.objects ≡ w.objects
    → file v d ≡ file w d
file_same d v w a b = rw (a, b) refl

-- After an update that succeeds, in a room whose content is what the tables hold under its
-- number, a reader who is given a content is given the new one under the next number, in any
-- later world with the same tables and objects, even if its rooms are lost.
pub apply_content_update-recovered :
    (s : Config) (c : ClientSession) (content : String) (r : Room) (w v : World) {w' v' : World}
    {p : String × ℕ}
    → room_of w.hub c.document_id ≡ some r
    → Synced (file w c.document_id) c.document_id r.content r.update_seq w.db
    → apply_content_update s c content w ≡ (ok tt, w')
    → v.db ≡ w'.db
    → v.objects ≡ w'.objects
    → current_content c.document_id v ≡ (ok p, v')
    → p ≡ (content, suc r.update_seq)
apply_content_update-recovered s c content r w v {w' = w'} {p = p} room synced h db objects read =
    let d = c.document_id in
    let (_, after) = apply_content_update-Synced (file w d) s c content r w room synced h in
    let (_, _, _, rows) = update-Persisted s c content w r room h in
    let documents : v.db.documents ≡ w.db.documents = ap (λ (x : Db). x.documents) (db ∙ rows) in
    let same = file_same d v w documents (objects ∙ update_objects s c content w r room h) in
    let given = current_content_ok d v (ap (λ x. x.0) read) in
    let held : stored_content (file v d) d v.db ≡ ok (content, suc r.update_seq) =
      rw (same, db) after.recovered in
    ground (arith)
