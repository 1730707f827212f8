-- ===== src/Collab/Service.antt =====
-- backend/internal/markdown/collab/service.go.
mod Content
use online_colab_document.Base.{
  ℕ, ℤ, suc, ◌%◌, String, List, [], ◌∷◌, ◌++◌, Option, none, some, Bool, true, false, not, ◌||◌,
  nat_eq, ◌==◌, if◌then◌else◌, is_nil, is_negative, le_zero, pos_part, delete_where, any_where,
}
use online_colab_document.Model.User.{User}
use online_colab_document.Model.Collab.{
  Snapshot, Cursor, ClientUpdate, UpdateData, json, undecodable, Update, PublicSnapshot,
  ServerMessage, ClientSession, Room, Hub,
}
use online_colab_document.World.{
  internal, panic, collab_forbidden, collab_not_found, collab_unsupported_file, Result, ok, err, M,
  pure, throw, ◌>>=◌, ◌>>◌, attempt, reject_if, now,
}
use online_colab_document.Uuid.{new_uuid}
use online_colab_document.Storage.{get_object, read_all}
use online_colab_document.Document.Filename.{is_text_document}
use online_colab_document.Document.Repository.{find_by_id}
use online_colab_document.Collab.Repository.{
  latest_snapshot, list_updates_after, create_update, create_snapshot,
}
use online_colab_document.Collab.Room.{
  blank, room_of, session_of, update_room, update_session, modify, get_hub, enqueue, broadcast,
  presence, presence_of, broadcast_presence,
}
unfoldable pub use online_colab_document.Collab.Service.Content.*

abbrev new_room : String → String → ℕ → Room
new_room document_id content seq = record {
  document_id = document_id;
  content = content;
  update_seq = seq;
  clients = [];
}

-- The second look under the lock: a room that is there by now is kept.
abbrev add_room : String → String → ℕ → Hub → Hub
add_room document_id content seq hub =
    if is_nil (room_of hub document_id)
    then record hub { rooms = new_room document_id content seq ∷ hub.rooms }
    else hub

abbrev open_room : String → M (Unit {0})
open_room document_id = do
  (content, seq) ← current_content document_id
  modify (add_room document_id content seq)

-- A room is made from the stored content, unless there is one.
unfoldable pub get_room : String → M (Unit {0})
get_room document_id = do
  hub ← get_hub
  if is_nil (room_of hub document_id) then open_room document_id else pure tt

abbrev pub new_session : ℕ → String → User → Bool → ℕ → ClientSession
new_session handle document_id current_user edits connected_at = record {
  handle = handle;
  document_id = document_id;
  user = current_user;
  can_edit = edits;
  receive = [];
  closed = false;
  connected_at = connected_at;
}

abbrev pub enter : ClientSession → Hub → Hub
enter c hub =
    update_room c.document_id (λ r. record r { clients = r.clients ++ c.handle ∷ [] })
      (record hub { sessions = hub.sessions ++ c ∷ []; next_handle = suc hub.next_handle })

abbrev pub welcome : Bool → Hub → Option Room → ServerMessage
welcome edits hub none = blank "init"
welcome edits hub (some r) = record (blank "init") {
  content = r.content;
  can_edit = edits;
  update_seq = r.update_seq;
  users = presence_of hub r.clients;
}

-- The result is the session's handle.
unfoldable pub join : Config → User → String → M ℕ
join s current_user document_id = do
  edits ← check_access s current_user.id document_id
  get_room document_id
  connected_at ← now
  hub ← get_hub
  let handle : ℕ = hub.next_handle
  modify (enter (new_session handle document_id current_user edits connected_at))
  hub ← get_hub
  enqueue handle (welcome edits hub (room_of hub document_id))
  broadcast_presence document_id
  pure handle

abbrev pub is_client : ℕ → Room → Bool
is_client handle r = any_where (nat_eq handle) r.clients

abbrev pub leave_room : ℕ → Option Room → Hub → Hub
leave_room handle none hub = hub
leave_room handle (some r) hub =
    if is_client handle r
    then update_session handle (λ c. record c { closed = true })
        (update_room r.document_id
          (λ r. record r { clients = delete_where (nat_eq handle) r.clients }) hub)
    else hub

abbrev pub leave_session : ℕ → Option ClientSession → M (Unit {0})
leave_session handle none = pure tt
leave_session handle (some c) = do
  modify (λ hub. leave_room handle (room_of hub c.document_id) hub)
  broadcast_presence c.document_id

unfoldable pub leave : ℕ → M (Unit {0})
leave handle w = leave_session handle (session_of w.hub handle) w

unfoldable pub store_snapshot : String → ℕ → String → Option String → ℕ → M (Unit {0})
store_snapshot document_id version_no content created_by created_at = do
  id ← new_uuid
  create_snapshot (record {
    id = id;
    document_id = document_id;
    version_no = version_no;
    content = content;
    created_by = created_by;
    created_at = created_at;
  })

-- The number of an update and its receivers, as one step under the room's lock takes them.
abbrev pub accept_in : ClientSession → String → Option Room → M (ℕ × List ℕ)
accept_in c content none = throw panic
accept_in c content (some r) = do
  modify (
      update_room c.document_id
        (λ r. record r { content = content; update_seq = suc r.update_seq }))
  pure (suc r.update_seq, r.clients)

unfoldable pub accept : ClientSession → String → M (ℕ × List ℕ)
accept c content w = accept_in c content (room_of w.hub c.document_id) w

-- The update's rows: itself, and at each multiple of the interval a snapshot.
unfoldable pub persist : Config → ClientSession → String → ℕ → M (Unit {0})
unfolding store_snapshot
persist s c content seq = do
  created_at ← now
  id ← new_uuid
  create_update (record {
    id = id;
    document_id = c.document_id;
    update_seq = seq;
    update_data = json (record { type = "update"; content = content; cursor = none });
    created_by = some c.user.id;
    created_at = created_at;
  })
  let snap : M (Unit {0}) = store_snapshot c.document_id seq content (some c.user.id) created_at
  if nat_eq (seq % s.snapshot_interval) 0 then snap else pure tt

abbrev pub update_message : ClientSession → String → ℕ → ServerMessage
update_message c content seq = record (blank "update") {
  content = content;
  update_seq = seq;
  user_id = c.user.id;
  display_name = c.user.display_name;
}

unfoldable pub apply_content_update : Config → ClientSession → String → M (Unit {0})
unfolding accept persist
apply_content_update s c content = do
  (seq, receivers) ← accept c content
  persist s c content seq
  broadcast (some c.handle) (update_message c content seq) receivers

abbrev pub cursor_in : ClientSession → Cursor → Option Room → M (Unit {0})
cursor_in c cursor none = throw panic
cursor_in c cursor (some r) =
    broadcast (some c.handle)
      (record (blank "cursor") {
        user_id = c.user.id;
        display_name = c.user.display_name;
        cursor = some cursor;
      })
      r.clients

unfoldable pub broadcast_cursor : ClientSession → Cursor → M (Unit {0})
broadcast_cursor c cursor w = cursor_in c cursor (room_of w.hub c.document_id) w

abbrev pub on_cursor : ClientSession → Option Cursor → M (Unit {0})
on_cursor c none = pure tt
on_cursor c (some cursor) =
    if is_negative cursor.from || is_negative cursor.to then pure tt else broadcast_cursor c cursor

abbrev pub readonly : ClientSession → M (Unit {0})
readonly c = do
  enqueue c.handle (record (blank "error") { error = "readonly" })
  throw collab_forbidden

abbrev pub apply_from : Config → Option ClientSession → ClientUpdate → M (Unit {0})
apply_from s none update = throw collab_forbidden
apply_from s (some c) update =
    if update.type == "presence"
    then broadcast_presence c.document_id
    else if update.type == "update"
    then (if not c.can_edit then readonly c else apply_content_update s c update.content)
    else if update.type == "cursor"
    then on_cursor c update.cursor
    else pure tt

unfoldable pub apply_client_message : Config → ℕ → ClientUpdate → M (Unit {0})
unfolding broadcast_cursor
apply_client_message s handle update w = apply_from s (session_of w.hub handle) update w
