-- ===== src/Collab/Readonly.antt =====
-- The guard of `ApplyClientMessage`: what a session that may not edit can do.
use online_colab_document.Base.{ℕ, String, Option, some, none, false, ◌≡◌, refl, arith}
use online_colab_document.Model.Collab.{ClientSession, ClientUpdate, Room, Cursor}
use online_colab_document.World.{World}
use online_colab_document.Collab.Room.{
  broadcast_presence, broadcast_presence_to, session_of, room_of, presence_of, blank,
}
use online_colab_document.Collab.Service.{
  Config, apply_client_message, apply_from, broadcast_cursor, cursor_in, readonly, on_cursor,
}
use online_colab_document.Collab.Broadcast.{SendsOnly, enqueue-SendsOnly, broadcast-SendsOnly}

same_world : (w : World) → SendsOnly w w
same_world w = record { db = refl; env = refl; objects = refl; rooms = refl }

presence_to-SendsOnly : (o : Option Room) (w : World) → SendsOnly w (broadcast_presence_to o w).1
presence_to-SendsOnly none w = same_world w
presence_to-SendsOnly (some r) w =
    broadcast-SendsOnly none (record (blank "presence") { users = presence_of w.hub r.clients })
      r.clients w

pub broadcast_presence-SendsOnly : (d : String) (w : World) → SendsOnly w (broadcast_presence d w).1
unfolding broadcast_presence
broadcast_presence-SendsOnly d w = presence_to-SendsOnly (room_of w.hub d) w

cursor_in-SendsOnly :
    (c : ClientSession) (cursor : Cursor) (o : Option Room) (w : World)
    → SendsOnly w (cursor_in c cursor o w).1
cursor_in-SendsOnly c cursor none w = same_world w
cursor_in-SendsOnly c cursor (some r) w = broadcast-SendsOnly (some c.handle) _ r.clients w

broadcast_cursor-SendsOnly :
    (c : ClientSession) (cursor : Cursor) (w : World) → SendsOnly w (broadcast_cursor c cursor w).1
unfolding broadcast_cursor
broadcast_cursor-SendsOnly c cursor w = cursor_in-SendsOnly c cursor (room_of w.hub c.document_id) w

on_cursor-SendsOnly :
    (c : ClientSession) (o : Option Cursor) (w : World) → SendsOnly w (on_cursor c o w).1
on_cursor-SendsOnly c none w = same_world w
on_cursor-SendsOnly c (some cursor) w =
    ground (arith, same_world w, broadcast_cursor-SendsOnly c cursor w)

readonly-SendsOnly : (c : ClientSession) (w : World) → SendsOnly w (readonly c w).1
readonly-SendsOnly c w =
    ground (arith, enqueue-SendsOnly c.handle (record (blank "error") { error = "readonly" }) w)

apply_from-SendsOnly :
    (s : Config) (c : ClientSession) (m : ClientUpdate) (w : World)
    → c.can_edit ≡ false
    → SendsOnly w (apply_from s (some c) m w).1
apply_from-SendsOnly s c m w h = ground (
  arith,
  same_world w,
  broadcast_presence-SendsOnly c.document_id w,
  readonly-SendsOnly c w,
  on_cursor-SendsOnly c m.cursor w,
)

-- Whatever message a session sends that joined without the right to edit, and whatever comes of it,
-- the tables, the objects and every room's content, number and clients are as they were.
pub apply_client_message-SendsOnly :
    (s : Config) (handle : ℕ) (m : ClientUpdate) (c : ClientSession) (w : World)
    → session_of w.hub handle ≡ some c
    → c.can_edit ≡ false
    → SendsOnly w (apply_client_message s handle m w).1
unfolding apply_client_message
apply_client_message-SendsOnly s handle m c w found h = rw found (apply_from-SendsOnly s c m w h)
