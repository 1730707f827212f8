-- ===== src/Collab/Room.antt =====
-- The rooms and the clients' channels of backend/internal/markdown/collab/service.go.
use online_colab_document.Base.{
  ℕ, String, List, [], ◌∷◌, ◌++◌, Option, none, some, Bool, false, nat_eq, ltb, ◌==◌, if◌then◌else◌,
  length, find_where, update_where,
}
use online_colab_document.Model.Collab.{PresenceUser, ServerMessage, ClientSession, Room, Hub}
use online_colab_document.World.{panic, ok, M, pure, throw, ◌>>=◌, ◌>>◌}

-- A message with no field but its type.
abbrev pub blank : String → ServerMessage
blank type = record {
  type = type;
  content = "";
  can_edit = false;
  update_seq = 0;
  user_id = "";
  display_name = "";
  users = [];
  cursor = none;
  error = "";
}

abbrev pub is_room : String → Room → Bool
is_room document_id r = r.document_id == document_id

abbrev pub is_session : ℕ → ClientSession → Bool
is_session handle c = nat_eq c.handle handle

abbrev pub room_of : Hub → String → Option Room
room_of hub document_id = find_where (is_room document_id) hub.rooms

abbrev pub session_of : Hub → ℕ → Option ClientSession
session_of hub handle = find_where (is_session handle) hub.sessions

abbrev pub update_room : String → (Room → Room) → Hub → Hub
update_room document_id f hub = record hub {
  rooms = update_where (is_room document_id) f hub.rooms;
}

abbrev pub update_session : ℕ → (ClientSession → ClientSession) → Hub → Hub
update_session handle f hub = record hub {
  sessions = update_where (is_session handle) f hub.sessions;
}

abbrev pub modify : (Hub → Hub) → M (Unit {0})
modify f w = (ok tt, record w { hub = f w.hub })

abbrev pub get_hub : M Hub
get_hub w = (ok w.hub, w)

abbrev pub channel_size : ℕ
channel_size = 16

-- `enqueue`: a send that does not wait. A full channel drops the message, a closed one panics.
abbrev pub offer : ServerMessage → ClientSession → ClientSession
offer message c =
    if ltb (length c.receive) channel_size
    then record c { receive = c.receive ++ message ∷ [] }
    else c

abbrev enqueue_to : ℕ → ServerMessage → Option ClientSession → M (Unit {0})
enqueue_to handle message none = throw panic
enqueue_to handle message (some c) =
    if c.closed then throw panic else modify (update_session handle (offer message))

unfoldable pub enqueue : ℕ → ServerMessage → M (Unit {0})
enqueue handle message w = enqueue_to handle message (session_of w.hub handle) w

abbrev is_sender : Option ℕ → ℕ → Bool
is_sender none receiver = false
is_sender (some s) receiver = nat_eq receiver s

-- `for _, receiver := range receivers { receiver.enqueue(message) }`, without the sender if one is
-- named.
unfoldable pub broadcast : Option ℕ → ServerMessage → List ℕ → M (Unit {0})
broadcast sender message [] = pure tt
broadcast sender message (receiver ∷ receivers) = do
  if is_sender sender receiver then pure tt else enqueue receiver message
  broadcast sender message receivers

presence_user : ClientSession → PresenceUser
presence_user c = record {
  user_id = c.user.id;
  display_name = c.user.display_name;
  can_edit = c.can_edit;
}

-- A pointer in `r.clients` always leads to its session; one that did not would be skipped.
abbrev add_presence : Option ClientSession → List PresenceUser → List PresenceUser
add_presence none users = users
add_presence (some c) users = presence_user c ∷ users

-- `presenceLocked`. Go's map has no order; the model lists the clients as they joined.
unfoldable pub presence_of : Hub → List ℕ → List PresenceUser
unfolding presence_user
presence_of hub [] = []
presence_of hub (handle ∷ handles) = add_presence (session_of hub handle) (presence_of hub handles)

abbrev present_in : Hub → Option Room → List PresenceUser
present_in hub none = []
present_in hub (some r) = presence_of hub r.clients

unfoldable pub presence : String → M (List PresenceUser)
unfolding presence_of
presence document_id w = (ok (present_in w.hub (room_of w.hub document_id)), w)

abbrev pub broadcast_presence_to : Option Room → M (Unit {0})
broadcast_presence_to none = pure tt
broadcast_presence_to (some r) = do
  hub ← get_hub
  let message : ServerMessage = record (blank "presence") { users = presence_of hub r.clients }
  broadcast none message r.clients

unfoldable pub broadcast_presence : String → M (Unit {0})
unfolding broadcast presence_of
broadcast_presence document_id w = broadcast_presence_to (room_of w.hub document_id) w

abbrev receive_from : Option ClientSession → Option ServerMessage
receive_from none = none
receive_from (some c) = elim c.receive [ [] ↦ none | m ∷ ms ↦ some m ]

abbrev pub drop_first : ClientSession → ClientSession
drop_first c = record c { receive = elim c.receive [ [] ↦ [] | m ∷ ms ↦ ms ] }

-- What the handler's loop takes from the channel.
unfoldable pub receive : ℕ → M (Option ServerMessage)
receive handle w = (
  ok (receive_from (session_of w.hub handle)),
  record w { hub = update_session handle drop_first w.hub },
)
