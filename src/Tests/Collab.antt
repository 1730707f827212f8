-- ===== src/Tests/Collab.antt =====
-- A room of the fixture's document.
use online_colab_document.Base.{
  ℕ, zero, suc, List, pos, String, [], ◌∷◌, some, none, true, false, ◌==◌, ◌≡◌, refl, find_where,
  any_where, update_where, delete_where, max_where, select_where, order_by,
}
use online_colab_document.Model.Collab.{ClientSession, ClientUpdate, Room, ServerMessage}
use online_colab_document.Collab.Closing.{all_open, is_open, leave-broadcast}
use online_colab_document.World.{Result, ok, err, panic, World}
use online_colab_document.World.Laws.{returned}
use online_colab_document.Uuid.{new_uuid, uuid_text, stamp}
use online_colab_document.Storage.{get_object, read_all}
use online_colab_document.Permission.Repository.{document_owner_id, find_for_user}
use online_colab_document.Permission.Service.{role, can_view, can_edit}
use online_colab_document.Document.Filename.{is_text_document}
use online_colab_document.Document.Repository.{find_by_id}
use online_colab_document.Collab.Repository.{
  latest_snapshot, list_updates_after, create_update, create_snapshot,
}
use online_colab_document.Collab.Room.{
  blank, room_of, enqueue, broadcast, broadcast_presence, presence_of,
}
use online_colab_document.Collab.Service.{
  Config, new_service, check_access, initial_document_content, replay, current_content, get_room,
  join, leave_room, accept, persist, store_snapshot, apply_content_update, apply_client_message,
  broadcast_cursor,
}
use online_colab_document.Collab.Broadcast.{SendsOnly}
use online_colab_document.Collab.Readonly.{apply_client_message-SendsOnly}
use online_colab_document.Collab.Synced.{Synced}
use online_colab_document.Collab.Updates.{
  apply_content_update-Synced, apply_content_update-recovered,
}
use online_colab_document.Wiring.{collab_service}
use online_colab_document.Tests.Fixture.{start, alice, bob}

-- What the operations of the package compute with.
runs : Unit {0}
unfolding collab_service new_service check_access initial_document_content replay current_content
    get_room join accept persist store_snapshot apply_content_update apply_client_message
    broadcast_cursor enqueue broadcast broadcast_presence presence_of latest_snapshot
    list_updates_after create_update create_snapshot can_view can_edit role document_owner_id
    find_for_user find_by_id get_object read_all is_text_document new_uuid uuid_text stamp
    find_where any_where update_where delete_where max_where select_where order_by ◌==◌
runs = tt

-- A snapshot with every second update.
abbrev service : Config
service = collab_service (pos 2)

abbrev room : Room
room = record { document_id = "notes"; content = "hello"; update_seq = 0; clients = 0 ∷ 1 ∷ [] }

abbrev alice_session : ClientSession
alice_session = record {
  handle = 0;
  document_id = "notes";
  user = alice;
  can_edit = true;
  receive = [];
  closed = false;
  connected_at = 4;
}

abbrev bob_session : ClientSession
bob_session = record alice_session { handle = 1; user = bob; can_edit = false }

abbrev filled : ℕ → List ServerMessage
filled zero = []
filled (suc n) = blank "presence" ∷ filled n

-- Two clients in a room, who have read their messages.
abbrev joined : World
joined = record start {
  hub = record { rooms = room ∷ []; sessions = alice_session ∷ bob_session ∷ []; next_handle = 2 };
}

joined_room :
    room_of (join service alice "notes" start).1.hub "notes"
    ≡ some (record room { clients = 0 ∷ [] })
unfolding runs
joined_room = refl

abbrev edited : World
edited = (apply_content_update service alice_session "hello, all" joined).1

abbrev edit : ClientUpdate
edit = record { type = "update"; content = "mine"; cursor = none }

apply_client_message-SendsOnly_example :
    SendsOnly joined (apply_client_message service 1 edit joined).1
unfolding runs
apply_client_message-SendsOnly_example =
    apply_client_message-SendsOnly service 1 edit bob_session joined refl refl

start_Synced : Synced "hello" "notes" "hello" 0 joined.db
unfolding runs
start_Synced = record { recovered = refl; updates = tt; snapshots = tt }

apply_content_update-Synced_example :
    (room_of edited.hub "notes" ≡ some (record room { content = "hello, all"; update_seq = 1 }))
    × Synced "hello" "notes" "hello, all" 1 edited.db
unfolding runs
apply_content_update-Synced_example =
    apply_content_update-Synced "hello" service alice_session "hello, all" room joined refl
      start_Synced (returned (apply_content_update service alice_session "hello, all") joined refl)

-- The server starts anew.
abbrev restarted : World
restarted = record edited { hub = start.hub }

abbrev state_of : Result (String × ℕ) → String × ℕ
state_of (ok p) = p
state_of (err e) = ("", 0)

apply_content_update-recovered_example :
    state_of (current_content "notes" restarted).0 ≡ ("hello, all", 1)
unfolding runs
apply_content_update-recovered_example =
    apply_content_update-recovered service alice_session "hello, all" room joined restarted refl
      start_Synced (returned (apply_content_update service alice_session "hello, all") joined refl)
      refl refl (returned (current_content "notes") restarted refl)

leave-broadcast_example :
    ((broadcast none (blank "presence") (0 ∷ 1 ∷ []) joined).0 ≡ ok tt)
    × ((broadcast none
          (blank "presence")
          (0 ∷ 1 ∷ [])
          (record joined { hub = leave_room 1 (room_of joined.hub "notes") joined.hub })).0
        ≡ err panic)
leave-broadcast_example =
    leave-broadcast "notes" room 1 (blank "presence") joined (unfold find_where ◌==◌ in refl)
      (unfold all_open is_open find_where in refl) (unfold any_where in refl)
