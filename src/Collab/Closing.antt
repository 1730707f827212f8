-- ===== src/Collab/Closing.antt =====
-- A `Leave` between the two halves of a broadcast: taking the receivers, which is done under the
-- room's lock, and sending to them, which is not.
use online_colab_document.Base.{
  ℕ, String, List, [], ◌∷◌, Option, none, some, Bool, true, false, not, ◌&&◌, nat_eq, if◌then◌else◌,
  ◌≡◌, refl, ◌∙◌, subst, arith, Bool-cases, inl, inr, any_where, changed, find_where-update_where,
  find_where-true,
}
use online_colab_document.Model.Collab.{ServerMessage, ClientSession, Room, Hub}
use online_colab_document.World.{World, ok, err, panic}
use online_colab_document.Collab.Room.{session_of, room_of, is_session, offer, enqueue, broadcast}
use online_colab_document.Collab.Service.{leave_room, is_client}

abbrev is_open_session : Option ClientSession → Bool
is_open_session none = false
is_open_session (some c) = not c.closed

-- The client's channel is open.
unfoldable pub is_open : Hub → ℕ → Bool
is_open hub handle = is_open_session (session_of hub handle)

unfoldable pub all_open : Hub → List ℕ → Bool
all_open hub [] = true
all_open hub (r ∷ rs) = is_open hub r && all_open hub rs

enqueue_result :
    (h : ℕ) (m : ServerMessage) (w : World)
    → (enqueue h m w).0 ≡ (if is_open w.hub h then ok tt else err panic)
unfolding enqueue is_open
enqueue_result h m w = ground arith

offered_open :
    (m : ServerMessage) (p : ClientSession → Bool) (o : Option ClientSession)
    → is_open_session (changed p (offer m) o) ≡ is_open_session o
offered_open m p none = refl
offered_open m p (some c) = ground arith

offer-handle :
    (h : ℕ) (m : ServerMessage) (c : ClientSession) → is_session h (offer m c) ≡ is_session h c
offer-handle h m c = ground arith

enqueue-is_open :
    (g h : ℕ) (m : ServerMessage) (w : World) → is_open (enqueue g m w).1.hub h ≡ is_open w.hub h
unfolding enqueue is_open
enqueue-is_open g h m w = ground (
  arith,
  find_where-update_where (is_session h) (is_session g) (offer m) w.hub.sessions (offer-handle h m),
  offered_open m (is_session g) (session_of w.hub h),
)

enqueue-all_open :
    (g : ℕ) (m : ServerMessage) (w : World) (rs : List ℕ)
    → all_open (enqueue g m w).1.hub rs ≡ all_open w.hub rs
unfolding all_open
enqueue-all_open g m w [] = refl
enqueue-all_open g m w (r ∷ rs) = rw (enqueue-is_open g r m w, enqueue-all_open g m w rs) refl

broadcast_result :
    (m : ServerMessage) (rs : List ℕ) (w : World)
    → (broadcast none m rs w).0 ≡ (if all_open w.hub rs then ok tt else err panic)
unfolding broadcast all_open
broadcast_result m [] w = refl
broadcast_result m (r ∷ rs) w = ground (
  arith,
  enqueue_result r m w,
  enqueue-all_open r m w rs,
  broadcast_result m rs (enqueue r m w).1,
)

abbrev pub close : ClientSession → ClientSession
close c = record c { closed = true }

closed_open :
    (p : ClientSession → Bool) (o : Option ClientSession)
    → ((c : ClientSession) → o ≡ some c → p c ≡ true)
    → is_open_session (changed p close o) ≡ false
closed_open p none k = refl
closed_open p (some c) k = ground (arith, k c refl)

-- The first half of a `Leave`, under the room's lock, closes the channel of a client of the room.
leave_room-closes :
    (h : ℕ) (r : Room) (hub : Hub)
    → is_client h r ≡ true
    → is_open (leave_room h (some r) hub) h ≡ false
unfolding is_open
leave_room-closes h r hub client = rw client (
    rw (find_where-update_where (is_session h) (is_session h) close hub.sessions (λ c. refl)) (
      closed_open (is_session h) (session_of hub h)
        (λ c e. find_where-true (is_session h) hub.sessions e)))

closed_among :
    (hub : Hub) (h : ℕ) (rs : List ℕ)
    → is_open hub h ≡ false
    → any_where (nat_eq h) rs ≡ true
    → all_open hub rs ≡ false
unfolding all_open any_where
closed_among hub h [] shut member = absurd (ground arith)
closed_among hub h (r ∷ rs) shut member = elim (Bool-cases (nat_eq h r)) [
  | inl same ↦
      let e : h ≡ r = ground arith in ground (arith, subst (λ x. is_open hub x ≡ false) e shut)
  | inr other ↦ ground (arith, closed_among hub h rs shut)
]

-- A broadcast to clients with open channels succeeds when it runs at once. If a `Leave` of one of the
-- clients closes its channel between the two halves, after the receivers have been taken and before
-- they are sent to, then the broadcast panics: it sends on a closed channel.
pub leave-broadcast :
    (d : String) (r : Room) (h : ℕ) (m : ServerMessage) (w : World)
    → room_of w.hub d ≡ some r
    → all_open w.hub r.clients ≡ true
    → is_client h r ≡ true
    → ((broadcast none m r.clients w).0 ≡ ok tt)
      × ((broadcast none m r.clients (record w { hub = leave_room h (room_of w.hub d) w.hub })).0
          ≡ err panic)
leave-broadcast d r h m w room opened client =
    let left = record w { hub = leave_room h (some r) w.hub } in
    let shut = closed_among left.hub h r.clients (leave_room-closes h r w.hub client) client in
    (
      broadcast_result m r.clients w ∙ rw opened refl,
      rw room (broadcast_result m r.clients left ∙ rw shut refl),
    )
