-- ===== src/Collab/Broadcast.antt =====
-- What sending to the clients leaves alone: everything but their channels.
use online_colab_document.Base.{ℕ, List, [], ◌∷◌, Option, ◌≡◌, arith}
use online_colab_document.Model.Collab.{ServerMessage}
use online_colab_document.World.{World}
use online_colab_document.Collab.Room.{enqueue, broadcast}

-- The same world but for the channels.
pub record SendsOnly (w w' : World) : Type 0 where
  pub db : w'.db ≡ w.db
  pub env : w'.env ≡ w.env
  pub objects : w'.objects ≡ w.objects
  pub rooms : w'.hub.rooms ≡ w.hub.rooms

pub enqueue-SendsOnly :
    (handle : ℕ) (m : ServerMessage) (w : World) → SendsOnly w (enqueue handle m w).1
unfolding enqueue
enqueue-SendsOnly handle m w = ground arith

pub broadcast-SendsOnly :
    (sender : Option ℕ) (m : ServerMessage) (rs : List ℕ) (w : World)
    → SendsOnly w (broadcast sender m rs w).1
unfolding broadcast
broadcast-SendsOnly sender m [] w = ground arith
broadcast-SendsOnly sender m (r ∷ rs) w = ground (
  arith,
  enqueue-SendsOnly r m w,
  broadcast-SendsOnly sender m rs w,
  broadcast-SendsOnly sender m rs (enqueue r m w).1,
)
