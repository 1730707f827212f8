-- ===== src/Http/Response.antt =====
-- backend/internal/api: the answers of the handlers, and how a handler runs a service and the log.
use Prim.Native.String.{String, ◌++◌}
use Prim.Native.String.{char_at, [], ◌∷◌}
use online_colab_document.Base.{
  ℕ, zero, suc, ◌/◌, ◌%◌, List, Option, none, some, ltb, if◌then◌else◌,
}
use online_colab_document.Model.User.{User}
use online_colab_document.Model.Audit.{RecordInput}
use online_colab_document.World.{Error, Result, ok, err, World, M}
use online_colab_document.Audit.Service.{request_ip}

-- `WriteJSON` with a status and a payload, or `WriteError` with a status and a message.
pub data Response (A : Type 0) : Type 0 where
  done : ℕ → A → Response A
  refused : ℕ → String → Response A

abbrev pub Handler : Type 0 → Type 0
Handler A = World → Response A × World

-- What the handlers read of a request: its path values are arguments of the handlers.
pub record Request : Type 0 where
  pub forwarded_for : String
  pub remote_addr : String
  pub user_agent : String
  -- What `net.SplitHostPort` gives for an address, none for an error.
  pub split_host_port : String → Option String

abbrev pub respond : {A : Type 0} → ℕ → A → Handler A
respond status a w = (done status a, w)

abbrev pub refuse : {A : Type 0} → ℕ → String → Handler A
refuse status message w = (refused status message, w)

abbrev pub after {ℓ} :
    {A : Type ℓ} {B : Type 0}
    → (Error → ℕ × String)
    → Result A × World
    → (A → Handler B)
    → Response B × World
after status_of (ok a, w) k = k a w
after status_of (err e, w) k = refuse (status_of e).0 (status_of e).1 w

-- `if err != nil { h.writeError(…); return }`.
abbrev pub serve {ℓ} :
    {A : Type ℓ} {B : Type 0} → (Error → ℕ × String) → M A → (A → Handler B) → Handler B
serve status_of m k w = after status_of (m w) k

-- `middleware.CurrentUser` of the request's context.
abbrev pub with_user : {A : Type 0} → Option User → (User → Handler A) → Handler A
with_user none k = refuse 401 "unauthenticated"
with_user (some u) k = k u

abbrev pub AuditRecorder : Type 0
AuditRecorder = RecordInput → M (Unit {0})

abbrev recorded : {A : Type 0} → Result (Unit {0}) × World → Handler A → Response A × World
recorded (r, w) k = k w

abbrev from_request : Request → RecordInput → RecordInput
from_request r input = record input {
  ip_addr = request_ip r.split_host_port r.forwarded_for r.remote_addr;
  user_agent = r.user_agent;
}

-- `recordAudit`: an error of the log is logged and otherwise ignored.
abbrev pub record_audit :
    {A : Type 0} → Option AuditRecorder → Request → RecordInput → Handler A → Handler A
record_audit none r input k w = k w
record_audit (some recorder) r input k w = recorded (recorder (from_request r input) w) k

abbrev pub audit_input : User → String → String → String → List (String × String) → RecordInput
audit_input u action target_type target_id metadata = record {
  actor_user_id = some u.id;
  action = action;
  target_type = target_type;
  target_id = target_id;
  ip_addr = "";
  user_agent = "";
  metadata = metadata;
}

abbrev digit : ℕ → String
digit n = char_at "0123456789" n ∷ []

digits : ℕ → ℕ → String
digits zero n = ""
digits (suc fuel) n =
    let front = digits fuel (n / 10) in if ltb n 10 then digit n else front ++ digit (n % 10)

-- A number as its text; it has fewer digits than one more than itself.
unfoldable pub decimal : ℕ → String
unfolding digits
decimal n = digits (suc n) n
