-- ===== src/Audit/Service.antt =====
-- backend/internal/audit/service.go.
use online_colab_document.Base.{
  ℕ, String, List, [], ◌∷◌, Option, none, some, Bool, ◌||◌, ◌==◌, if◌then◌else◌, delete_where,
}
use online_colab_document.Text.{trim_space, to_lower, contains}
use online_colab_document.Model.Audit.{Log, RecordInput, ListFilter}
use online_colab_document.World.{M, pure, ◌>>=◌, now}
use online_colab_document.Uuid.{new_uuid}
use online_colab_document.Encoding.Split.{split}
use online_colab_document.Audit.Repository.{create}
use online_colab_document.Audit.Repository

unfoldable pub nullable : String → Option String
nullable value = let s = trim_space value in if s == "" then none else some s

-- The key names something that must not be logged.
unfoldable pub is_sensitive : String → Bool
is_sensitive key =
    let lower = to_lower key in
    contains lower "password"
    || (contains lower "token" || (contains lower "secret" || contains lower "cookie"))

abbrev pub sensitive_entry : String × String → Bool
sensitive_entry entry = is_sensitive entry.0

unfoldable pub sanitize_metadata : List (String × String) → List (String × String)
sanitize_metadata metadata = delete_where sensitive_entry metadata

abbrev pub entry : RecordInput → String → ℕ → Log
entry input id created_at = record {
  id = id;
  actor_user_id = input.actor_user_id;
  actor_display_name = none;
  actor_email = none;
  action = input.action;
  target_type = input.target_type;
  target_id = input.target_id;
  ip_addr = nullable input.ip_addr;
  user_agent = nullable input.user_agent;
  metadata = sanitize_metadata input.metadata;
  created_at = created_at;
}

-- What names no action or no target is not recorded.
abbrev pub names_nothing : RecordInput → Bool
names_nothing input = input.action == "" || (input.target_type == "" || input.target_id == "")

unfoldable pub record_action : RecordInput → M (Unit {0})
record_action input =
    if names_nothing input
    then pure tt
    else do id ← new_uuid; created_at ← now; create (entry input id created_at)

unfoldable pub list : ListFilter → M (List Log)
list filter = Repository.list filter

abbrev first_part : List String → String
first_part [] = ""
first_part (p ∷ ps) = p

abbrev or_address : Option String → String → String
or_address none address = address
or_address (some host) address = host

-- The address of a request: of the header `X-Forwarded-For` if it is there, or of the connection;
-- `split_host_port` is `net.SplitHostPort`, none for an error.
unfoldable pub request_ip : (String → Option String) → String → String → String
request_ip split_host_port forwarded remote_addr =
    let ip = trim_space forwarded in
    if ip == ""
    then or_address (split_host_port remote_addr) remote_addr
    else trim_space (first_part (split b',' ip))
