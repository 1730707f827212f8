-- ===== src/Model/Audit.antt =====
-- backend/internal/audit/model.go. A metadata value is kept as its text.
use online_colab_document.Base.{ℕ, ℤ, String, List, Option}

pub record Log : Type 0 where
  pub id : String
  pub actor_user_id : Option String
  pub actor_display_name : Option String
  pub actor_email : Option String
  pub action : String
  pub target_type : String
  pub target_id : String
  pub ip_addr : Option String
  pub user_agent : Option String
  pub metadata : List (String × String)
  pub created_at : ℕ

pub record RecordInput : Type 0 where
  pub actor_user_id : Option String
  pub action : String
  pub target_type : String
  pub target_id : String
  pub ip_addr : String
  pub user_agent : String
  pub metadata : List (String × String)

pub record ListFilter : Type 0 where
  pub actor_user_id : Option String
  pub action : String
  pub target_type : String
  pub target_id : String
  pub ip_addr : String
  pub earliest : Option ℕ
  pub latest : Option ℕ
  pub limit : ℤ
  pub offset : ℤ

pub record PublicLog : Type 0 where
  pub id : String
  pub actor_user_id : Option String
  pub actor_display_name : Option String
  pub actor_email : Option String
  pub action : String
  pub target_type : String
  pub target_id : String
  pub ip_addr : Option String
  pub user_agent : Option String
  pub metadata : List (String × String)
  pub created_at : ℕ

abbrev pub to_public : Log → PublicLog
to_public log = record {
  id = log.id;
  actor_user_id = log.actor_user_id;
  actor_display_name = log.actor_display_name;
  actor_email = log.actor_email;
  action = log.action;
  target_type = log.target_type;
  target_id = log.target_id;
  ip_addr = log.ip_addr;
  user_agent = log.user_agent;
  metadata = log.metadata;
  created_at = log.created_at;
}
