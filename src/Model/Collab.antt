-- ===== src/Model/Collab.antt =====
-- backend/internal/markdown/collab/model.go, and the messages of service.go beside it.
use online_colab_document.Base.{ℕ, ℤ, String, Bool, List, Option}
use online_colab_document.Model.User.{User}

pub record Snapshot : Type 0 where
  pub id : String
  pub document_id : String
  pub version_no : ℕ
  pub content : String
  pub created_by : Option String
  pub created_at : ℕ

pub record Cursor : Type 0 where
  pub from : ℤ
  pub to : ℤ

pub record ClientUpdate : Type 0 where
  pub type : String
  pub content : String
  pub cursor : Option Cursor

-- The stored bytes of an update: the JSON of a client update, or bytes that do not decode.
pub data UpdateData : Type 0 where
  json : ClientUpdate → UpdateData
  undecodable : UpdateData

pub record Update : Type 0 where
  pub id : String
  pub document_id : String
  pub update_seq : ℕ
  pub update_data : UpdateData
  pub created_by : Option String
  pub created_at : ℕ

pub record PresenceUser : Type 0 where
  pub user_id : String
  pub display_name : String
  pub can_edit : Bool

pub record PublicSnapshot : Type 0 where
  pub document_id : String
  pub content : String
  pub version_no : ℕ
  pub can_edit : Bool
  pub users : List PresenceUser

pub record ServerMessage : Type 0 where
  pub type : String
  pub content : String
  pub can_edit : Bool
  pub update_seq : ℕ
  pub user_id : String
  pub display_name : String
  pub users : List PresenceUser
  pub cursor : Option Cursor
  pub error : String

-- A connected client. `receive` is its channel, oldest message first, and `handle` its identity.
pub record ClientSession : Type 0 where
  pub handle : ℕ
  pub document_id : String
  pub user : User
  pub can_edit : Bool
  pub receive : List ServerMessage
  pub closed : Bool
  pub connected_at : ℕ

-- A room holds the handles of its clients.
pub record Room : Type 0 where
  pub document_id : String
  pub content : String
  pub update_seq : ℕ
  pub clients : List ℕ

-- The memory of the one backend instance: the rooms, and every session made so far.
pub record Hub : Type 0 where
  pub rooms : List Room
  pub sessions : List ClientSession
  pub next_handle : ℕ
