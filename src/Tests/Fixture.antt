-- ===== src/Tests/Fixture.antt =====
-- A small installation: two accounts, a Markdown document of the first with one version, which the
-- second may view, and a share link; no outside call fails.
use online_colab_document.Base.{
  ℕ, zero, suc, ◌+◌, ◌%◌, String, List, length, [], ◌∷◌, some, none, false, true,
}
use online_colab_document.Text.{to_lower}
use online_colab_document.Model.User.{User}
use online_colab_document.Model.Document.{Document, Version}
use online_colab_document.Model.Permission.{Permission}
use online_colab_document.Model.Share.{Link}
use online_colab_document.World.{Env, Db, World}

abbrev pub repeated : ℕ → ℕ → List ℕ
repeated zero x = []
repeated (suc n) x = x ∷ repeated n x

abbrev pub calm : Env
calm = record {
  fault = λ n. false;
  time = λ n. n + 1000;
  byte = λ n i. n + i;
  sha256_hex = λ s. s;
  sha256_base64 = λ s. s;
  hmac_sha256 = λ key message. repeated 32 ((length key + length message) % 256);
  claims_json = λ c. [];
  parse_claims = λ bytes. none;
  collates = λ a b. false;
  uuid_text = λ s. some (to_lower s);
  rfc3339_nano = λ t. "";
  detect_content_type = λ s. "text/plain";
  parse_media_type = λ s. some s;
}

abbrev account : String → String → User
account id email = record {
  id = id;
  email = email;
  display_name = id;
  avatar_key = none;
  password_hash = some "hash";
  auth_source = "local";
  oidc_subject = none;
  is_admin = false;
  disabled = false;
  created_at = 1;
  updated_at = 1;
}

abbrev pub alice : User
alice = account "alice" "alice@example.org"

abbrev pub bob : User
bob = account "bob" "bob@example.org"

abbrev pub notes : Document
notes = record {
  id = "notes";
  owner_id = "alice";
  title = "notes";
  original_filename = "notes.md";
  file_ext = "md";
  mime_type = "text/markdown";
  storage_key = "documents/notes/versions/v1/notes.md";
  current_version_id = some "v1";
  size_bytes = 5;
  deleted_at = none;
  created_at = 10;
  updated_at = 10;
}

abbrev pub first_version : Version
first_version = record {
  id = "v1";
  document_id = "notes";
  version_no = 1;
  storage_key = "documents/notes/versions/v1/notes.md";
  size_bytes = 5;
  created_by = some "alice";
  created_at = 10;
}

abbrev pub bob_views : Permission
bob_views = record {
  id = "p1";
  document_id = "notes";
  subject_type = "user";
  subject_id = "bob";
  subject_display_name = none;
  subject_email = none;
  permission = "viewer";
  created_by = some "alice";
  created_at = 11;
}

abbrev pub edit_link : Link
edit_link = record {
  id = "l1";
  document_id = "notes";
  token_hash = "secret";
  permission = "editor";
  expires_at = some 5000;
  disabled = false;
  created_by = some "alice";
  created_at = 12;
}

abbrev pub tables : Db
tables = record {
  users = alice ∷ bob ∷ [];
  sessions = [];
  documents = notes ∷ [];
  versions = first_version ∷ [];
  permissions = bob_views ∷ [];
  links = edit_link ∷ [];
  snapshots = [];
  updates = [];
  logs = [];
}

abbrev pub start : World
start = record {
  env = calm;
  calls = 0;
  db = tables;
  objects =
      record {
        key = "documents/notes/versions/v1/notes.md";
        body = "hello";
        content_type = "text/markdown";
      }
      ∷ [];
  bucket_exists = true;
  ensured = false;
  ensure_err = false;
  hub = record { rooms = []; sessions = []; next_handle = 0 };
}
