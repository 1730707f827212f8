-- ===== src/Tests/Http.antt =====
-- Routes at the fixture.
use Prim.Native.String.{String}
use online_colab_document.Base.{
  ℕ, suc, ◌<◌, [], ◌∷◌, pos, Option, some, true, false, ◌==◌, ◌≡◌, refl, find_where, any_where,
  delete_where,
}
use online_colab_document.Model.User.{User, Session}
use online_colab_document.World.{World}
use online_colab_document.Permission.Access.{access}
use online_colab_document.Local.Repository.{find_session_by_token_hash, find_by_id}
use online_colab_document.Local.Service.{current_user, hash_token}
use online_colab_document.Local.Sessions.{session_of, user_of}
use online_colab_document.Http.Response.{Handler, Request, done, respond}
use online_colab_document.Http.Middleware.{require_auth, require_admin}
use online_colab_document.Http.Gate.{require_admin_ok}
use online_colab_document.Document.Handler.{update_markdown}
use online_colab_document.Document.Handler
use online_colab_document.Document.Routes.{Forbids, routes-Forbids}
use online_colab_document.Audit.Service.{record_action}
use online_colab_document.Wiring.{document_service}
use online_colab_document.Tests.Fixture.{start, alice, bob, bob_views}

-- What the gate computes with.
runs : Unit {0}
unfolding require_admin require_auth current_user hash_token find_session_by_token_hash find_by_id
    find_where any_where delete_where ◌==◌
runs = tt

abbrev root : User
root = record alice { is_admin = true }

abbrev session : Session
session = record {
  id = "s1";
  user_id = "alice";
  token_hash = "token";
  expires_at = 5000;
  created_at = 1;
}

abbrev signed_in : World
signed_in = record start {
  db = record start.db { users = root ∷ bob ∷ []; sessions = session ∷ [] };
}

abbrev next : Option User → Handler ℕ
next current = respond 200 7

require_admin_ok_example :
    (token : String) × (some "token" ≡ some token)
    × (s : Session) × (session_of signed_in token ≡ some s)
    × (signed_in.env.time (suc signed_in.calls) < s.expires_at)
    × (u : User) × (user_of signed_in s.user_id ≡ some u)
    × (u.disabled ≡ false)
    × (u.is_admin ≡ true)
    × (next (some u) (current_user token signed_in).1
        ≡ (done 200 7, (require_admin current_user (some "token") next signed_in).1))
unfolding runs
require_admin_ok_example = require_admin_ok next (some "token") signed_in refl

abbrev request : Request
request = record {
  forwarded_for = "";
  remote_addr = "10.0.0.1:80";
  user_agent = "";
  split_host_port = λ s. some "10.0.0.1";
}

-- Bob may edit the notes, and Carol has no role at them.
abbrev carol : User
carol = record bob { id = "carol" }

abbrev edited : World
edited = record start {
  db = record start.db { permissions = record bob_views { permission = "editor" } ∷ [] };
}

routes-Forbids_example :
    Forbids edited (
      update_markdown
        (document_service (pos 0))
        (some record_action)
        request
        (some carol)
        "notes"
        (some "mine")
        edited)
    × Forbids edited (
        Handler.restore_version
          (document_service (pos 0))
          (some record_action)
          request
          (some carol)
          "notes"
          "v1"
          edited)
    × Forbids edited (
        Handler.delete
          (document_service (pos 0))
          (some record_action)
          request
          (some bob)
          "notes"
          edited)
routes-Forbids_example =
    routes-Forbids (pos 0) (some record_action) request carol bob "notes" "v1" "mine" edited
      (unfold access find_where ◌==◌ in refl) (unfold access find_where ◌==◌ in refl)
