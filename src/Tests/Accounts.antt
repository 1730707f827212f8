-- ===== src/Tests/Accounts.antt =====
-- Logins through the provider, password hashes, searches and the log at the fixture.
use Prim.Native.String.{String}
use online_colab_document.Base.{
  ℕ, zero, suc, ◌+◌, ◌≤◌, ◌%◌, pos, negsuc, [], ◌∷◌, map, Option, some, none, take, drop, PageSize,
  PageStart, true, false, not, ltb, ◌==◌, ◌≡◌, ◌≢◌, refl, arith, length, find_where, any_where,
  select_where, update_where, delete_where, order_by,
}
use online_colab_document.Text.{
  trim_space, to_lower, lower_char, trim_left, trim_right, from_some_place, has_prefix, contains,
}
use online_colab_document.Model.User.{User, Session}
use online_colab_document.Model.Audit.{RecordInput, ListFilter}
use online_colab_document.World.{Result, ok, err, World, called}
use online_colab_document.World.Laws.{returned}
use online_colab_document.Uuid.{new_uuid, new_token, uuid_text, token_text, stamp}
use online_colab_document.Encoding.Bytes.{utf8, AllBelow}
use online_colab_document.Local.Repository.{
  has_subject, create, find_by_email, find_by_id, find_by_oidc_subject, set_oidc_subject,
  create_session,
}
use online_colab_document.Local.Service.{AuthSession, start_session, hash_token}
use online_colab_document.Local.Sessions.{session_of}
use online_colab_document.Local.Password.{mac_of, hash_password, verify_password}
use online_colab_document.Local.Password.RoundTrip.{IsMac, hash_password-verify_password}
use online_colab_document.Oidc.Service.{
  Service, Provider, Profile, provider, identify, normalize_profile, merge_by_email,
  create_oidc_user, upsert_oidc_user, callback,
}
use online_colab_document.Oidc.Accounts.{UniqueUsers, Outcome}
use online_colab_document.Http.Response.{Request, Response, done, refused}
use online_colab_document.Oidc.Handler
use online_colab_document.Oidc.Handler.{LoggedIn, CallbackQuery}
use online_colab_document.Oidc.Routes.{finished, callback_done}
use online_colab_document.Oidc.Callback.{Vouches}
use online_colab_document.User.Repository.{found, page, matches, items, fits, like}
use online_colab_document.User.Repository
use online_colab_document.User.Service as Users
use online_colab_document.User.Service.{SearchResult, bounded, to_public}
use online_colab_document.User.Pages.{answers, search_ok}
use online_colab_document.Audit.Repository.{passes}
use online_colab_document.Audit.Repository as Logs
use online_colab_document.Audit.Service.{
  record_action, list, is_sensitive, nullable, sanitize_metadata,
}
use online_colab_document.Audit.Entries.{IsClean, record_action-IsClean}
use online_colab_document.Audit.Handler as Trail
use online_colab_document.Audit.Handler.{
  Query, LogPage, parse_list_filter, parse_optional_time, parse_optional_int,
}
use online_colab_document.Audit.Paging.{Shows, rows_of, list_done}
use online_colab_document.Local.Password.{atoi}
use online_colab_document.Tests.Fixture.{start, bob, repeated}

-- What the operations of the packages compute with.
runs : Unit {0}
unfolding start_session hash_token find_by_email find_by_id find_by_oidc_subject set_oidc_subject
    create create_session trim_space to_lower lower_char trim_left trim_right from_some_place
    has_prefix contains new_uuid new_token uuid_text token_text stamp find_where any_where
    select_where update_where delete_where order_by ◌==◌ provider identify normalize_profile
    merge_by_email create_oidc_user upsert_oidc_user callback found matches items fits like
    Users.search Repository.search to_public record_action list Logs.list passes is_sensitive
    nullable sanitize_metadata Logs.create Trail.list parse_list_filter parse_optional_time
    parse_optional_int atoi
runs = tt

-- A provider that knows one user.
abbrev known : Provider
known = record {
  auth_code_url = λ state nonce. state;
  exchange = λ n code. some (record { access_token = code; id_token = some "id" });
  verify = λ n raw. some (record { subject = "s1"; nonce = "n1" });
  fetch = λ n token.
      some (record { subject = ""; email = "Carol@example.org"; display_name = "Carol" });
}

abbrev service : Service
service = record {
  cfg = record { enabled = true; auto_merge_by_email = false };
  provider_factory = some (λ n. some known);
}

abbrev carol : Profile
carol = record { subject = "s1"; email = "carol@example.org"; display_name = "Carol" }

abbrev session_for : Result AuthSession → AuthSession
session_for (ok a) = a
session_for (err e) = record { user = bob; token = ""; expires_at = 0 }

abbrev answer : AuthSession
answer = session_for (callback service "code" "n1" 100 start).0

users-UniqueUsers : UniqueUsers start.db.users
unfolding any_where ◌==◌
users-UniqueUsers = (refl, (refl, tt))

abbrev request : Request
request = record {
  forwarded_for = "";
  remote_addr = "10.0.0.1:80";
  user_agent = "";
  split_host_port = λ s. some "10.0.0.1";
}

abbrev came_back : CallbackQuery
came_back = record {
  error = "";
  state = "x";
  code = "code";
  state_cookie = "x";
  nonce_cookie = "n1";
}

abbrev logged_in : LoggedIn
logged_in = record { location = "/documents"; token = answer.token; expires_at = answer.expires_at }

callback_done_example :
    (came_back.state ≢ "")
    × (came_back.state ≡ came_back.state_cookie)
    × (p : Provider) × (profile : Profile) × (provider service start ≡ (ok p, called start))
    × Vouches p "code" "n1" 1 profile
    × (u : User) × (v : World) × (find_where (has_subject profile.subject) v.db.users ≡ some u)
    × (u.disabled ≡ false)
    × Outcome service.cfg profile start u v
    × (x : Session) × (session_of (finished service 100 came_back start) logged_in.token ≡ some x)
    × (x.user_id ≡ u.id)
    × (x.expires_at ≡ logged_in.expires_at)
unfolding runs Handler.callback
callback_done_example =
    callback_done service 100 "/documents" none request came_back start {a = logged_in}
      users-UniqueUsers refl

repeated-AllBelow : (n x : ℕ) → AllBelow 256 (repeated n (x % 256))
repeated-AllBelow zero x = tt
repeated-AllBelow (suc n) x = (omega arith, repeated-AllBelow n x)

start-IsMac : IsMac (mac_of start.env "a password" "pepper")
start-IsMac = record {
  sized = λ m. refl;
  bytes = λ m. repeated-AllBelow 32 (length (utf8 "a passwordpepper") + length m);
}

hash_password-verify_password_example :
    (hash : String) × (hash_password "a password" "pepper" start ≡ (ok hash, called start))
    × (verify_password "a password" "pepper" hash start.env ≡ ok true)
hash_password-verify_password_example =
    hash_password-verify_password "a password" "pepper" start refl start-IsMac

abbrev result_for : Result SearchResult → SearchResult
result_for (ok r) = r
result_for (err e) = record { items = []; has_more = false }

abbrev answered : SearchResult
answered = result_for (Users.search "BOB" (pos 1) (negsuc 3) start).0

search_ok_example :
    (n : ℕ) × PageSize 50 50 (pos 1) n
    × (o : ℕ) × PageStart (negsuc 3) o
    × (answered.items
        ≡ map to_public (take n (drop o (answers (trim_space (trim_space "BOB")) start))))
    × (answered.has_more ≡ ltb (o + n) (length (answers (trim_space (trim_space "BOB")) start)))
    × (any_where (λ u. u.disabled) (answers (trim_space (trim_space "BOB")) start) ≡ false)
    × (length answered.items ≤ 50)
unfolding runs
search_ok_example =
    search_ok "BOB" (pos 1) (negsuc 3) start
      (returned (Users.search "BOB" (pos 1) (negsuc 3)) start refl)

abbrev by_alice : RecordInput
by_alice = record {
  actor_user_id = some "alice";
  action = "auth.login";
  target_type = "user";
  target_id = "alice";
  ip_addr = "10.0.0.1";
  user_agent = "";
  metadata = ("newPassword", "x") ∷ ("email", "alice@example.org") ∷ [];
}

record_action-IsClean_example : IsClean (record_action by_alice start).1
record_action-IsClean_example = record_action-IsClean by_alice start (unfold any_where in refl)

-- Two rows of the log.
abbrev logged : World
logged = (record_action by_alice (record_action by_alice start).1).1

abbrev admin : User
admin = record bob { is_admin = true }

abbrev logins : Query
logins = record {
  actor_user_id = "";
  action = "auth.login";
  target_type = "";
  target_id = "";
  ip_addr = "";
  earliest = "";
  latest = "";
  limit = "1";
  offset = "";
}

abbrev no_times : String → Option ℕ
no_times value = none

abbrev log_page : LogPage
log_page = page_in (Trail.list no_times (some admin) logins logged).0
  where
    page_in : Response LogPage → LogPage
    page_in (done status p) = p
    page_in (refused status message) = record { items = []; has_more = false }

list_done_example :
    (◌≡◌ {A = ℕ} 200 200)
    × (u : User) × (some admin ≡ some u)
    × (u.is_admin ≡ true)
    × (f : ListFilter) × (parse_list_filter no_times logins ≡ some f)
    × (n : ℕ) × PageSize 100 50 f.limit n
    × (o : ℕ) × PageStart f.offset o
    × Shows f logged n o log_page
    × (any_where (λ l. not (passes f l)) (rows_of f logged.db) ≡ false)
    × ((Trail.list no_times (some admin) logins logged).1.db ≡ logged.db)
unfolding runs
list_done_example = list_done no_times (some admin) logins logged refl

-- The second row stands behind the page.
log_page_more : (length log_page.items ≡ 1) × (log_page.has_more ≡ true)
unfolding runs
log_page_more = (refl, refl)
