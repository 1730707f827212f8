-- ===== src/User/Service.antt =====
-- backend/internal/user/service.go, and the two conversions of model.go.
use Prim.Native.String.{String, ◌++◌}
use online_colab_document.Base.{
  ℕ, suc, ℤ, List, map, Option, none, some, Bool, ltb, ◌==◌, if◌then◌else◌, le_zero, pos_part,
  length, take,
}
use online_colab_document.Text.{trim_space}
use online_colab_document.Model.User.{User, PublicUser, AdminUser}
use online_colab_document.World.{M, pure, ◌>>=◌}
use online_colab_document.User.Repository

abbrev pub max_search_limit : ℕ
max_search_limit = 50

abbrev avatar_url : String → Option String → String
avatar_url id none = ""
avatar_url id (some key) = if key == "" then "" else "/api/users/" ++ id ++ "/avatar"

unfoldable pub to_public : User → PublicUser
to_public u = record {
  id = u.id;
  email = u.email;
  display_name = u.display_name;
  avatar_url = avatar_url u.id u.avatar_key;
  auth_source = u.auth_source;
  is_admin = u.is_admin;
}

unfoldable pub to_admin : User → AdminUser
unfolding to_public
to_admin u =
    let public = to_public u in
    record {
      id = public.id;
      email = public.email;
      display_name = public.display_name;
      auth_source = public.auth_source;
      is_admin = public.is_admin;
      disabled = u.disabled;
      created_at = u.created_at;
      avatar_url = public.avatar_url;
    }

-- The default limit is the greatest one, too.
abbrev pub bounded : ℤ → ℕ
bounded limit =
    if le_zero limit
    then max_search_limit
    else if ltb max_search_limit (pos_part limit)
    then max_search_limit
    else pos_part limit

pub record SearchResult : Type 0 where
  pub items : List PublicUser
  pub has_more : Bool

abbrev result_of : ℕ → List User → SearchResult
result_of limit users =
    let has_more = ltb limit (length users) in
    record {
      items = map to_public (if has_more then take limit users else users);
      has_more = has_more;
    }

unfoldable pub search : String → ℤ → ℤ → M SearchResult
search words limit offset = do
  users ← Repository.search (trim_space words) (suc (bounded limit)) (pos_part offset)
  pure (result_of (bounded limit) users)

unfoldable pub list_admin : String → ℤ → ℤ → M (List AdminUser)
list_admin words limit offset = do
  users ← Repository.list_admin (trim_space words) (bounded limit) (pos_part offset)
  pure (map to_admin users)
