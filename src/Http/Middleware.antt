-- ===== src/Http/Middleware.antt =====
-- backend/internal/middleware/auth.go, and `requireAdmin` of backend/internal/server/server.go.
use online_colab_document.Base.{String, Option, none, some, not, if◌then◌else◌}
use online_colab_document.Model.User.{User}
use online_colab_document.World.{Result, ok, err, World, M}
use online_colab_document.Http.Response.{Handler, Response, refuse, with_user}

abbrev authenticated :
    {A : Type 0} → Result User × World → (Option User → Handler A) → Response A × World
authenticated (ok u, w) next = next (some u) w
authenticated (err e, w) next = refuse 401 "unauthenticated" w

-- The cookie of the request, none if it has none; the service is `CurrentUser` of the accounts.
unfoldable pub require_auth :
    {A : Type 0} → (String → M User) → Option String → (Option User → Handler A) → Handler A
require_auth current_user none next w = refuse 401 "unauthenticated" w
require_auth current_user (some token) next w = authenticated (current_user token w) next

abbrev pub admins_only : {A : Type 0} → (Option User → Handler A) → Option User → Handler A
admins_only next current =
    with_user current λ u. if not u.is_admin then refuse 403 "forbidden" else next (some u)

unfoldable pub require_admin :
    {A : Type 0} → (String → M User) → Option String → (Option User → Handler A) → Handler A
unfolding require_auth
require_admin current_user cookie next = require_auth current_user cookie (admins_only next)
