-- ===== src/User/Repository.antt =====
-- backend/internal/user/repository.go: two searches of the table `users`.
use Prim.Native.Char.{code}
use Prim.Native.String.{String, [], ◌∷◌, ◌++◌}
use online_colab_document.Base
use online_colab_document.Base.{
  ℕ, List, Bool, true, false, not, ◌&&◌, ◌||◌, nat_eq, ltb, ◌==◌, if◌then◌else◌, select_where,
  order_by, take, drop,
}
use online_colab_document.Text.{trim_space, to_lower, from_some_place}
use online_colab_document.Model.User.{User}
use online_colab_document.World.{Env, ok, Db, M, query}

-- What a `LIKE` pattern is made of.
pub data Item : Type 0 where
  any_text any_char : Item
  exactly : ℕ → Item

abbrev item_of : ℕ → Item
item_of n = if nat_eq n b'%' then any_text else if nat_eq n b'_' then any_char else exactly n

-- A percent sign stands for any text and an underscore for any character; a backslash takes that from
-- the character behind it. The flag is whether a backslash came before.
unfoldable pub items : Bool → String → List Item
items after_escape [] = Base.[]
items true (c ∷ s) = Base.◌∷◌ (exactly (code c)) (items false s)
items false (c ∷ s) =
    let escaped = items true s in
    let rest = items false s in
    if nat_eq (code c) b'\\' then escaped else Base.◌∷◌ (item_of (code c)) rest

abbrev behind : String → (ℕ → Bool) → (String → Bool) → Bool
behind [] test p = false
behind (c ∷ s) test p = test (code c) && p s

unfoldable pub fits : List Item → String → Bool
unfolding from_some_place
fits Base.[] s = s == ""
fits (Base.◌∷◌ any_text pattern) s = from_some_place (fits pattern) s
fits (Base.◌∷◌ any_char pattern) s = behind s (λ n. true) (fits pattern)
fits (Base.◌∷◌ (exactly m) pattern) s = behind s (λ n. nat_eq n m) (fits pattern)

-- SQL's `s LIKE pattern`.
unfoldable pub like : String → String → Bool
unfolding items fits
like pattern s = fits (items false pattern) s

-- `LOWER(email) LIKE $1 OR LOWER(display_name) LIKE $1`, left out for an empty query.
unfoldable pub matches : String → User → Bool
matches words u =
    let pattern = "%" ++ to_lower words ++ "%" in
    words == "" || (like pattern (to_lower u.email) || like pattern (to_lower u.display_name))

-- `LIMIT` and `OFFSET`.
abbrev pub page : ℕ → ℕ → List User → List User
page limit offset rows = take limit (drop offset rows)

abbrev pub by_name : Env → User → User → Bool
by_name env a b =
    env.collates a.display_name b.display_name
    || (not (env.collates b.display_name a.display_name) && env.collates a.email b.email)

-- The accounts that a search finds, in order.
unfoldable pub found : Env → String → Db → List User
unfolding matches
found env words db =
    order_by (by_name env) (select_where (λ u. not u.disabled && matches words u) db.users)

unfoldable pub search : String → ℕ → ℕ → M (List User)
unfolding found
search words limit offset w =
    query (λ db. ok (page limit offset (found w.env (trim_space words) db))) w

unfoldable pub found_admin : String → Db → List User
unfolding matches
found_admin words db =
    order_by (λ a b. ltb b.created_at a.created_at) (select_where (matches words) db.users)

unfoldable pub list_admin : String → ℕ → ℕ → M (List User)
unfolding found_admin
list_admin words limit offset =
    query λ db. ok (page limit offset (found_admin (trim_space words) db))
