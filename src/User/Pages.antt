-- ===== src/User/Pages.antt =====
-- What a search for accounts answers with.
use online_colab_document.Base.{
  ℕ, suc, pos, negsuc, nat_eq, ◌||◌, inl, inr, Bool-cases, order_by, PageSize, PageStart,
  pos_part-PageStart, ◌+◌, ◌-◌, ◌≤◌, ℤ, String, List, map, Bool, false, ltb, pos_part,
  if◌then◌else◌, ◌≡◌, refl, ◌∙◌, ap, arith, length, take, drop, length-take, length-drop,
  length-take-suc, take-take-suc, take_short, length-map, [], ◌∷◌, not, ◌&&◌, any_where,
  select_where, any_where-order_by,
}
use online_colab_document.Text.{trim_space}
use online_colab_document.Model.User.{User}
use online_colab_document.World.{World, Env, Db, ok}
use online_colab_document.User.Repository.{found, matches, by_name}
use online_colab_document.User.Repository
use online_colab_document.User.Service.{SearchResult, search, bounded, to_public}

bounded-PageSize : (limit : ℤ) → PageSize 50 50 limit (bounded limit)
bounded-PageSize (negsuc n) = inr (refl, inl refl)
bounded-PageSize (pos n) = elim (Bool-cases (nat_eq n 0 || ltb 50 n)) [
  | inl out ↦ inr (ground arith, ground arith)
  | inr within ↦ inl (ground arith, ground arith, ground arith)
]

bounded_le : (limit : ℤ) → (1 ≤ bounded limit) × (bounded limit ≤ 50)
bounded_le limit = (ground arith, ground arith)

cut :
    (n : ℕ) (xs : List User)
    → (if ltb n (length (take (suc n) xs)) then take n (take (suc n) xs) else take (suc n) xs)
      ≡ take n xs
cut n xs =
    ground (arith, length-take-suc n xs, take-take-suc n xs, take_short n xs, take_short (suc n) xs)

more_behind : (n o total : ℕ) → ltb n (total - o) ≡ ltb (o + n) total
more_behind n o total = ground arith

abbrev is_disabled : User → Bool
is_disabled u = u.disabled

none_disabled :
    (test : User → Bool) (us : List User)
    → any_where is_disabled (select_where (λ u. not u.disabled && test u) us) ≡ false
unfolding any_where select_where
none_disabled test [] = refl
none_disabled test (u ∷ us) = ground (arith, none_disabled test us)

found_enabled :
    (env : Env) (words : String) (db : Db) → any_where is_disabled (found env words db) ≡ false
unfolding found
found_enabled env words db =
    any_where-order_by is_disabled _
      (select_where (λ u. not u.disabled && matches words u) db.users)
    ∙ none_disabled (matches words) db.users

search_page :
    (words : String) (limit offset : ℤ) (w : World) {r : SearchResult} {w' : World}
    → search words limit offset w ≡ (ok r, w')
    → let rows = drop (pos_part offset) (found w.env (trim_space (trim_space words)) w.db) in
      let n = bounded limit in
      (r.items
        ≡ map to_public (
            if ltb n (length (take (suc n) rows))
            then take n (take (suc n) rows)
            else take (suc n) rows))
      × (r.has_more ≡ ltb n (length (take (suc n) rows)))
unfolding search Repository.search
search_page words limit offset w h = (ground arith, ground arith)

-- The accounts that a search is for, in the order of the database.
abbrev pub answers : String → World → List User
answers words w =
    order_by (by_name w.env) (select_where (λ u. not u.disabled && matches words u) w.db.users)

-- A search that succeeds answers with the accounts that match its words, leading and trailing blanks
-- aside, and are not disabled, in the order of the database, from its offset on: as many as its limit
-- says, if that is from 1 to 50, and otherwise 50; a negative offset is 0. It says that there are
-- more exactly if a matching account stands behind the page.
pub search_ok :
    (words : String) (limit offset : ℤ) (w : World) {r : SearchResult} {w' : World}
    → search words limit offset w ≡ (ok r, w')
    → (n : ℕ) × PageSize 50 50 limit n
      × (o : ℕ) × PageStart offset o
      × (r.items ≡ map to_public (take n (drop o (answers (trim_space (trim_space words)) w))))
      × (r.has_more ≡ ltb (o + n) (length (answers (trim_space (trim_space words)) w)))
      × (any_where is_disabled (answers (trim_space (trim_space words)) w) ≡ false)
      × (length r.items ≤ 50)
unfolding found
search_ok words limit offset w h =
    let rows = found w.env (trim_space (trim_space words)) w.db in
    let n = bounded limit in
    let o = pos_part offset in
    let (items, more) = search_page words limit offset w h in
    let shown = items ∙ ap (map to_public) (cut n (drop o rows)) in
    let (_, most) = bounded_le limit in
    (
      n,
      bounded-PageSize limit,
      o,
      pos_part-PageStart offset,
      shown,
      more
          ∙ length-take-suc n (drop o rows)
          ∙ rw (length-drop o rows) (more_behind n o (length rows)),
      found_enabled w.env (trim_space (trim_space words)) w.db,
      rw (shown, length-map to_public (take n (drop o rows)))
          (omega (arith, length-take n (drop o rows))),
    )
