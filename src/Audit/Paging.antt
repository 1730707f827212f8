-- ===== src/Audit/Paging.antt =====
-- What the route of the log answers.
use online_colab_document.Base.{
  ℕ, suc, ◌+◌, ◌-◌, ◌≤◌, ◌||◌, nat_eq, ℤ, pos, negsuc, length-drop, PageSize, PageStart,
  pos_part-PageStart, String, List, map, Option, none, some, Bool, true, not, ltb, pos_part,
  if◌then◌else◌, ◌≡◌, inl, inr, refl, ◌∙◌, ap, arith, Bool-cases, length, take, drop, order_by,
  select_where, false, any_where, any_where-map, any_where-order_by, any_not-select_where,
  length-take-suc, take-take-suc, take_short,
}
use online_colab_document.Model.User.{User}
use online_colab_document.Model.Audit.{Log, ListFilter, to_public}
use online_colab_document.World.{World, Db, ok}
use online_colab_document.World.Laws.{Result-cases, returned}
use online_colab_document.Http.Response.{done}
use online_colab_document.Audit.Repository.{passes, limit_of, joined, newest_first}
use online_colab_document.Audit.Service
use online_colab_document.Audit.Entries.{list_rows, joined-passes}
use online_colab_document.Audit.Handler.{
  Query, LogPage, parse_list_filter, requested_limit, page_of, list_filtered, list,
}

-- The rows that a filter finds, with the names of those who acted.
abbrev pub rows_of : ListFilter → Db → List Log
rows_of f db = map (joined db.users) (order_by newest_first (select_where (passes f) db.logs))

abbrev rows_behind : ListFilter → Db → List Log
rows_behind f db = drop (pos_part f.offset) (rows_of f db)

abbrev one_more : ListFilter → ListFilter
one_more f = record f { limit = pos (suc (requested_limit f.limit)) }

requested_limit_le : (limit : ℤ) → (1 ≤ requested_limit limit) × (requested_limit limit ≤ 100)
requested_limit_le limit = (ground arith, ground arith)

requested_limit-PageSize : (limit : ℤ) → PageSize 100 50 limit (requested_limit limit)
requested_limit-PageSize (negsuc n) = inr (refl, inl refl)
requested_limit-PageSize (pos n) = elim (Bool-cases (nat_eq n 0 || ltb 100 n)) [
  | inl out ↦ inr (ground arith, ground arith)
  | inr within ↦ inl (ground arith, ground arith, ground arith)
]

one_more-limit_of : (f : ListFilter) → limit_of (one_more f).limit ≡ suc (requested_limit f.limit)
one_more-limit_of f = ground (arith, requested_limit_le f.limit)

cut :
    (n : ℕ) (xs : List Log)
    → (if ltb n (length (take (suc n) xs)) then take n (take (suc n) xs) else take (suc n) xs)
      ≡ take n xs
cut n xs =
    ground (arith, length-take-suc n xs, take-take-suc n xs, take_short n xs, take_short (suc n) xs)

-- The handler asks the database for one row more than it shows.
page_of-take :
    (n : ℕ) (xs : List Log)
    → page_of n (take (suc n) xs)
      ≡ record { items = map to_public (take n xs); has_more = ltb n (length xs) }
page_of-take n xs = rw (cut n xs, length-take-suc n xs) refl

-- A page of n rows from row o on.
abbrev pub Shows : ListFilter → World → ℕ → ℕ → LogPage → Type 0
Shows f w n o p =
    (p.items ≡ map to_public (take n (drop o (rows_of f w.db))))
    × (p.has_more ≡ ltb (o + n) (length (rows_of f w.db)))

abbrev ShownBy : ListFilter → World → LogPage → Type 0
ShownBy f w = Shows f w (requested_limit f.limit) (pos_part f.offset)

more_behind : (n o total : ℕ) → ltb n (total - o) ≡ ltb (o + n) total
more_behind n o total = ground arith

page_of-Shows :
    (f : ListFilter) (w : World) (logs : List Log) {w' : World}
    → Service.list (one_more f) w ≡ (ok logs, w')
    → ShownBy f w (page_of (requested_limit f.limit) logs) × (w'.db ≡ w.db)
unfolding passes
page_of-Shows f w logs h =
    let n = requested_limit f.limit in
    let xs = rows_behind f w.db in
    let (rows, db) = list_rows (one_more f) w h in
    let taken : logs ≡ take (suc n) xs = rows ∙ rw (one_more-limit_of f) refl in
    let shown = ap (page_of n) taken ∙ page_of-take n xs in
    (
      (
        ap (λ p. p.items) shown,
        ap (λ p. p.has_more) shown
            ∙ rw (length-drop (pos_part f.offset) (rows_of f w.db))
                (more_behind n (pos_part f.offset) (length (rows_of f w.db))),
      ),
      db,
    )

-- No row that is found fails the filter.
rows_of-passes :
    (f : ListFilter) (db : Db) → any_where (λ l. not (passes f l)) (rows_of f db) ≡ false
rows_of-passes f db =
    let fails : Log → Bool = λ l. not (passes f l) in
    let selected = select_where (passes f) db.logs in
    any_where-map fails (joined db.users) (order_by newest_first selected)
      (joined-passes f db.users)
    ∙ any_where-order_by fails newest_first selected
    ∙ any_not-select_where (passes f) db.logs

list_filtered_done :
    (filter : Option ListFilter) (w : World) {status : ℕ} {p : LogPage} {w' : World}
    → list_filtered filter w ≡ (done status p, w')
    → (status ≡ 200) × (f : ListFilter) × (filter ≡ some f) × ShownBy f w p × (w'.db ≡ w.db)
list_filtered_done none w h = absurd (ground arith)
list_filtered_done (some f) w {status} {p} {w'} h =
    elim (Result-cases (Service.list (one_more f) w).0) [
      | inl (logs, e) ↦
          let got = returned (Service.list (one_more f)) w e in
          let (shows, db) = page_of-Shows f w logs got in
          let page : p ≡ page_of (requested_limit f.limit) logs = ground arith in
          let end : w' ≡ (Service.list (one_more f) w).1 = ground arith in
          (ground arith, f, refl, rw page shows, rw end db)
      | inr (x, e) ↦ absurd (ground arith)
    ]

-- A page of the log goes to an administrator alone, whose filter could be read. It holds rows that
-- pass the filter, newest first, from the filter's offset on: as many as its limit says, if that is
-- from 1 to 100, and otherwise 50. It says that there are more exactly if another such row stands
-- behind it; the tables stay as they are.
pub list_done :
    (parse_time : String → Option ℕ) (current : Option User) (q : Query) (w : World) {status : ℕ}
    {p : LogPage} {w' : World}
    → list parse_time current q w ≡ (done status p, w')
    → (status ≡ 200)
      × (u : User) × (current ≡ some u)
      × (u.is_admin ≡ true)
      × (f : ListFilter) × (parse_list_filter parse_time q ≡ some f)
      × (n : ℕ) × PageSize 100 50 f.limit n
      × (o : ℕ) × PageStart f.offset o
      × Shows f w n o p
      × (any_where (λ l. not (passes f l)) (rows_of f w.db) ≡ false)
      × (w'.db ≡ w.db)
unfolding list
list_done parse_time none q w h = absurd (ground arith)
list_done parse_time (some u) q w {status} {p} {w'} h = elim (Bool-cases u.is_admin) [
  | inl e ↦
      let filter = parse_list_filter parse_time q in
      let filtered : list_filtered filter w ≡ (done status p, w') = ground arith in
      let (s, f, read, shows, db) = list_filtered_done filter w filtered in
      (
        s,
        u,
        refl,
        e,
        f,
        read,
        requested_limit f.limit,
        requested_limit-PageSize f.limit,
        pos_part f.offset,
        pos_part-PageStart f.offset,
        shows,
        rows_of-passes f w.db,
        db,
      )
  | inr e ↦ absurd (ground arith)
]
