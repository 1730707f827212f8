-- ===== src/Audit/Repository.antt =====
-- backend/internal/audit/repository.go. The table's `metadata` is what `json.Marshal` was given.
use online_colab_document.Base.{
  ℕ, ℤ, String, List, [], ◌∷◌, ◌++◌, map, Option, none, some, Bool, true, ◌&&◌, ◌||◌, leb, ltb,
  ◌==◌, is_text, if◌then◌else◌, le_zero, pos_part, any_where, find_where, select_where, order_by,
  take, drop,
}
use online_colab_document.Model.User.{User}
use online_colab_document.Model.Audit.{Log, ListFilter}
use online_colab_document.World.{internal, ok, err, M, query, exec}

abbrev pub has_id : String → Log → Bool
has_id id l = l.id == id

unfoldable pub create : Log → M (Unit {0})
create log = exec λ db.
    if any_where (has_id log.id) db.logs
    then err internal
    else ok (record db { logs = db.logs ++ log ∷ [] })

-- A limit that is not between 1 and 200 is 50.
abbrev pub limit_of : ℤ → ℕ
limit_of limit = if le_zero limit || ltb 200 (pos_part limit) then 50 else pos_part limit

abbrev is_actor : Option String → Log → Bool
is_actor none l = true
is_actor (some id) l = id == "" || is_text l.actor_user_id id

abbrev not_before : Option ℕ → Log → Bool
not_before none l = true
not_before (some t) l = leb t l.created_at

abbrev not_behind : Option ℕ → Log → Bool
not_behind none l = true
not_behind (some t) l = leb l.created_at t

-- The conditions of the query that the filter adds.
unfoldable pub passes : ListFilter → Log → Bool
passes f l =
    is_actor f.actor_user_id l
    && ((f.action == "" || l.action == f.action)
        && ((f.target_type == "" || l.target_type == f.target_type)
            && ((f.target_id == "" || l.target_id == f.target_id)
                && ((f.ip_addr == "" || is_text l.ip_addr f.ip_addr)
                    && (not_before f.earliest l && not_behind f.latest l)))))

abbrev actor : List User → Option String → Option User
actor users none = none
actor users (some id) = find_where (λ u. u.id == id) users

abbrev named : Option User → Log → Log
named none l = record l { actor_display_name = none; actor_email = none }
named (some u) l = record l { actor_display_name = some u.display_name; actor_email = some u.email }

-- `LEFT JOIN users u ON u.id = l.actor_user_id`.
abbrev pub joined : List User → Log → Log
joined users l = named (actor users l.actor_user_id) l

abbrev pub newest_first : Log → Log → Bool
newest_first a b = ltb b.created_at a.created_at

unfoldable pub list : ListFilter → M (List Log)
unfolding passes
list f = query λ db. ok (
    take (limit_of f.limit) (
      drop (pos_part f.offset)
        (map (joined db.users) (order_by newest_first (select_where (passes f) db.logs)))))
