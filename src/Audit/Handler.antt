-- ===== src/Audit/Handler.antt =====
-- backend/internal/audit/handler.go.
use online_colab_document.Base.{
  ℕ, suc, ℤ, pos, String, List, map, Option, none, some, Bool, not, ◌||◌, ltb, ◌==◌, is_negative,
  le_zero, pos_part, if◌then◌else◌, length, take,
}
use online_colab_document.Model.User.{User}
use online_colab_document.Model.Audit.{Log, PublicLog, ListFilter, to_public}
use online_colab_document.World.{Error}
use online_colab_document.Local.Password.{atoi}
use online_colab_document.Http.Response.{Handler, respond, refuse, serve, with_user}
use online_colab_document.Audit.Service

-- The values of the request's query, empty where there is none.
pub record Query : Type 0 where
  pub actor_user_id : String
  pub action : String
  pub target_type : String
  pub target_id : String
  pub ip_addr : String
  pub earliest : String
  pub latest : String
  pub limit : String
  pub offset : String

pub record LogPage : Type 0 where
  pub items : List PublicLog
  pub has_more : Bool

abbrev given : Option ℕ → Option (Option ℕ)
given none = none
given (some t) = some (some t)

-- `parse_time` is `time.Parse` of an RFC 3339 text, none for an error. The outer `none` is an error,
-- the inner one no time.
unfoldable pub parse_optional_time : (String → Option ℕ) → String → Option (Option ℕ)
parse_optional_time parse_time value = if value == "" then some none else given (parse_time value)

abbrev not_negative : Option ℤ → Option ℤ
not_negative none = none
not_negative (some n) = if is_negative n then none else some n

unfoldable pub parse_optional_int : String → Option ℤ
parse_optional_int value = if value == "" then some (pos 0) else not_negative (atoi value)

abbrev parsed {ℓ} : {A : Type ℓ} → Option A → (A → Option ListFilter) → Option ListFilter
parsed none k = none
parsed (some a) k = k a

unfoldable pub parse_list_filter : (String → Option ℕ) → Query → Option ListFilter
parse_list_filter parse_time q = parsed (parse_optional_time parse_time q.earliest) λ earliest.
    parsed (parse_optional_time parse_time q.latest) λ latest.
      parsed (parse_optional_int q.limit) λ limit. parsed (parse_optional_int q.offset) λ offset.
        some (record {
          actor_user_id = if q.actor_user_id == "" then none else some q.actor_user_id;
          action = q.action;
          target_type = q.target_type;
          target_id = q.target_id;
          ip_addr = q.ip_addr;
          earliest = earliest;
          latest = latest;
          limit = limit;
          offset = offset;
        })

-- A limit that is not between 1 and 100 is 50.
abbrev pub requested_limit : ℤ → ℕ
requested_limit limit = if le_zero limit || ltb 100 (pos_part limit) then 50 else pos_part limit

-- The rows that are shown, of one more than that.
abbrev pub page_of : ℕ → List Log → LogPage
page_of n logs =
    let has_more = ltb n (length logs) in
    record { items = map to_public (if has_more then take n logs else logs); has_more = has_more }

abbrev status_of : Error → ℕ × String
status_of e = (500, "internal server error")

abbrev pub list_filtered : Option ListFilter → Handler LogPage
list_filtered none = refuse 400 "invalid audit log filter"
list_filtered (some f) =
    let n = requested_limit f.limit in
    serve status_of (Service.list (record f { limit = pos (suc n) }))
      λ logs. respond 200 (page_of n logs)

unfoldable pub list : (String → Option ℕ) → Option User → Query → Handler LogPage
unfolding parse_list_filter
list parse_time current q = with_user current λ u.
    if not u.is_admin
    then refuse 403 "forbidden"
    else list_filtered (parse_list_filter parse_time q)
