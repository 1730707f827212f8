-- ===== src/Local/Admin.antt =====
-- An administrator's changes to accounts.
use online_colab_document.Base.{
  ℕ, String, Option, some, none, Bool, true, false, not, ◌&&◌, ◌||◌, ◌==◌, ◌≡◌, ◌≢◌, refl, ap,
  is_text, arith, ==_iff, find_where, update_where, inl, inr, ◌⊎◌, Bool-cases, Option-cases,
  find_where-true, find_where-update_where, changed,
}
use online_colab_document.Model.User.{User}
use online_colab_document.World.{Error, err, World, ok, called}
use online_colab_document.World.Laws.{Result-cases}
use online_colab_document.Local.Repository.{
  has_id, find_by_id, find_by_spelled_id, coalesce, email_taken,
}
use online_colab_document.Local.Repository
use online_colab_document.Local.Service.{
  AdminUpdateUserInput, admin_update_user, is_false, is_true, checked_name, checked_email,
}

abbrev pub rewritten : Option String → Option String → Option Bool → Option Bool → ℕ → User → User
rewritten name email is_admin disabled t u = record u {
  display_name = coalesce name u.display_name;
  email = coalesce email u.email;
  is_admin = coalesce is_admin u.is_admin;
  disabled = coalesce disabled u.disabled;
  updated_at = t;
}

update_users :
    (id : String) (name email : Option String) (is_admin disabled : Option Bool) (w : World)
    {u : User} {w' : World}
    → Repository.admin_update_user id name email is_admin disabled w ≡ (ok u, w')
    → (t : ℕ) × (w'.db.users
        ≡ update_where (has_id id) (rewritten name email is_admin disabled t) w.db.users)
unfolding Repository.admin_update_user find_by_id
update_users id name email is_admin disabled w h = (w.env.time w.calls, ground arith)

-- Whether the account is an administrator's that may log in.
abbrev pub is_active_admin : Option User → Bool
is_active_admin none = false
is_active_admin (some u) = u.is_admin && not u.disabled

abbrev pub account : World → String → Option User
account w id = find_where (has_id id) w.db.users

checked_name-db : (o : Option String) (w : World) → (checked_name o w).1 ≡ w
checked_name-db none w = refl
checked_name-db (some x) w = ground arith

checked_email-db : (o : Option String) (w : World) → (checked_email o w).1 ≡ w
checked_email-db none w = refl
checked_email-db (some x) w = ground arith

module _ (input : AdminUpdateUserInput) (w : World) {u : User} {w' : World}
    (h : admin_update_user input w ≡ (ok u, w')) where
  admin_guard :
      (input.target_user_id == input.actor.id
        && (is_false input.is_admin || is_true input.disabled))
      ≡ false
  unfolding admin_update_user
  admin_guard = ground arith

  -- The id of the account that the database takes the request's id for.
  admin_spelled : (id : String) × (w.env.uuid_text input.target_user_id ≡ some id)
  unfolding admin_update_user find_by_spelled_id
  admin_spelled = elim (Option-cases (w.env.uuid_text input.target_user_id)) [
    | inl e ↦ absurd (ground arith)
    | inr found ↦ found
  ]

  module _ (spelled : String) (read : w.env.uuid_text input.target_user_id ≡ some spelled) where
    admin_target : (target : User) × (account w spelled ≡ some target)
    unfolding admin_update_user find_by_spelled_id
    admin_target = elim (Option-cases (account w spelled)) [
      | inl e ↦ absurd (ground arith)
      | inr found ↦ found
    ]

    module _ (target : User) (e : account w spelled ≡ some target) where
      admin_named : (x : Error) → (checked_name input.display_name (called w)).0 ≢ err x
      unfolding admin_update_user find_by_spelled_id
      admin_named x f = ground arith

      module _ (name : Option String)
          (f : (checked_name input.display_name (called w)).0 ≡ ok name) where
        admin_addressed : (x : Error) → (checked_email input.email (called w)).0 ≢ err x
        unfolding admin_update_user find_by_spelled_id
        admin_addressed x g = ground (arith, checked_name-db input.display_name (called w))

        admin_writes :
            (email : Option String)
            → (checked_email input.email (called w)).0 ≡ ok email
            → Repository.admin_update_user target.id name email input.is_admin input.disabled
                (called w)
              ≡ (ok u, w')
        unfolding admin_update_user find_by_spelled_id
        admin_writes email g = ground (
          arith,
          checked_name-db input.display_name (called w),
          checked_email-db input.email (called w),
        )

        admin_email :
            (email : Option String) × (Repository.admin_update_user target.id name email
                input.is_admin input.disabled
                (called w)
              ≡ (ok u, w'))
        admin_email = elim (Result-cases (checked_email input.email (called w)).0) [
          | inr (x, g) ↦ absurd (admin_addressed x g)
          | inl (email, g) ↦ (email, admin_writes email g)
        ]

      admin_update :
          (name : Option String) × (email : Option String) × (Repository.admin_update_user target.id
              name email input.is_admin input.disabled
              (called w)
            ≡ (ok u, w'))
      admin_update = elim (Result-cases (checked_name input.display_name (called w)).0) [
        | inr (x, f) ↦ absurd (admin_named x f)
        | inl (name, f) ↦ let (email, wrote) = admin_email name f in (name, email, wrote)
      ]

-- A row stays active if it is another's or the guard has looked at its own id.
row-stays :
    (target written actor : String) (name email : Option String) (is_admin disabled : Option Bool)
    (t : ℕ) (v : User)
    → (written == actor && (is_false is_admin || is_true disabled)) ≡ false
    → (target == actor && not (written == actor)) ≡ false
    → v.id ≡ actor
    → is_active_admin (some v) ≡ true
    → is_active_admin (changed (has_id target) (rewritten name email is_admin disabled t) (some v))
      ≡ true
row-stays target written actor name email is_admin disabled t v guard known same active =
    ground (arith, ==_iff v.id target, ==_iff target actor)

module _ (input : AdminUpdateUserInput) (w : World) {u : User} {w' : World}
    (active : is_active_admin (account w input.actor.id) ≡ true)
    (h : admin_update_user input w ≡ (ok u, w')) where
  -- The request names the caller's account, in a spelling that is not the caller's id.
  abbrev misspelled : Bool
  misspelled =
      is_text (w.env.uuid_text input.target_user_id) input.actor.id
      && not (input.target_user_id == input.actor.id)

  stays-known : misspelled ≡ false → is_active_admin (account w' input.actor.id) ≡ true
  stays-known known =
      let actor = input.actor.id in
      let (spelled, read) = admin_spelled input w h in
      let (target, found) = admin_target input w h spelled read in
      let (name, email, updated) = admin_update input w h spelled read target found in
      let (t, rows) =
        update_users target.id name email input.is_admin input.disabled (called w) updated in
      let same : target.id ≡ spelled =
        (==_iff target.id spelled).0 (find_where-true (has_id spelled) w.db.users found) in
      let other : (spelled == actor && not (input.target_user_id == actor)) ≡ false =
        rw read at known in
      elim (Option-cases (account w actor)) [
        | inl e ↦ absurd (ground arith)
        | inr (v, e) ↦
            rw
              (
                rows,
                find_where-update_where (has_id actor) (has_id target.id)
                    (rewritten name email input.is_admin input.disabled t) w.db.users (λ x. refl),
                e,
                same,
              )
              (row-stays spelled input.target_user_id actor name email input.is_admin input.disabled
                t v (admin_guard input w h) other
                ((==_iff v.id actor).0 (find_where-true (has_id actor) w.db.users e))
                (rw e at active))
      ]

is_text-some : (o : Option String) (s : String) → is_text o s ≡ true → o ≡ some s
is_text-some none s h = absurd (ground arith)
is_text-some (some x) s h = ap some ((==_iff x s).0 h)

-- No administrator locks himself out but by another spelling of his own id: the account of the caller,
-- if it is an administrator's and not disabled, is so after every update that succeeds, whichever
-- account and fields that changes, or the request's id is a text that the database takes for the
-- caller's id although it is not that text.
pub admin_update_user-stays :
    (input : AdminUpdateUserInput) (w : World) {u : User} {w' : World}
    → is_active_admin (account w input.actor.id) ≡ true
    → admin_update_user input w ≡ (ok u, w')
    → (is_active_admin (account w' input.actor.id) ≡ true)
      ⊎ ((w.env.uuid_text input.target_user_id ≡ some input.actor.id)
          × (input.target_user_id ≢ input.actor.id))
admin_update_user-stays input w active h = elim (Bool-cases (misspelled input w active h)) [
  | inl other ↦ inr (
    is_text-some (w.env.uuid_text input.target_user_id) input.actor.id (ground arith),
    ground (arith, ==_iff input.target_user_id input.actor.id),
  )
  | inr known ↦ inl (stays-known input w active h known)
]
