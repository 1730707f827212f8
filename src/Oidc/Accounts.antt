-- ===== src/Oidc/Accounts.antt =====
-- Which account a login through the provider is a login of.
use online_colab_document.Base.{
  ℕ, String, List, [], ◌∷◌, ◌++◌, none, some, Bool, true, false, ◌==◌, ◌≡◌, ◌⊎◌, inl, inr, refl,
  arith, ==_iff, ==_refl, find_where, any_where, update_where, find_where-append,
  find_where-update_where, Option-cases, Bool-cases,
}
use online_colab_document.Model.User.{User}
use online_colab_document.World.{World, ok, called}
use online_colab_document.Uuid.{new_uuid-ReadsOnly}
use online_colab_document.Local.Repository.{
  has_id, has_email, has_subject, create, find_by_email, find_by_id, find_by_oidc_subject,
  set_oidc_subject,
}
use online_colab_document.Oidc.Service.{
  Config, Profile, create_oidc_user, merge_by_email, upsert_oidc_user,
}

-- The primary key of `users`.
abbrev pub UniqueUsers : List User → Type 0
UniqueUsers [] = Unit
UniqueUsers (u ∷ us) = (any_where (has_id u.id) us ≡ false) × UniqueUsers us

any_id :
    (p : User → Bool) (id : String) (us : List User) {e : User}
    → find_where p us ≡ some e
    → any_where (has_id id) us ≡ false
    → (e.id == id) ≡ false
unfolding find_where any_where
any_id p id [] h k = cc
any_id p id (u ∷ us) {e = e} h k = ground (arith, any_id p id us {e = e})

-- A row that a search finds is the one that its id finds.
pub find-own_id :
    (p : User → Bool) (us : List User) {e : User}
    → UniqueUsers us
    → find_where p us ≡ some e
    → find_where (has_id e.id) us ≡ some e
unfolding find_where
find-own_id p [] h k = cc
find-own_id p (u ∷ us) {e = e} (h, hs) k = elim (Bool-cases (p u)) [
  | inl hit ↦ ground (arith, ==_refl u.id)
  | inr miss ↦
      let found : find_where p us ≡ some e = ground arith in
      let other = any_id p u.id us found h in
      ground (arith, find-own_id p us hs found, ==_iff u.id e.id, ==_iff e.id u.id)
]

module _ (cfg : Config) (p : Profile) (w : World) {u : User} {w' : World}
    (h : upsert_oidc_user cfg p w ≡ (ok u, w')) where
  upsert-known :
      (e : User)
      → find_where (has_subject p.subject) w.db.users ≡ some e
      → (u ≡ e) × (e.disabled ≡ false) × (w'.db ≡ w.db)
  unfolding upsert_oidc_user find_by_oidc_subject
  upsert-known e found = (ground arith, ground arith, ground arith)

  module _ (new : find_where (has_subject p.subject) w.db.users ≡ none) where
    upsert-merged :
        (e : User)
        → find_where (has_email p.email) w.db.users ≡ some e
        → (cfg.auto_merge_by_email ≡ true)
          × (e.disabled ≡ false)
          × (set_oidc_subject e.id p.subject (called (called w)) ≡ (ok u, w'))
    unfolding upsert_oidc_user merge_by_email find_by_oidc_subject find_by_email
    upsert-merged e found = (ground arith, ground arith, ground arith)

    upsert-created :
        find_where (has_email p.email) w.db.users ≡ none
        → create_oidc_user p (called (called w)) ≡ (ok u, w')
    unfolding upsert_oidc_user find_by_oidc_subject find_by_email
    upsert-created none_found = ground arith

create_oidc_user_ok :
    (p : Profile) (w : World) {u : User} {w' : World}
    → create_oidc_user p w ≡ (ok u, w')
    → (w'.db ≡ record w.db { users = w.db.users ++ u ∷ [] })
      × (u.email ≡ p.email)
      × (u.oidc_subject ≡ some p.subject)
      × (u.disabled ≡ false)
unfolding create_oidc_user create
create_oidc_user_ok p w h =
    (ground (arith, new_uuid-ReadsOnly w), ground arith, ground arith, ground arith)

set_oidc_subject_ok :
    (id subject : String) (w : World) {u : User} {w' : World}
    → set_oidc_subject id subject w ≡ (ok u, w')
    → (w'.db ≡ record w.db {
      users =
          update_where
            (has_id id)
            (λ x. record x { oidc_subject = some subject; updated_at = w.env.time w.calls })
            w.db.users;
    })
      × (find_where (has_id id) w'.db.users ≡ some u)
unfolding set_oidc_subject find_by_id
set_oidc_subject_ok id subject w h = (ground arith, ground arith)

abbrev linked : String → ℕ → User → User
linked subject t u = record u { oidc_subject = some subject; updated_at = t }

find-linked :
    (id subject : String) (t : ℕ) (us : List User)
    → find_where (has_subject subject) us ≡ none
    → find_where (has_subject subject) (update_where (has_id id) (linked subject t) us)
      ≡ find_where (has_id id) (update_where (has_id id) (linked subject t) us)
unfolding find_where update_where
find-linked id subject t [] h = refl
find-linked id subject t (u ∷ us) h = ground (arith, find-linked id subject t us, ==_refl subject)

-- What became of the account: it was there under the subject; it was there under the address, and
-- merging is configured; or it is new, and no account had the address.
abbrev pub Outcome : Config → Profile → World → User → World → Type 0
Outcome cfg p w u w' =
    ((find_where (has_subject p.subject) w.db.users ≡ some u) × (w'.db ≡ w.db))
    ⊎ (((e : User) × (find_where (has_email p.email) w.db.users ≡ some e)
          × (cfg.auto_merge_by_email ≡ true)
          × (t : ℕ) × (u ≡ linked p.subject t e)
          × (w'.db
              ≡ record w.db { users = update_where (has_id e.id) (linked p.subject t) w.db.users }))
        ⊎ ((find_where (has_email p.email) w.db.users ≡ none)
            × (u.email ≡ p.email)
            × (w'.db ≡ record w.db { users = w.db.users ++ u ∷ [] })))

module _ (cfg : Config) (p : Profile) (w : World) (unique : UniqueUsers w.db.users) {u : User}
    {w' : World} (h : upsert_oidc_user cfg p w ≡ (ok u, w')) where
  abbrev Found : Type 0
  Found =
      (find_where (has_subject p.subject) w'.db.users ≡ some u)
      × (u.disabled ≡ false)
      × Outcome cfg p w u w'

  known : (e : User) → find_where (has_subject p.subject) w.db.users ≡ some e → Found
  known e found =
      let (same, enabled, db) = upsert-known cfg p w h e found in
      rw (db, same) (found, enabled, inl (found, refl))

  merged :
      find_where (has_subject p.subject) w.db.users ≡ none
      → (e : User) → find_where (has_email p.email) w.db.users ≡ some e
      → Found
  merged new e found =
      let (auto, enabled, set) = upsert-merged cfg p w h new e found in
      let (db, own) = set_oidc_subject_ok e.id p.subject (called (called w)) set in
      let t = (called (called w)).env.time (called (called w)).calls in
      let key = find-own_id (has_email p.email) w.db.users unique found in
      let row =
        find_where-update_where (has_id e.id) (has_id e.id) (linked p.subject t) w.db.users
          (λ x. refl) in
      let own' : find_where (has_id e.id)
            (update_where (has_id e.id) (linked p.subject t) w.db.users)
          ≡ some u =
        rw db at own in
      let same : u ≡ linked p.subject t e = ground (arith, ==_refl e.id) in
      (
        rw db (rw (← find-linked e.id p.subject t w.db.users new) at own'),
        rw same enabled,
        inr (inl (e, found, auto, t, same, db)),
      )

  fresh :
      find_where (has_subject p.subject) w.db.users ≡ none
      → find_where (has_email p.email) w.db.users ≡ none
      → Found
  unfolding find_where
  fresh new free =
      let (db, email, subject, enabled) =
        create_oidc_user_ok p (called (called w)) (upsert-created cfg p w h new free) in
      (
        rw (db, find_where-append (has_subject p.subject) w.db.users (u ∷ []), new)
            (ground (arith, ==_refl p.subject)),
        enabled,
        inr (inr (free, email, db)),
      )

-- A login through the provider ends at an account that is not disabled and that the subject finds
-- from then on, and changes no account but by these ways.
pub upsert_oidc_user_ok :
    (cfg : Config) (p : Profile) (w : World) {u : User} {w' : World}
    → UniqueUsers w.db.users
    → upsert_oidc_user cfg p w ≡ (ok u, w')
    → (find_where (has_subject p.subject) w'.db.users ≡ some u)
      × (u.disabled ≡ false)
      × Outcome cfg p w u w'
upsert_oidc_user_ok cfg p w unique h =
    elim (Option-cases (find_where (has_subject p.subject) w.db.users)) [
      | inr (e, found) ↦ known cfg p w unique h e found
      | inl new ↦ elim (Option-cases (find_where (has_email p.email) w.db.users)) [
        | inr (e, found) ↦ merged cfg p w unique h new e found
        | inl free ↦ fresh cfg p w unique h new free
      ]
    ]
