-- ===== src/Permission/Upsert.antt =====
-- What `INSERT … ON CONFLICT DO UPDATE` and `DELETE` do to the row that a user's role is read from.
use online_colab_document.Base.{
  String, List, [], ◌∷◌, ◌++◌, some, none, Bool, true, if◌then◌else◌, ◌≡◌, refl, arith, find_where,
  any_where, update_where, ==_iff, Option-cases, inl, inr, not, is_nil, ap, changed, or_else,
  find_where-true, find_where-append, find_where-update_where, any_where-find_where,
}
use mathlib.Core.Path.{fun_ext}
use online_colab_document.Model.Permission.{Permission, subject_type_user}
use online_colab_document.Permission.Repository.{
  is_for_user, is_for_subject, upsert, scan_permission,
}
use online_colab_document.Permission.Access.{granted}

abbrev pub same_subject : Permission → Permission → Bool
same_subject new = is_for_subject new.document_id new.subject_type new.subject_id

abbrev pub merged : Permission → Permission → Permission
merged new old = record old {
  permission = new.permission;
  created_by = new.created_by;
  created_at = new.created_at;
}

module _ (new x : Permission) (u d : String) where
  user_of_same : same_subject new x ≡ true → is_for_user d u x ≡ is_for_user d u new
  user_of_same h = ground (
    arith,
    ==_iff x.document_id new.document_id,
    ==_iff x.subject_type new.subject_type,
    ==_iff x.subject_id new.subject_id,
  )

  same_of_user : is_for_user d u new ≡ true → is_for_user d u x ≡ true → same_subject new x ≡ true
  same_of_user h k = ground (
    arith,
    ==_iff x.document_id new.document_id,
    ==_iff x.subject_type new.subject_type,
    ==_iff x.subject_id new.subject_id,
    ==_iff x.document_id d,
    ==_iff x.subject_type subject_type_user,
    ==_iff x.subject_id u,
    ==_iff new.document_id d,
    ==_iff new.subject_type subject_type_user,
    ==_iff new.subject_id u,
  )

  same_is_user : is_for_user d u new ≡ true → same_subject new x ≡ is_for_user d u x
  same_is_user h = ground (arith, same_of_user, user_of_same)

module _ (new : Permission) (u d : String) (rows : List Permission) where
  abbrev pub appended : Permission
  appended = scan_permission none none new

  granted-update :
      granted (find_where (is_for_user d u) (update_where (same_subject new) (merged new) rows))
      ≡ granted (changed (same_subject new) (merged new) (find_where (is_for_user d u) rows))
  granted-update =
      rw
        (find_where-update_where (is_for_user d u) (same_subject new) (merged new) rows (λ x. refl))

  granted-append :
      granted (find_where (is_for_user d u) (rows ++ appended ∷ []))
      ≡ granted (
          or_else
            (find_where (is_for_user d u) rows)
            (find_where (is_for_user d u) (appended ∷ [])))
  granted-append = rw (find_where-append (is_for_user d u) rows (appended ∷ []))

  -- The subject of the new row has a row already exactly if the table has one with its key.
  pub any_same :
      is_for_user d u new ≡ true
      → any_where (same_subject new) rows ≡ not (is_nil (find_where (is_for_user d u) rows))
  any_same h =
      rw (← any_where-find_where (is_for_user d u) rows)
        (ap (λ p. any_where p rows) (fun_ext (λ x. same_is_user new x u d h)))

  granted-upsert_found :
      (x : Permission)
      → find_where (is_for_user d u) rows ≡ some x
      → granted (find_where (is_for_user d u) (upsert new rows)) ≡ (
          if is_for_user d u new
          then granted (some new)
          else granted (find_where (is_for_user d u) rows))
  unfolding upsert find_where
  granted-upsert_found x e = ground (
    arith,
    granted-update,
    granted-append,
    any_same,
    find_where-true (is_for_user d u) rows e,
    same_of_user new x u d,
    user_of_same new x u d,
  )

  granted-upsert_missing :
      find_where (is_for_user d u) rows ≡ none
      → granted (find_where (is_for_user d u) (upsert new rows)) ≡ (
          if is_for_user d u new
          then granted (some new)
          else granted (find_where (is_for_user d u) rows))
  unfolding upsert find_where
  granted-upsert_missing e = ground (arith, granted-update, granted-append, any_same)

  -- After the statement the new row's subject has the new row's role, and everybody else the old one.
  pub granted-upsert : granted (find_where (is_for_user d u) (upsert new rows)) ≡ (
      if is_for_user d u new
      then granted (some new)
      else granted (find_where (is_for_user d u) rows))
  granted-upsert = elim (Option-cases (find_where (is_for_user d u) rows)) [
    | inl e ↦ granted-upsert_missing e
    | inr (x, e) ↦ granted-upsert_found x e
  ]
