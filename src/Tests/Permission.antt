-- ===== src/Tests/Permission.antt =====
-- Grants and revocations at the fixture.
use online_colab_document.Base.{
  true, false, ◌==◌, ◌≡◌, refl, find_where, any_where, update_where, delete_where,
}
use online_colab_document.World.{ok}
use online_colab_document.World.Laws.{returned}
use online_colab_document.Uuid.{new_uuid}
use online_colab_document.Permission.Repository.{document_owner_id, find_for_user, create}
use online_colab_document.Permission.Repository
use online_colab_document.Permission.Service.{
  GrantInput, grant, can_view, can_edit, can_manage, can_delete, can_share, role,
}
use online_colab_document.Permission.Service
use online_colab_document.Permission.Access.{access, role-access}
use online_colab_document.Permission.Grant.{grant-access}
use online_colab_document.Permission.Revoke.{delete-access}
use online_colab_document.Tests.Fixture.{start}

-- What the operations of the package compute with.
runs : Unit {0}
unfolding grant Service.delete Repository.delete create can_view can_edit can_manage can_delete
    can_share role document_owner_id find_for_user new_uuid find_where any_where update_where
    delete_where ◌==◌ access
runs = tt

abbrev to_editor : GrantInput
to_editor = record {
  actor_id = "alice";
  document_id = "notes";
  subject_type = "user";
  subject_id = "bob";
  permission = "editor";
}

abbrev by_bob : GrantInput
by_bob = record to_editor { actor_id = "bob" }

granted_role : access (grant to_editor start).1.db "bob" "notes" ≡ "editor"
unfolding runs
granted_role = refl

grant-access_example :
    (access start.db "alice" "notes" ≡ "owner")
    × (access (grant to_editor start).1.db "bob" "notes" ≡ "editor")
unfolding runs
grant-access_example =
    grant-access to_editor start "bob" "notes" (returned (grant to_editor) start refl)

delete-access_example :
    (access start.db "alice" "notes" ≡ "owner")
    × (access (Service.delete "alice" "notes" "p1" start).1.db "bob" "notes" ≡ "none")
unfolding runs
delete-access_example =
    delete-access "alice" "notes" "p1" start "bob" "notes" (refl, tt)
      (returned (Service.delete "alice" "notes" "p1") start refl)

role-access_example :
    ((role "bob" "notes" start).0 ≡ ok "viewer")
    × ((can_view "bob" "notes" start).0 ≡ ok true)
    × ((can_edit "bob" "notes" start).0 ≡ ok false)
    × ((can_manage "bob" "notes" start).0 ≡ ok false)
    × ((can_delete "bob" "notes" start).0 ≡ ok false)
    × ((can_share "bob" "notes" start).0 ≡ ok false)
unfolding runs
role-access_example = role-access "bob" "notes" start (λ n. refl)
