-- ===== src/Tests/Assignments.antt =====
-- The rules on assignments and names at concrete inputs.
use django_ansible_base.Base.{◌≡◌, refl, true, false, some, [], ◌∷◌, ok, err, ◌↔◌, validation_error}
use django_ansible_base.Rbac.Assignments.{
  Model, TeamSettings, validate_codename_for_model, validate_team_assignment_enabled,
  validate_assignment, check_locally_managed,
}
use django_ansible_base.Rbac.Assignments.Laws.{
  IsName, MayAssign, validate_codename_for_model-IsName, validate_team_assignment_enabled-MayAssign,
}

abbrev organization : Model
organization = record {
  model_name = "organization";
  codenames = "view_organization" ∷ "change_organization" ∷ [];
  child_codenames = ("add_inventory" ∷ "view_inventory" ∷ []) ∷ [];
}

action_run : validate_codename_for_model "change" organization ≡ ok "change_organization"
unfolding validate_codename_for_model
action_run = refl

child_run : validate_codename_for_model "app.add_inventory" organization ≡ ok "add_inventory"
unfolding validate_codename_for_model
child_run = refl

validate_codename_for_model-IsName_example : IsName organization "add_inventory"
validate_codename_for_model-IsName_example =
    validate_codename_for_model-IsName "app.add_inventory" organization "add_inventory" child_run

abbrev settings : TeamSettings
settings = record {
  allow_team_parents = true;
  allow_team_org_perms = true;
  allow_team_org_member = false;
  allow_team_org_admin = false;
}

admin_run :
    validate_team_assignment_enabled settings "team"
      (some "organization")
      (some "organization")
      true
      false
    ≡ err validation_error
unfolding validate_team_assignment_enabled
admin_run = refl

validate_team_assignment_enabled-MayAssign_example :
    (validate_team_assignment_enabled settings "team"
        (some "organization")
        (some "team")
        false
        false
      ≡ ok tt)
    ↔ MayAssign settings "team" "organization" "team" false false
validate_team_assignment_enabled-MayAssign_example =
    validate_team_assignment_enabled-MayAssign settings "team" "organization" "team" false false

type_run : validate_assignment (some 3) "user" 4 ≡ err validation_error
unfolding validate_assignment
type_run = refl

managed_run :
    check_locally_managed true false ("Team Member" ∷ []) "Team Member" ≡ err validation_error
unfolding check_locally_managed
managed_run = refl
