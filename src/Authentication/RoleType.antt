-- ===== src/Authentication/RoleType.antt =====
-- `check_role_type` of ansible_base/authentication/utils/authenticator_map.py and the three
-- functions that it calls, and `is_empty` of ansible_base/lib/utils/string.py. Messages are
-- constructors.
use django_ansible_base.Base.{
  String, Bool, true, false, not, ◌&&◌, ◌||◌, Option, none, some, [], ◌∷◌, ◌==◌, string_eq,
  if◌then◌else◌,
}
use django_ansible_base.Base.Dict.{Dict, set}
use django_ansible_base.Base.Text.{is_blank}

unfoldable pub is_empty : Option String → Bool
is_empty none = true
is_empty (some s) = is_blank s

-- What a role definition applies to: the whole system, or a model, which may be the organization
-- model or the team model.
pub data RoleScope : Type 0 where
  system : RoleScope
  object_scoped : Bool → Bool → RoleScope

-- The settings and the table of role definitions that the check reads.
pub record Roles : Type 0 where
  pub rbac_installed : Bool
  pub find : String → Option RoleScope

pub data RoleError : Type 0 where
  without_rbac missing_role global_is_scoped object_scoped_role : RoleError
  needs_organization_role needs_team_role needs_organization needs_team : RoleError

abbrev pub Errors : Type 0
Errors = Dict String RoleError

abbrev add_if : Bool → String → RoleError → Errors → Errors
add_if test field error errors = if test then set field error errors else errors

-- `errors.update(more)`
abbrev update : Errors → Errors → Errors
update errors [] = errors
update errors ((field, error) ∷ more) = update (set field error errors) more

global_role_scope_errors : Option String → Option String → Errors
global_role_scope_errors org team =
    add_if (not (is_empty team)) "team" global_is_scoped
      (add_if (not (is_empty org)) "organization" global_is_scoped [])

object_scoped_role_errors : String → Bool → Bool → Errors
object_scoped_role_errors map_type is_org_role is_team_role =
    if map_type == "role" && not is_org_role && not is_team_role
    then ("role", object_scoped_role) ∷ []
    else []

role_map_type_errors : String → Bool → Bool → Option String → Option String → Errors
role_map_type_errors map_type is_org_role is_team_role org team =
    let e₁ =
      add_if (map_type == "organization" && not is_org_role) "role" needs_organization_role [] in
    let e₂ = add_if (map_type == "team" && not is_team_role) "role" needs_team_role e₁ in
    let e₃ =
      add_if ((is_org_role || is_team_role) && is_empty org) "organization" needs_organization e₂ in
    add_if (is_team_role && is_empty team) "team" needs_team e₃

abbrev find_role : Roles → Option String → Option RoleScope
find_role roles none = none
find_role roles (some role) = roles.find role

abbrev found_role_errors : String → Option String → Option String → Option RoleScope → Errors
found_role_errors map_type org team none = ("role", missing_role) ∷ []
found_role_errors map_type org team (some system) =
    if map_type == "role"
    then global_role_scope_errors org team
    else update (role_map_type_errors map_type false false org team)
        (object_scoped_role_errors map_type false false)
found_role_errors map_type org team (some (object_scoped is_org_role is_team_role)) =
    update (role_map_type_errors map_type is_org_role is_team_role org team)
      (object_scoped_role_errors map_type is_org_role is_team_role)

unfoldable pub check_role_type :
    Roles → String → Option String → Option String → Option String → Errors
unfolding global_role_scope_errors object_scoped_role_errors role_map_type_errors
check_role_type roles map_type role org team =
    if not roles.rbac_installed
    then ("role", without_rbac) ∷ []
    else found_role_errors map_type org team (find_role roles role)
