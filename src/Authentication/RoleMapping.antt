-- ===== src/Authentication/RoleMapping.antt =====
-- The role mapping of the claims: `_add_rbac_role_mapping` of
-- ansible_base/authentication/utils/claims.py on its nested dictionaries.
pub mod Laws
use django_ansible_base.Base.{
  String, Bool, true, false, not, ◌&&◌, Option, none, some, List, [], ◌∷◌, ◌==◌, string_eq,
  option_eq, if◌then◌else◌,
}
use django_ansible_base.Base.Dict.{Dict, get_or, set, has_key}

-- `{'roles': {…}, 'teams': {team: {'roles': {…}}}}`; a team holds its roles only
pub record OrganizationRoles : Type 0 where
  pub roles : Dict String Bool
  pub teams : Dict String (Dict String Bool)

-- `{'system': {'roles': {…}}, 'organizations': {…}}`; the code can write the key `None`
pub record RoleMapping : Type 0 where
  pub system : Dict String Bool
  pub organizations : Dict (Option String) OrganizationRoles

abbrev pub no_roles : OrganizationRoles
no_roles = record { roles = []; teams = [] }

abbrev pub empty_mapping : RoleMapping
empty_mapping = record { system = []; organizations = [] }

-- the truth value of an optional text
abbrev pub is_true : Option String → Bool
is_true none = false
is_true (some s) = not (s == "")

abbrev ensure_organization : Option String → RoleMapping → Dict (Option String) OrganizationRoles
ensure_organization org m =
    if has_key org m.organizations then m.organizations else set org no_roles m.organizations

abbrev add_team_role : Bool → String → String → OrganizationRoles → OrganizationRoles
add_team_role has_permission role team o = record o {
  teams = set team (set role has_permission (get_or team [] o.teams)) o.teams;
}

abbrev add_object_role : Bool → RoleMapping → String → Option String → Option String → RoleMapping
add_object_role has_permission m role org team =
    let orgs = ensure_organization org m in
    let o = get_or org no_roles orgs in
    if is_true org && not (is_true team)
    then record m {
      organizations = set org (record o { roles = set role has_permission o.roles }) orgs;
    }
    else if is_true org && is_true team
    then record m {
      organizations =
          set org (add_team_role has_permission role (elim team [ none ↦ "" | some t ↦ t ]) o) orgs;
    }
    else record m { organizations = orgs }

unfoldable pub add_rbac_role_mapping :
    Bool → RoleMapping → String → Option String → Option String → RoleMapping
add_rbac_role_mapping has_permission m role none none = record m {
  system = set role has_permission m.system;
}
add_rbac_role_mapping has_permission m role org team =
    add_object_role has_permission m role org team
