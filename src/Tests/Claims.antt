-- ===== src/Tests/Claims.antt =====
-- Claims at concrete inputs.
use django_ansible_base.Base.{
  String, ◌≡◌, ◌≢◌, refl, true, false, none, some, List, [], ◌∷◌, ok, string_eq, arith, eq_iff,
}
use django_ansible_base.Base.Dict.{Dict}
use django_ansible_base.Authentication.Value.{Value, Python, null, str}
use django_ansible_base.Authentication.RoleType.{Roles, object_scoped, is_empty, check_role_type}
use django_ansible_base.Authentication.Expansion.{Templates, expand_syntax}
use django_ansible_base.Authentication.RoleMapping.{add_rbac_role_mapping, empty_mapping}
use django_ansible_base.Authentication.RoleMapping.Laws.{in_team, role_at, role_at-add}
use django_ansible_base.Authentication.Claims.{
  AuthenticatorMap, applied, skipped, Claims, create_claims,
}
use django_ansible_base.Authentication.Claims.Decisions.{
  Answers, or_default, last_permission, create_claims-Answers,
}
use django_ansible_base.Authentication.Claims.Membership.{IsConsistent, create_claims-IsConsistent}

abbrev plain : Python
plain = record { casefold = λ s. s; re_match = λ p s. some true; repr = λ v. "" }

abbrev no_templates : Templates
no_templates = record { fill = λ t m g. some t; compiles = λ t. true }

-- RBAC is installed, and each role is a team role
abbrev team_roles : Roles
team_roles = record { rbac_installed = true; find = λ s. some (object_scoped false true) }

abbrev admin_map : AuthenticatorMap
admin_map = record {
  pk = 1;
  enabled = true;
  revoke = false;
  map_type = "is_superuser";
  triggers = ("always", null) ∷ [];
  organization = none;
  team = none;
  role = none;
}

abbrev off_map : AuthenticatorMap
off_map = record admin_map { pk = 2; enabled = false; map_type = "allow" }

abbrev team_map : AuthenticatorMap
team_map = record {
  pk = 3;
  enabled = true;
  revoke = true;
  map_type = "team";
  triggers = [];
  organization = some "Org {% for_attr_value(o) %}";
  team = some "T";
  role = some "Team Member";
}

abbrev maps : List AuthenticatorMap
maps = admin_map ∷ off_map ∷ team_map ∷ []

abbrev attributes : Dict String Value
attributes = ("o", str "A") ∷ []

abbrev expected : Claims
expected = record {
  access_allowed = true;
  is_superuser = some true;
  team_membership = ("Org A", ("T", false) ∷ []) ∷ [];
  organization_membership = [];
  rbac_roles = record {
    system = [];
    organizations =
        (some "Org A", record { roles = []; teams = ("T", ("Team Member", false) ∷ []) ∷ [] }) ∷ [];
  };
  last_login_map_results =
      record { pk = 1; verdict = applied true; enabled = true }
      ∷ record { pk = 2; verdict = skipped; enabled = false }
      ∷ record { pk = 3; verdict = applied false; enabled = true }
      ∷ [];
}

claims_run : create_claims plain no_templates team_roles maps attributes [] ≡ ok expected
unfolding create_claims expand_syntax check_role_type is_empty add_rbac_role_mapping
claims_run = refl

create_claims-Answers_example :
    Answers plain no_templates team_roles attributes [] maps expected.last_login_map_results
    × (true ≡ or_default true (last_permission "allow" maps expected.last_login_map_results))
    × (some true ≡ last_permission "is_superuser" maps expected.last_login_map_results)
create_claims-Answers_example =
    create_claims-Answers plain no_templates team_roles attributes [] maps expected claims_run

create_claims-IsConsistent_example : IsConsistent expected
create_claims-IsConsistent_example =
    create_claims-IsConsistent plain no_templates team_roles maps attributes [] expected claims_run

o-ne : ◌≢◌ {A = String} "O" ""
o-ne = ground (arith, eq_iff "O" "")

t-ne : ◌≢◌ {A = String} "T" ""
t-ne = ground (arith, eq_iff "T" "")

role_at-add_example :
    role_at
      (add_rbac_role_mapping true empty_mapping "Admin" (some "O") (some "T"))
      (in_team "O" "T")
      "Admin"
    ≡ some true
role_at-add_example =
    role_at-add true empty_mapping "Admin" "Admin" (in_team "O" "T") (in_team "O" "T") (o-ne, t-ne)
