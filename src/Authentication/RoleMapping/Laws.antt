-- ===== src/Authentication/RoleMapping/Laws.antt =====
-- The role mapping seen as one table: a permission for each place and role.
use django_ansible_base.Base.{
  String, ◌≡◌, refl, ◌≢◌, Bool, true, false, ◌&&◌, Option, none, some, ◌==◌, string_eq, option_eq,
  if◌then◌else◌, arith, eq_iff, [], ne→beq,
}
use django_ansible_base.Base.Dict.{Dict, get, get_or, set, get-set}
use django_ansible_base.Authentication.RoleMapping.{
  OrganizationRoles, RoleMapping, no_roles, add_rbac_role_mapping, ensure_organization,
}

-- Where a role is given: in the whole system, in an organization, or in a team of one.
pub data Place : Type 0 where
  everywhere : Place
  in_organization : String → Place
  in_team : String → String → Place

abbrev pub organization_of : Place → Option String
organization_of everywhere = none
organization_of (in_organization o) = some o
organization_of (in_team o t) = some o

abbrev pub team_of : Place → Option String
team_of (in_team o t) = some t
team_of _ = none

-- no empty names
abbrev pub IsNamed : Place → Type 0
IsNamed everywhere = Unit
IsNamed (in_organization o) = o ≢ ""
IsNamed (in_team o t) = (o ≢ "") × (t ≢ "")

abbrev pub same_place : Place → Place → Bool
same_place everywhere everywhere = true
same_place (in_organization o) (in_organization p) = o == p
same_place (in_team o t) (in_team p u) = o == p && t == u
same_place _ _ = false

abbrev organization_role : String → Option OrganizationRoles → Option Bool
organization_role role none = none
organization_role role (some o) = get role o.roles

abbrev team_roles : String → Option OrganizationRoles → Option (Dict String Bool)
team_roles team none = none
team_roles team (some o) = get team o.teams

abbrev listed_role : String → Option (Dict String Bool) → Option Bool
listed_role role none = none
listed_role role (some d) = get role d

-- the permission that a mapping has for a role at a place
abbrev pub role_at : RoleMapping → Place → String → Option Bool
role_at m everywhere role = get role m.system
role_at m (in_organization o) role = organization_role role (get (some o) m.organizations)
role_at m (in_team o t) role = listed_role role (team_roles t (get (some o) m.organizations))

get-ensure_organization :
    (o k : Option String) (m : RoleMapping)
    → get k (ensure_organization o m)
      ≡ (if o == k then some (get_or o no_roles m.organizations) else get k m.organizations)
get-ensure_organization o k m =
    ground (arith, (option_eq {A = String}).eqb_iff o k, get-set o k no_roles m.organizations)

module _ (b : Bool) (m : RoleMapping) (role o p : String) (named : o ≢ "") where
  -- the organization's roles before
  abbrev before : OrganizationRoles
  before = get_or (some o) no_roles m.organizations

  get-add_organization_role :
      get (some p) (add_rbac_role_mapping b m role (some o) none).organizations ≡ (
        if o == p
        then some (record before { roles = set role b before.roles })
        else get (some p) m.organizations)
  unfolding add_rbac_role_mapping
  get-add_organization_role = rw (ne→beq o "" named) (
      ground (
        arith,
        get-ensure_organization (some o) (some p) m,
        get-ensure_organization (some o) (some o) m,
        eq_iff o o,
        get-set (some o) (some p) (record before { roles = set role b before.roles })
            (ensure_organization (some o) m),
      ))

  get-add_team_role :
      (t : String)
      → t ≢ ""
      → get (some p) (add_rbac_role_mapping b m role (some o) (some t)).organizations ≡ (
          if o == p
          then some
              (record before { teams = set t (set role b (get_or t [] before.teams)) before.teams })
          else get (some p) m.organizations)
  unfolding add_rbac_role_mapping
  get-add_team_role t named_team =
      rw (ne→beq o "" named, ne→beq t "" named_team)
        (ground (
          arith,
          get-ensure_organization (some o) (some p) m,
          get-ensure_organization (some o) (some o) m,
          eq_iff o o,
          get-set (some o) (some p)
              (record before { teams = set t (set role b (get_or t [] before.teams)) before.teams })
              (ensure_organization (some o) m),
        ))

-- Giving or refusing a role at a place sets the permission there, and leaves every other role
-- and every other place as they were.
pub role_at-add :
    (b : Bool) (m : RoleMapping) (role other : String) (p q : Place)
    → IsNamed p
    → role_at (add_rbac_role_mapping b m role (organization_of p) (team_of p)) q other
      ≡ (if same_place p q && role == other then some b else role_at m q other)
unfolding add_rbac_role_mapping
role_at-add b m role other everywhere everywhere h = ground (arith, get-set role other b m.system)
role_at-add b m role other everywhere (in_organization o) h = refl
role_at-add b m role other everywhere (in_team o t) h = refl
role_at-add b m role other (in_organization o) everywhere h = ground (arith, eq_iff o "")
role_at-add b m role other (in_organization o) (in_organization p) h = ground (
  arith,
  get-add_organization_role b m role o p h,
  get-set role other b (before b m role o p h).roles,
  eq_iff o p,
)
role_at-add b m role other (in_organization o) (in_team p t) h =
    ground (arith, get-add_organization_role b m role o p h, eq_iff o p)
role_at-add b m role other (in_team o t) everywhere h = ground (arith, eq_iff o "", eq_iff t "")
role_at-add b m role other (in_team o t) (in_organization p) h =
    ground (arith, get-add_team_role b m role o p h.0 t h.1, eq_iff o p)
role_at-add b m role other (in_team o t) (in_team p u) h =
    let prior = before b m role o p h.0 in
    ground (
      arith,
      get-add_team_role b m role o p h.0 t h.1,
      get-set t u (set role b (get_or t [] prior.teams)) prior.teams,
      get-set role other b (get_or t [] prior.teams),
      eq_iff o p,
      eq_iff t u,
    )
