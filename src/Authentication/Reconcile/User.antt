-- ===== src/Authentication/Reconcile/User.antt =====
-- `ReconcileUser` of ansible_base/authentication/utils/claims.py: what the claims state of each place
-- is recorded in the cache, and the cache is carried out.
use django_ansible_base.Base.{
  ℕ, String, Bool, Option, none, some, List, [], ◌∷◌, ◌++◌, string_eq, nat_eq, option_eq,
  if◌then◌else◌,
}
use django_ansible_base.Base.Dict.{Dict}
use django_ansible_base.Authentication.RoleMapping.{RoleMapping, OrganizationRoles}
use django_ansible_base.Authentication.Reconcile.{
  Subject, organization, team, noop, existing, add, remove, Entry, RoleDefinition, Assignment,
  Cache, init, Types, add_or_remove, cache_existing, rd_by_name,
}

-- One change that the reconciliation asks for: of a permission on all or on one object.
pub data Action : Type 0 where
  give take : RoleDefinition → Option Subject → Action

-- `_apply_permission`, by the status alone
abbrev pub apply_permission : Bool → RoleDefinition → Entry → List Action
apply_permission remove_users rd entry = elim entry.status [
  | add ↦ give rd entry.object ∷ []
  | remove ↦ take rd entry.object ∷ []
  | existing ↦ if remove_users then take rd entry.object ∷ [] else []
  | noop ↦ []
]

abbrev apply_ids : Bool → RoleDefinition → Dict (Option ℕ) Entry → List Action
apply_ids remove_users rd [] = []
apply_ids remove_users rd ((oid, entry) ∷ rest) =
    apply_permission remove_users rd entry ++ apply_ids remove_users rd rest

abbrev apply_types : Bool → RoleDefinition → Dict (Option ℕ) (Dict (Option ℕ) Entry) → List Action
apply_types remove_users rd [] = []
apply_types remove_users rd ((ct, by_id) ∷ rest) =
    apply_ids remove_users rd by_id ++ apply_types remove_users rd rest

abbrev apply_role :
    Bool → Option RoleDefinition → Dict (Option ℕ) (Dict (Option ℕ) Entry) → List Action
apply_role remove_users none by_type = []
apply_role remove_users (some rd) by_type = apply_types remove_users rd by_type

apply_permissions :
    Bool
    → (String → Option RoleDefinition)
    → Cache
    → Dict String (Option RoleDefinition)
    → List Action
unfolding rd_by_name
apply_permissions remove_users find [] rds = []
apply_permissions remove_users find ((name, by_type) ∷ rest) rds =
    let (rd, rds') = rd_by_name find name rds in
    apply_role remove_users rd by_type ++ apply_permissions remove_users find rest rds'

-- The organizations by name, and the teams by organization and name.
pub record Directory : Type 0 where
  pub find_organization : Option String → Option ℕ
  pub find_team : ℕ → String → Option ℕ

-- A permission that the claims state, for a role on an object or on all.
pub record Mention : Type 0 where
  pub role : String
  pub has_permission : Bool
  pub object : Option Subject

abbrev pub role_mentions : Option Subject → Dict String Bool → List Mention
role_mentions object [] = []
role_mentions object ((role, b) ∷ rest) =
    record { role = role; has_permission = b; object = object } ∷ role_mentions object rest

abbrev pub team_mentions : Option ℕ → Dict String Bool → List Mention
team_mentions none roles = []
team_mentions (some id) roles = role_mentions (some (team id)) roles

-- `_compute_team_permissions`: a team that does not exist is skipped
unfoldable pub compute_team_permissions :
    Directory → ℕ → Dict String (Dict String Bool) → List Mention
compute_team_permissions dir org [] = []
compute_team_permissions dir org ((name, roles) ∷ rest) =
    team_mentions (dir.find_team org name) roles ++ compute_team_permissions dir org rest

abbrev pub organization_mentions : Option ℕ → OrganizationRoles → List Mention
organization_mentions none details = []
organization_mentions (some id) details = role_mentions (some (organization id)) details.roles

-- `_compute_organization_permissions`: the calls of `add_or_remove`
unfoldable pub compute_organization_permissions :
    Directory → Dict (Option String) OrganizationRoles → List Mention
compute_organization_permissions dir [] = []
compute_organization_permissions dir ((name, details) ∷ rest) =
    organization_mentions (dir.find_organization name) details
    ++ compute_organization_permissions dir rest

abbrev pub org_team_mentions : Directory → Option ℕ → OrganizationRoles → List Mention
org_team_mentions dir none details = []
org_team_mentions dir (some id) details = compute_team_permissions dir id details.teams

-- the loop over `org_info`
unfoldable pub compute_teams : Directory → Dict (Option String) OrganizationRoles → List Mention
unfolding compute_team_permissions
compute_teams dir [] = []
compute_teams dir ((name, details) ∷ rest) =
    org_team_mentions dir (dir.find_organization name) details ++ compute_teams dir rest

-- The calls of `add_or_remove` that `manage_permissions` makes, in their order.
unfoldable pub mentions : Directory → RoleMapping → List Mention
unfolding compute_organization_permissions compute_teams
mentions dir m =
    role_mentions none m.system
    ++ (compute_organization_permissions dir m.organizations ++ compute_teams dir m.organizations)

module _ (types : Types) where
  unfoldable pub record_mentions : List Mention → Cache → Cache
  unfolding add_or_remove
  record_mentions [] cache = cache
  record_mentions (x ∷ rest) cache =
      record_mentions rest (add_or_remove types x.role x.has_permission x.object cache)

  unfoldable pub manage_permissions :
      List String
      → Directory
      → (String → Option RoleDefinition)
      → Bool
      → List Assignment
      → RoleMapping
      → List Action
  unfolding cache_existing mentions record_mentions apply_permissions
  manage_permissions prefixes dir find remove_users assignments claims =
      let s = cache_existing prefixes assignments init in
      apply_permissions remove_users find (record_mentions (mentions dir claims) s.cache)
        s.role_definitions
