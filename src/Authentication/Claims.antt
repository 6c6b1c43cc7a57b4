-- ===== src/Authentication/Claims.antt =====
-- `create_claims` of ansible_base/authentication/utils/claims.py: the maps of an authenticator,
-- in their order, folded into the claims of a user. The maps are an argument, since the query
-- that loads them has no more to it than its order.
pub mod Verdicts
pub mod Decisions
pub mod Membership
use django_ansible_base.Base.{
  ℕ, String, Bool, true, false, not, ◌&&◌, ◌||◌, Option, none, some, List, [], ◌∷◌, ◌++◌, Outcome,
  ok, err, ◌>>=◌, ◌==◌, string_eq, subset, contains, if◌then◌else◌,
}
use django_ansible_base.Base.Dict.{Dict, get, get_or, set, keys}
use django_ansible_base.Authentication.Value.{Value, Python}
use django_ansible_base.Authentication.Triggers.Join.{TriggerResult, allow, deny, skip}
use django_ansible_base.Authentication.Triggers.Groups.{process_groups}
use django_ansible_base.Authentication.Triggers.Attributes.{process_user_attributes}
use django_ansible_base.Authentication.RoleType.{Roles, Errors, is_empty, check_role_type}
use django_ansible_base.Authentication.Expansion.{Templates, expand_syntax}
use django_ansible_base.Authentication.RoleMapping.{
  RoleMapping, empty_mapping, add_rbac_role_mapping,
}

-- The fields of `AuthenticatorMap` that are read.
pub record AuthenticatorMap : Type 0 where
  pub pk : ℕ
  pub enabled : Bool
  pub revoke : Bool
  pub map_type : String
  pub triggers : Dict String Value
  pub organization : Option String
  pub team : Option String
  pub role : Option String

pub data Verdict : Type 0 where
  skipped invalid : Verdict
  applied : Bool → Verdict

-- `{mpk: …, 'enabled': …}`
pub record Response : Type 0 where
  pub pk : ℕ
  pub verdict : Verdict
  pub enabled : Bool

pub record Claims : Type 0 where
  pub access_allowed : Bool
  pub is_superuser : Option Bool
  pub team_membership : Dict String (Dict String Bool)
  pub organization_membership : Dict String Bool
  pub rbac_roles : RoleMapping
  pub last_login_map_results : List Response

abbrev pub initial : Claims
initial = record {
  access_allowed = true;
  is_superuser = none;
  team_membership = [];
  organization_membership = [];
  rbac_roles = empty_mapping;
  last_login_map_results = [];
}

-- the keys of TRIGGER_DEFINITION
abbrev allowed_keys : List String
allowed_keys = "always" ∷ "never" ∷ "groups" ∷ "attributes" ∷ []

-- A trigger that does not fire refuses where the map revokes, and leaves the map out elsewhere.
abbrev pub verdict_of : Bool → TriggerResult → Verdict
verdict_of revoke allow = applied true
verdict_of revoke deny = applied false
verdict_of revoke skip = if revoke then applied false else skipped

abbrev text : Option String → String
text none = ""
text (some s) = s

abbrev has_errors : Errors → Bool
has_errors [] = false
has_errors (e ∷ errors) = true

abbrev set_team :
    String → String → Bool → Dict String (Dict String Bool) → Dict String (Dict String Bool)
set_team org team b teams = set org (set team b (get_or org [] teams)) teams

pub data Target : Type 0 where
  nothing : Target
  team_role : String → String → String → Target
  organization_role : String → String → Target
  system_role : String → Target

-- The bodies of those branches.
abbrev apply_target : Bool → Target → Claims → Claims
apply_target b nothing c = c
apply_target b (team_role org team role) c = record c {
  team_membership = set_team org team b c.team_membership;
  rbac_roles = add_rbac_role_mapping b c.rbac_roles role (some org) (some team);
}
apply_target b (organization_role org role) c = record c {
  organization_membership = set org b c.organization_membership;
  rbac_roles = add_rbac_role_mapping b c.rbac_roles role (some org) none;
}
apply_target b (system_role role) c = record c {
  rbac_roles = add_rbac_role_mapping b c.rbac_roles role none none;
}

module _ (py : Python) (re : Templates) (roles : Roles) where
  abbrev run_trigger :
      Dict String Value → List String → String → Value → TriggerResult → Outcome TriggerResult
  run_trigger attrs groups trigger_type trigger result =
      if trigger_type == "groups"
      then process_groups py trigger groups
      else if trigger_type == "attributes"
      then process_user_attributes py trigger attrs
      else if trigger_type == "always"
      then ok allow
      else if trigger_type == "never"
      then ok deny
      else ok result

  -- the last trigger of a map decides
  run_triggers :
      Dict String Value → List String → Dict String Value → TriggerResult → Outcome TriggerResult
  run_triggers attrs groups [] result = ok result
  run_triggers attrs groups ((trigger_type, trigger) ∷ rest) result =
      run_trigger attrs groups trigger_type trigger result >>= run_triggers attrs groups rest

  -- What the tests before `rule_responses.append` find for a map.
  pub decide_map : Dict String Value → List String → AuthenticatorMap → Outcome Verdict
  unfolding run_triggers
  decide_map attrs groups m =
      if not m.enabled
      then ok skipped
      else if not (subset (keys m.triggers) allowed_keys)
      then ok invalid
      else run_triggers attrs groups m.triggers skip >>= λ result. ok (verdict_of m.revoke result)

  -- The chain of `if … elif …` in the loop over the expansions of a map: what one of them is for.
  abbrev target_of : String → Dict String String → Target
  target_of map_type expanded =
      let org = get "organization" expanded in
      let team = get "team" expanded in
      let role = get "role" expanded in
      if has_errors (check_role_type roles map_type role org team)
      then nothing
      else if contains map_type ("team" ∷ "role" ∷ [])
          && not (is_empty org)
          && not (is_empty team)
          && not (is_empty role)
      then team_role (text org) (text team) (text role)
      else if contains map_type ("organization" ∷ "role" ∷ [])
          && not (is_empty org)
          && not (is_empty role)
      then organization_role (text org) (text role)
      else if map_type == "role" && not (is_empty role) && is_empty org && is_empty team
      then system_role (text role)
      else nothing

  apply_expansion : String → Bool → Dict String String → Claims → Claims
  apply_expansion map_type b expanded = apply_target b (target_of map_type expanded)

  apply_expansions : String → Bool → List (Dict String String) → Claims → Claims
  unfolding apply_expansion
  apply_expansions map_type b [] c = c
  apply_expansions map_type b (expanded ∷ rest) c =
      apply_expansions map_type b rest (apply_expansion map_type b expanded c)

  -- The branch of the maps that can have expansions, and the last one, which only logs.
  abbrev expand_map : Dict String Value → AuthenticatorMap → Bool → Claims → Outcome Claims
  expand_map attrs m b c =
      if contains m.map_type ("team" ∷ "organization" ∷ "role" ∷ [])
      then (expand_syntax re attrs m.organization m.role m.team >>= λ expansions.
          ok (apply_expansions m.map_type b expansions c))
      else ok c

  -- What a map that applies does, after its response is recorded.
  apply_map : Dict String Value → AuthenticatorMap → Bool → Claims → Outcome Claims
  unfolding apply_expansions
  apply_map attrs m b c =
      if m.map_type == "allow"
      then ok (record c { access_allowed = b })
      else if m.map_type == "is_superuser"
      then ok (record c { is_superuser = some b })
      else expand_map attrs m b c

  abbrev respond : AuthenticatorMap → Verdict → Claims → Claims
  respond m v c = record c {
    last_login_map_results =
        c.last_login_map_results ++ record { pk = m.pk; verdict = v; enabled = m.enabled } ∷ [];
  }

  abbrev act : Dict String Value → AuthenticatorMap → Verdict → Claims → Outcome Claims
  act attrs m (applied b) c = apply_map attrs m b c
  act attrs m _ c = ok c

  process_map : Dict String Value → List String → AuthenticatorMap → Claims → Outcome Claims
  unfolding decide_map apply_map
  process_map attrs groups m c = decide_map attrs groups m >>= λ v. act attrs m v (respond m v c)

  process_maps : Dict String Value → List String → List AuthenticatorMap → Claims → Outcome Claims
  unfolding process_map
  process_maps attrs groups [] c = ok c
  process_maps attrs groups (m ∷ maps) c =
      process_map attrs groups m c >>= process_maps attrs groups maps

  unfoldable pub create_claims :
      List AuthenticatorMap → Dict String Value → List String → Outcome Claims
  unfolding process_maps
  create_claims maps attrs groups = process_maps attrs groups maps initial
