-- ===== src/Rbac/Validators/Roles.antt =====
-- `validate_permissions_for_model` of ansible_base/rbac/validators.py against a description of the
-- roles that may be made.
use django_ansible_base.Base.{
  String, ◌≡◌, refl, sym, ap, subst, Bool, true, false, not, ◌&&◌, Option, none, some, List, [],
  ◌∷◌, ◌==◌, nat_eq, string_eq, contains, any, all, all-contains, all_of, if◌then◌else◌, map, arith,
  ◌↔◌,
}
use django_ansible_base.Base.Text.{starts_with}
use django_ansible_base.Rbac.Validators.{
  Settings, ContentType, Permission, Registry, Refusal, custom_roles_disabled,
  system_roles_disabled, team_roles_disabled, team_permissions_disabled, global_team_permission,
  invalid_codenames, shared_resource, Allowed, and_then, refuse_if, is_none, system_roles_enabled,
  about_teams, validate_role_definition_enabled, check_view_permission_criteria,
  check_has_change_with_delete, check_shared, check_codenames, validate_permissions_for_model,
  permissions_allowed_for_role, combine_values,
}
use django_ansible_base.Rbac.Validators.Laws.{
  EachModel, IsViewed, IsChanged, and_then-none, check_view_permission_criteria-IsViewed,
  check_has_change_with_delete-IsChanged,
}

refuse_if-none : (b : Bool) (x : Refusal) → (refuse_if b x ≡ none) ↔ (b ≡ false)
refuse_if-none true x = (λ e. absurd (cc), λ e. absurd (cc))
refuse_if-none false x = (λ e. refl, λ e. refl)

when_none :
    (b : Bool) (x : Option Refusal) → ((if b then x else none) ≡ none) ↔ (b ≡ true → x ≡ none)
when_none true x = (λ e q. e, λ h. h refl)
when_none false x = (λ e q. absurd (cc), λ h. refl)

unless_none :
    (b : Bool) (x : Option Refusal) → ((if b then none else x) ≡ none) ↔ (b ≡ false → x ≡ none)
unless_none true x = (λ e q. absurd (cc), λ h. refl)
unless_none false x = (λ e q. e, λ h. h refl)

-- The role is not about teams and lists no permission on teams.
abbrev pub IsWithoutTeams : Registry → List Permission → Option ContentType → Type 0
IsWithoutTeams r permissions none = Unit
IsWithoutTeams r permissions (some ct) =
    ((ct.id == r.team_ct_id) ≡ false)
    × (any (λ p. p.content_type.id == r.team_ct_id) permissions ≡ false)

-- The settings allow roles of this kind to be made.
abbrev pub IsEnabled : Settings → Registry → List Permission → Option ContentType → Type 0
IsEnabled s r permissions ct =
    (s.allow_custom_roles ≡ true)
    × (is_none ct ≡ true → system_roles_enabled s ≡ true)
    × (s.allow_custom_team_roles ≡ false → IsWithoutTeams r permissions ct)

about_teams-none :
    (r : Registry) (permissions : List Permission) (ct : Option ContentType)
    → (about_teams r ct permissions ≡ none) ↔ IsWithoutTeams r permissions ct
about_teams-none r permissions none = (λ e. tt, λ e. refl)
about_teams-none r permissions (some ct) =
    let split = and_then-none (refuse_if (ct.id == r.team_ct_id) team_roles_disabled) (
      refuse_if (any (λ p. p.content_type.id == r.team_ct_id) permissions)
        team_permissions_disabled) in
    let own = refuse_if-none (ct.id == r.team_ct_id) team_roles_disabled in
    let others =
      refuse_if-none (any (λ p. p.content_type.id == r.team_ct_id) permissions)
        team_permissions_disabled in
    (λ e. (own.0 (split.0 e).0, others.0 (split.0 e).1), λ (a, b). split.1 (own.1 a, others.1 b))

-- A role may be made by hand exactly when the settings allow roles of its kind.
pub validate_role_definition_enabled-IsEnabled :
    (s : Settings) (r : Registry) (permissions : List Permission) (ct : Option ContentType)
    → (validate_role_definition_enabled s r permissions ct ≡ none) ↔ IsEnabled s r permissions ct
unfolding validate_role_definition_enabled
validate_role_definition_enabled-IsEnabled s r permissions ct =
    let outer = and_then-none (refuse_if (not s.allow_custom_roles) custom_roles_disabled) _ in
    let inner =
      and_then-none (refuse_if (is_none ct && not (system_roles_enabled s)) system_roles_disabled)
        (if s.allow_custom_team_roles then none else about_teams r ct permissions) in
    let custom = refuse_if-none (not s.allow_custom_roles) custom_roles_disabled in
    let system =
      refuse_if-none (is_none ct && not (system_roles_enabled s)) system_roles_disabled in
    let team = unless_none s.allow_custom_team_roles (about_teams r ct permissions) in
    let teams = about_teams-none r permissions ct in
    (
      λ e.
          let (a, b) = outer.0 e in
          let (c, d) = inner.0 b in
          let a' = custom.0 a in
          let c' = system.0 c in (ground arith, λ n. ground arith, λ off. teams.0 (team.0 d off)),
      λ (a, b, c). outer.1 (
        custom.1 (ground arith),
        inner.1 (system.1 (ground arith), team.1 (λ off. teams.1 (c off))),
      ),
    )

-- A permission on a shared model is one to view, in a role for objects.
abbrev pub IsLocal : Option ContentType → List Permission → Type 0
IsLocal ct [] = Unit
IsLocal ct (p ∷ rest) =
    ((p.content_type.resource_prefix == "shared") ≡ true
      → (not (is_none ct) && starts_with p.codename "view") ≡ true)
    × IsLocal ct rest

shared-guard :
    (a b : Bool)
    → ((if a then none else refuse_if b shared_resource) ≡ none) ↔ (b ≡ true → a ≡ true)
shared-guard true b = (λ e q. refl, λ h. refl)
shared-guard false true = (λ e. absurd (cc), λ h. absurd (cc (h refl)))
shared-guard false false = (λ e q. absurd (cc), λ h. refl)

check_shared-IsLocal :
    (ct : Option ContentType) (permissions : List Permission)
    → (check_shared ct permissions ≡ none) ↔ IsLocal ct permissions
unfolding check_shared
check_shared-IsLocal ct [] = (λ e. tt, λ h. refl)
check_shared-IsLocal ct (p ∷ rest) =
    let split = and_then-none _ (check_shared ct rest) in
    let guard =
      shared-guard (not (is_none ct) && starts_with p.codename "view")
        (p.content_type.resource_prefix == "shared") in
    let later = check_shared-IsLocal ct rest in
    (λ e. (guard.0 (split.0 e).0, later.0 (split.0 e).1), λ (a, b). split.1 (guard.1 a, later.1 b))

-- The codenames are among those allowed, and complete where the settings ask for it.
abbrev pub IsComplete : Settings → Option ContentType → List String → Allowed → Type 0
IsComplete s ct codename_set allowed =
    ((c : String) → contains c codename_set ≡ true → contains c (combine_values allowed) ≡ true)
    × (s.roles_require_view ≡ true → EachModel (IsViewed codename_set) allowed)
    × ((s.delete_require_change && not (is_none ct)) ≡ true
        → EachModel (IsChanged codename_set) allowed)

some-IsComplete :
    (s : Settings) (ct : Option ContentType) (codename_set : List String) (allowed : Allowed)
    → (check_codenames s ct codename_set (some allowed) ≡ none)
      ↔ IsComplete s ct codename_set allowed
unfolding check_codenames
some-IsComplete s ct codename_set allowed =
    let known = (λ (c : String). contains c (combine_values allowed)) in
    let outer = and_then-none (refuse_if (not (all known codename_set)) invalid_codenames) _ in
    let viewed =
      when_none s.roles_require_view (check_view_permission_criteria codename_set allowed) in
    let changed =
      when_none (s.delete_require_change && not (is_none ct))
        (check_has_change_with_delete codename_set allowed) in
    let inner =
      and_then-none
        (if s.roles_require_view then check_view_permission_criteria codename_set allowed else none)
        (if s.delete_require_change && not (is_none ct)
          then check_has_change_with_delete codename_set allowed
          else none) in
    let valid = refuse_if-none (not (all known codename_set)) invalid_codenames in
    let view = check_view_permission_criteria-IsViewed codename_set allowed in
    let change = check_has_change_with_delete-IsChanged codename_set allowed in
    (
      λ e.
          let (a, b) = outer.0 e in
          let (c, d) = inner.0 b in
          let a' = valid.0 a in
          (
            all-contains known codename_set (ground arith),
            λ q. view.0 (viewed.0 c q),
            λ q. change.0 (changed.0 d q),
          ),
      λ (a, b, c).
          let a' = all_of known codename_set a in
          outer.1 (
            valid.1 (ground arith),
            inner.1 (viewed.1 (λ q. view.1 (b q)), changed.1 (λ q. change.1 (c q))),
          ),
    )

some_injective : {a b : Allowed} → some a ≡ some b → a ≡ b
some_injective {a} p = ap (λ m. elim m [ some x ↦ x | none ↦ a ]) p

check_codenames-IsComplete :
    (s : Settings) (ct : Option ContentType) (codename_set : List String) (found : Option Allowed)
    → (check_codenames s ct codename_set found ≡ none)
      ↔ ((allowed : Allowed) × (found ≡ some allowed) × IsComplete s ct codename_set allowed)
check_codenames-IsComplete s ct codename_set none =
    unfold check_codenames in (λ e. absurd (cc), λ (a, e, h). absurd (cc))
check_codenames-IsComplete s ct codename_set (some allowed) =
    let both = some-IsComplete s ct codename_set allowed in
    (
      λ e. (allowed, refl, both.0 e),
      λ (a, e, h). both.1 (subst (IsComplete s ct codename_set) (sym (some_injective e)) h),
    )

abbrev pub codenames_of : List Permission → List String
codenames_of permissions = map (λ p. p.codename) permissions

-- The description of a role that may be made; a managed one needs no leave of the settings.
abbrev pub IsValidRole : Settings → Registry → List Permission → Option ContentType → Bool → Type 0
IsValidRole s r permissions ct managed =
    (managed ≡ false → IsEnabled s r permissions ct)
    × ((is_none ct && contains r.team_permission (codenames_of permissions)) ≡ false)
    × ((allowed : Allowed) × (permissions_allowed_for_role r ct ≡ some allowed)
        × IsComplete s ct (codenames_of permissions) allowed)
    × ((not managed && not s.allow_shared_resource_custom_roles) ≡ true → IsLocal ct permissions)

-- A role passes the validation exactly when, unless it is managed, the settings allow its kind; it
-- is not a role for the system that makes members of teams; its model is tracked, its codenames
-- are among those allowed for the model and complete as the settings ask; and, unless it is managed
-- or the settings allow more, it only views what is shared, in a role for objects.
pub validate_permissions_for_model-IsValidRole :
    (s : Settings) (r : Registry) (permissions : List Permission) (ct : Option ContentType)
    (managed : Bool)
    → (validate_permissions_for_model s r permissions ct managed ≡ none)
      ↔ IsValidRole s r permissions ct managed
unfolding validate_permissions_for_model
validate_permissions_for_model-IsValidRole s r permissions ct managed =
    let names = codenames_of permissions in
    let found = permissions_allowed_for_role r ct in
    let local = not managed && not s.allow_shared_resource_custom_roles in
    let first = validate_role_definition_enabled s r permissions ct in
    let team = is_none ct && contains r.team_permission names in
    let shared = if local then check_shared ct permissions else none in
    let last = and_then-none (check_codenames s ct names found) shared in
    let middle =
      and_then-none (refuse_if team global_team_permission)
        (and_then (check_codenames s ct names found) shared) in
    let outer = and_then-none (if managed then none else first) _ in
    let enabled = unless_none managed first in
    let rule = validate_role_definition_enabled-IsEnabled s r permissions ct in
    let members = refuse_if-none team global_team_permission in
    let complete = check_codenames-IsComplete s ct names found in
    let locals = when_none local (check_shared ct permissions) in
    let owned = check_shared-IsLocal ct permissions in
    (
      λ e.
          let (a, b) = outer.0 e in
          let (c, d) = middle.0 b in
          let (f, g) = last.0 d in
          (λ q. rule.0 (enabled.0 a q), members.0 c, complete.0 f, λ q. owned.0 (locals.0 g q)),
      λ (a, b, c, d). outer.1 (
        enabled.1 (λ q. rule.1 (a q)),
        middle.1 (members.1 b, last.1 (complete.1 c, locals.1 (λ q. owned.1 (d q)))),
      ),
    )
