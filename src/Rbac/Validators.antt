-- ===== src/Rbac/Validators.antt =====
-- The rules on role definitions of ansible_base/rbac/validators.py. A refusal is a constructor in
-- place of the message of the `ValidationError`; a set of texts is a list.
pub mod Laws
pub mod Roles
use django_ansible_base.Base.{
  ℕ, String, Bool, true, false, not, ◌&&◌, ◌||◌, Option, none, some, List, [], ◌∷◌, ◌++◌, ◌==◌,
  nat_eq, string_eq, contains, any, all, if◌then◌else◌, filter_by, map,
}
use django_ansible_base.Base.Dict.{Dict, get_or, set}
use django_ansible_base.Base.Text.{starts_with, has_infix, after_dot}
use django_ansible_base.Rbac.Graph.{Graph}
use django_ansible_base.Rbac.Descendants.{get_descendent_models_from_db}

pub record Settings : Type 0 where
  pub allow_custom_roles : Bool
  pub allow_custom_team_roles : Bool
  pub allow_singleton_roles_api : Bool
  pub allow_singleton_user_roles : Bool
  pub allow_singleton_team_roles : Bool
  pub roles_require_view : Bool
  pub delete_require_change : Bool
  pub allow_shared_resource_custom_roles : Bool

-- `resource_prefix`: what `get_resource_prefix` says of the model
pub record ContentType : Type 0 where
  pub id : ℕ
  pub model : String
  pub resource_prefix : String
  pub codenames : List String

pub record Permission : Type 0 where
  pub codename : String
  pub content_type : ContentType

-- What the registry and the database hold: the content types and the children of each, by id.
pub record Registry : Type 0 where
  pub types : List ContentType
  pub find : ℕ → ContentType
  pub children : Graph
  pub is_registered : ℕ → Bool
  pub team_ct_id : ℕ
  pub team_permission : String

pub data Refusal : Type 0 where
  custom_roles_disabled system_roles_disabled team_roles_disabled : Refusal
  team_permissions_disabled global_team_permission untracked_model : Refusal
  invalid_codenames missing_view missing_change shared_resource : Refusal

-- the codenames that a role may list, by the id of their content type
abbrev pub Allowed : Type 0
Allowed = Dict ℕ (List String)

-- the refusal of the first test that fails; `none` is a pass
abbrev pub and_then : Option Refusal → Option Refusal → Option Refusal
and_then none next = next
and_then (some refusal) next = some refusal

abbrev pub refuse_if : Bool → Refusal → Option Refusal
refuse_if test refusal = if test then some refusal else none

abbrev pub system_roles_enabled : Settings → Bool
system_roles_enabled s =
    s.allow_singleton_roles_api && (s.allow_singleton_user_roles || s.allow_singleton_team_roles)

-- `add_` after the name of an application, if there is one
abbrev pub is_add_perm : String → Bool
is_add_perm codename = elim (after_dot codename) [
  | none ↦ starts_with codename "add_"
  | some rest ↦ elim (after_dot rest) [
    | none ↦ starts_with rest "add_"
    | some _ ↦ starts_with codename "add_"
  ]
]

abbrev pub append_all : ℕ → List String → Allowed → Allowed
append_all k [] d = d
append_all k (c ∷ cs) d = append_all k cs (set k (get_or k [] d ++ (c ∷ [])) d)

abbrev pub system_codenames : ContentType → List String
system_codenames ct =
    filter_by (λ c. not (ct.model == "team" && not (starts_with c "view"))) ct.codenames

abbrev system_types : List ContentType → Allowed → Allowed
system_types [] d = d
system_types (ct ∷ rest) d = system_types rest (append_all ct.id (system_codenames ct) d)

permissions_allowed_for_system_role : Registry → Allowed
permissions_allowed_for_system_role r = system_types r.types []

abbrev child_types : Registry → List ℕ → Allowed → Allowed
child_types r [] d = d
child_types r (id ∷ rest) d = child_types r rest (append_all id (r.find id).codenames d)

abbrev own_codenames : ContentType → List String
own_codenames ct = filter_by (λ c. not (is_add_perm c)) ct.codenames

-- `none` is the refusal of a model that is not tracked
unfoldable pub permissions_allowed_for_role : Registry → Option ContentType → Option Allowed
unfolding permissions_allowed_for_system_role
permissions_allowed_for_role r none = some (permissions_allowed_for_system_role r)
permissions_allowed_for_role r (some ct) =
    if r.is_registered ct.id
    then (elim (get_descendent_models_from_db r.children ct.id) [
      | none ↦ none
      | some ids ↦ some (child_types r ids (append_all ct.id (own_codenames ct) []))
    ])
    else none

abbrev pub combine_values : Allowed → List String
combine_values [] = []
combine_values ((k, cs) ∷ rest) = cs ++ combine_values rest

abbrev pub is_none : Option ContentType → Bool
is_none none = true
is_none (some ct) = false

abbrev about_teams : Registry → Option ContentType → List Permission → Option Refusal
about_teams r none permissions = none
about_teams r (some ct) permissions =
    and_then (refuse_if (ct.id == r.team_ct_id) team_roles_disabled) (
      refuse_if (any (λ p. p.content_type.id == r.team_ct_id) permissions)
        team_permissions_disabled)

unfoldable pub validate_role_definition_enabled :
    Settings → Registry → List Permission → Option ContentType → Option Refusal
validate_role_definition_enabled s r permissions ct =
    and_then (refuse_if (not s.allow_custom_roles) custom_roles_disabled) (
      and_then (refuse_if (is_none ct && not (system_roles_enabled s)) system_roles_disabled)
        (if s.allow_custom_team_roles then none else about_teams r ct permissions))

-- the codenames of a role for one model, without those to add
abbrev pub local_codenames : List String → List String → List String
local_codenames codename_set valid =
    filter_by (λ c. not (is_add_perm c)) (filter_by (λ c. contains c codename_set) valid)

abbrev pub mentions_action : String → List String → Bool
mentions_action action codenames = any (λ c. has_infix c action) codenames

abbrev pub is_nonempty : List String → Bool
is_nonempty [] = false
is_nonempty (c ∷ cs) = true

unfoldable pub check_view_permission_criteria : List String → Allowed → Option Refusal
check_view_permission_criteria codename_set [] = none
check_view_permission_criteria codename_set ((k, valid) ∷ rest) =
    let own = local_codenames codename_set valid in
    and_then
      (if mentions_action "view" valid
        then refuse_if (is_nonempty own && not (mentions_action "view" own)) missing_view
        else none)
      (check_view_permission_criteria codename_set rest)

unfoldable pub check_has_change_with_delete : List String → Allowed → Option Refusal
check_has_change_with_delete codename_set [] = none
check_has_change_with_delete codename_set ((k, valid) ∷ rest) =
    let own = local_codenames codename_set valid in
    and_then
      (if mentions_action "delete" valid && mentions_action "change" valid
        then refuse_if (mentions_action "delete" own && not (mentions_action "change" own))
            missing_change
        else none)
      (check_has_change_with_delete codename_set rest)

-- the last loop: what is for a shared model may only be viewed, and not by a role for the system
unfoldable pub check_shared : Option ContentType → List Permission → Option Refusal
check_shared ct [] = none
check_shared ct (p ∷ rest) =
    and_then
      (if not (is_none ct) && starts_with p.codename "view"
        then none
        else refuse_if (p.content_type.resource_prefix == "shared") shared_resource)
      (check_shared ct rest)

-- the checks that follow once the allowed codenames are known
unfoldable pub check_codenames :
    Settings → Option ContentType → List String → Option Allowed → Option Refusal
unfolding check_view_permission_criteria check_has_change_with_delete
check_codenames s ct codename_set none = some untracked_model
check_codenames s ct codename_set (some allowed) =
    and_then
      (refuse_if (not (all (λ c. contains c (combine_values allowed)) codename_set))
        invalid_codenames)
      (and_then
        (if s.roles_require_view then check_view_permission_criteria codename_set allowed else none)
        (if s.delete_require_change && not (is_none ct)
          then check_has_change_with_delete codename_set allowed
          else none))

unfoldable pub validate_permissions_for_model :
    Settings → Registry → List Permission → Option ContentType → Bool → Option Refusal
unfolding validate_role_definition_enabled permissions_allowed_for_role check_codenames check_shared
validate_permissions_for_model s r permissions ct managed =
    let codename_set = map (λ p. p.codename) permissions in
    and_then (if managed then none else validate_role_definition_enabled s r permissions ct) (
      and_then
        (refuse_if (is_none ct && contains r.team_permission codename_set) global_team_permission)
        (and_then (check_codenames s ct codename_set (permissions_allowed_for_role r ct)) (
          if not managed && not s.allow_shared_resource_custom_roles
          then check_shared ct permissions
          else none)))
