-- ===== src/Tests/Validators.antt =====
-- The rules on role definitions at concrete inputs.
use django_ansible_base.Base.{
  ℕ, ◌≡◌, refl, true, false, ◌↔◌, none, some, List, [], ◌∷◌, if◌then◌else◌, ◌==◌, nat_eq, contains,
}
use django_ansible_base.Rbac.Graph.{Graph}
use django_ansible_base.Rbac.Graph.Laws.{Above}
use django_ansible_base.Rbac.Descendants.{get_descendent_models_from_db}
use django_ansible_base.Rbac.Descendants.Laws.{get_descendent_models_from_db-Above}
use django_ansible_base.Rbac.Validators.{
  Settings, ContentType, Permission, Registry, Allowed, missing_view, missing_change,
  validate_permissions_for_model, validate_role_definition_enabled, permissions_allowed_for_role,
  check_codenames, check_view_permission_criteria, check_has_change_with_delete, check_shared,
}
use django_ansible_base.Rbac.Validators.Laws.{
  EachModel, IsViewed, IsChanged, check_view_permission_criteria-IsViewed,
  check_has_change_with_delete-IsChanged,
}
use django_ansible_base.Rbac.Validators.Roles.{
  IsValidRole, validate_permissions_for_model-IsValidRole,
}

abbrev settings : Settings
settings = record {
  allow_custom_roles = true;
  allow_custom_team_roles = false;
  allow_singleton_roles_api = true;
  allow_singleton_user_roles = true;
  allow_singleton_team_roles = false;
  roles_require_view = true;
  delete_require_change = true;
  allow_shared_resource_custom_roles = false;
}

abbrev inventory : ContentType
inventory = record {
  id = 1;
  model = "inventory";
  resource_prefix = "local";
  codenames = "view_inventory" ∷ "change_inventory" ∷ "delete_inventory" ∷ "add_inventory" ∷ [];
}

abbrev team : ContentType
team = record {
  id = 2;
  model = "team";
  resource_prefix = "shared";
  codenames = "view_team" ∷ "member_team" ∷ [];
}

abbrev organization : ContentType
organization = record {
  id = 3;
  model = "organization";
  resource_prefix = "shared";
  codenames = "view_organization" ∷ "change_organization" ∷ [];
}

-- an organization has inventories and teams
abbrev registry : Registry
registry = record {
  types = inventory ∷ team ∷ organization ∷ [];
  find = λ id. if id == 1 then inventory else if id == 2 then team else organization;
  children = (3, 1 ∷ 2 ∷ []) ∷ [];
  is_registered = λ id. true;
  team_ct_id = 2;
  team_permission = "member_team";
}

abbrev viewer : List Permission
viewer =
    record { codename = "view_organization"; content_type = organization }
    ∷ record { codename = "add_inventory"; content_type = inventory }
    ∷ []

abbrev editor : List Permission
editor = record { codename = "change_inventory"; content_type = inventory } ∷ []

abbrev deleter : List Permission
deleter =
    record { codename = "view_inventory"; content_type = inventory }
    ∷ record { codename = "delete_inventory"; content_type = inventory }
    ∷ []

viewer_run :
    validate_permissions_for_model settings registry viewer (some organization) false ≡ none
unfolding validate_permissions_for_model validate_role_definition_enabled
    permissions_allowed_for_role check_codenames check_view_permission_criteria
    check_has_change_with_delete check_shared get_descendent_models_from_db
viewer_run = refl

editor_run :
    validate_permissions_for_model settings registry editor (some organization) false
    ≡ some missing_view
unfolding validate_permissions_for_model validate_role_definition_enabled
    permissions_allowed_for_role check_codenames check_view_permission_criteria
    check_has_change_with_delete check_shared get_descendent_models_from_db
editor_run = refl

deleter_run :
    validate_permissions_for_model settings registry deleter (some inventory) false
    ≡ some missing_change
unfolding validate_permissions_for_model validate_role_definition_enabled
    permissions_allowed_for_role check_codenames check_view_permission_criteria
    check_has_change_with_delete check_shared get_descendent_models_from_db
deleter_run = refl

validate_permissions_for_model-IsValidRole_example :
    (validate_permissions_for_model settings registry viewer (some organization) false ≡ none)
    ↔ IsValidRole settings registry viewer (some organization) false
validate_permissions_for_model-IsValidRole_example =
    validate_permissions_for_model-IsValidRole settings registry viewer (some organization) false

abbrev allowed : Allowed
allowed = (1, inventory.codenames) ∷ []

check_view_permission_criteria-IsViewed_example :
    (check_view_permission_criteria ("change_inventory" ∷ []) allowed ≡ none)
    ↔ EachModel (IsViewed ("change_inventory" ∷ [])) allowed
check_view_permission_criteria-IsViewed_example =
    check_view_permission_criteria-IsViewed ("change_inventory" ∷ []) allowed

check_has_change_with_delete-IsChanged_example :
    (check_has_change_with_delete ("delete_inventory" ∷ []) allowed ≡ none)
    ↔ EachModel (IsChanged ("delete_inventory" ∷ [])) allowed
check_has_change_with_delete-IsChanged_example =
    check_has_change_with_delete-IsChanged ("delete_inventory" ∷ []) allowed

abbrev types : Graph
types = (3, 1 ∷ 2 ∷ []) ∷ (2, 3 ∷ []) ∷ []

get_descendent_models_from_db-Above_example :
    (out : List ℕ) × (get_descendent_models_from_db types 3 ≡ some out)
    × ((x : ℕ) → (contains x out ≡ true) ↔ Above types 3 x)
get_descendent_models_from_db-Above_example = get_descendent_models_from_db-Above types 3
