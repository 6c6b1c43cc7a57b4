-- ===== src/Tests/Evaluations.antt =====
-- Evaluations of object roles at concrete inputs.
use mathlib.Core.List.{Memᴰ}
use mathlib.Core.List.Memᴰ as Memᴰ
use django_ansible_base.Base.{
  ℕ, ◌≡◌, refl, sym, ◌∙◌, subst, ◌<◌, String, true, false, none, some, List, [], ◌∷◌, ◌==◌, nat_eq,
  contains, all, all_of, all-contains, if◌then◌else◌, inl, inr, ◌↔◌, ok, arith, map, ◌&&◌,
}
use django_ansible_base.Rbac.Graph.{Graph}
use django_ansible_base.Rbac.Teams.{no_conflict, compute_team_member_roles, get_org_team_mapping}
use django_ansible_base.Rbac.Registry.{
  PermissionRegistry, Children, get_child_models, visit_children,
}
use django_ansible_base.Rbac.Registry.Laws.{models_of, child_graph, get_child_models-Above}
use django_ansible_base.Rbac.Graph.Laws.{Above}
use django_ansible_base.Rbac.Evaluations.Keys.{Pk, pk_eq, int, uuid, by_id, Key, key_eq, is_int}
use django_ansible_base.Rbac.Evaluations.Expected.{
  Permission, ObjectRole, World, get_child_filters, is_add_perm, expected_direct_permissions,
}
use django_ansible_base.Rbac.Evaluations.Expected.Filters.{
  ChildFilters, get_child_filters-ChildFilters,
}
use django_ansible_base.Rbac.Evaluations.Expected.Laws.{
  SameLists, fresh_all, in_scope, expected_direct_permissions-in_scope,
}
use django_ansible_base.Rbac.Evaluations.Updates.{
  Row, Tables, Holders, next_id, pk_of, has_row, has_type_id, load_existing_partials,
  recompute_role_evaluations,
}
use django_ansible_base.Rbac.Evaluations.Updates.Laws.{granted, IsValid}
use django_ansible_base.Rbac.Evaluations.Updates.Recompute.{Recomputable}
use django_ansible_base.Rbac.Evaluations.Updates.Exact.{
  recompute_role_evaluations-granted, recompute_role_evaluations-recompute_role_evaluations,
}
use django_ansible_base.Rbac.Evaluations.Access.{
  Actor, Settings, DeferState, Object, has_obj_perm, accessible_ids, bound_has_obj_perm,
  has_super_permission,
}
use django_ansible_base.Rbac.Evaluations.Access.Laws.{granted-teams, accessible_ids-has_obj_perm}
use django_ansible_base.Rbac.Assignments.{validate_codename_for_model}
use django_ansible_base.Rbac.Evaluations.Access.Held.{holders_of, IsHeld, has_obj_perm-IsHeld}
use django_ansible_base.Base.Dict.{get}
use django_ansible_base.Rbac.Evaluations.Prefetch.{from_roles, load_prefetched}
use django_ansible_base.Rbac.Evaluations.Prefetch.Laws.{get-load_prefetched}
use django_ansible_base.Tests.Teams.{teams, roles}

-- Projects (type 2) are below organizations (type 1), and tasks (type 3) below projects.
abbrev registry : PermissionRegistry
registry = record {
  parent_fields = (1, none) ∷ (2, some "organization") ∷ (3, some "project") ∷ [];
  related_model = λ model field. if model == 2 then 1 else 2;
}

abbrev world : World
world = record {
  registry = registry;
  model_name = λ ct. if ct == 1 then "organization" else if ct == 2 then "project" else "task";
  is_remote = λ ct. false;
  parent_content_type = λ ct. none;
  remote_ids = λ ct pk. int 7 ∷ int 8 ∷ [];
  filtered_ids = λ model path pk. int 7 ∷ int 8 ∷ [];
  cache_parent_permissions = false;
}

abbrev viewer : ℕ → ObjectRole
viewer pk = record {
  pk = pk;
  content_type_id = 1;
  object_id = int 1;
  permissions =
      record { codename = "view_organization"; content_type_id = 1 }
      ∷ record { codename = "view_project"; content_type_id = 2 }
      ∷ record { codename = "add_task"; content_type_id = 3 }
      ∷ [];
}

abbrev runner : ObjectRole
runner = record {
  pk = 6;
  content_type_id = 2;
  object_id = int 7;
  permissions = record { codename = "run_task"; content_type_id = 3 } ∷ [];
}

get_child_models-Above_example :
    (children : Children) × (get_child_models registry 1 ≡ some children)
    × ((m : ℕ) → (contains m (models_of children) ≡ true) ↔ Above (child_graph registry) 1 m)
get_child_models-Above_example = get_child_models-Above registry 1

expected_run :
    expected_direct_permissions world none none (viewer 5)
    ≡ ok (
        ("view_organization", (by_id 1, int 1))
        ∷ ("view_project", (by_id 2, int 7))
        ∷ ("view_project", (by_id 2, int 8))
        ∷ ("add_task", (by_id 1, int 1))
        ∷ ("add_task", (by_id 2, int 7))
        ∷ ("add_task", (by_id 2, int 8))
        ∷ [])
unfolding expected_direct_permissions get_child_filters is_add_perm get_child_models visit_children
expected_run = refl

-- the id lists of the world are all the same
same : (role : ObjectRole) → SameLists world role
same role p q ct none none f g = refl
same role p q ct none (some (m, path)) f g = refl
same role p q ct (some (m, path)) none f g = refl
same role p q ct (some (m, path)) (some (n, other)) f g = refl

expected_direct_permissions-in_scope_example :
    (keys : List Key) × (expected_direct_permissions world (some (int 7)) (some 2) (viewer 5)
      ≡ ok keys)
    × ((k : Key)
        → contains k keys && in_scope (some (int 7)) (some 2) k
          ≡ contains k (fresh_all world (viewer 5) (viewer 5).permissions)
            && in_scope (some (int 7)) (some 2) k)
expected_direct_permissions-in_scope_example =
    expected_direct_permissions-in_scope world (viewer 5) (some (int 7)) (some 2) refl
      (same (viewer 5))

viewer_typed :
    (pk : ℕ) → all has_type_id (fresh_all world (viewer pk) (viewer pk).permissions) ≡ true
unfolding get_child_filters is_add_perm get_child_models visit_children
viewer_typed pk = refl

runner_typed : all has_type_id (fresh_all world runner runner.permissions) ≡ true
unfolding get_child_filters is_add_perm get_child_models visit_children
runner_typed = refl

abbrev has_roles : ℕ → List ObjectRole
has_roles team_id = runner ∷ []

is_runner : (role : ObjectRole) → Memᴰ role (runner ∷ []) → role ≡ runner
is_runner role m = elim (Memᴰ.cases_cons m) [ inl e ↦ e | inr n ↦ elim n [ ] ]

recomputable :
    (provides : ℕ → List ℕ)
    → Recomputable world
        (record { provides_teams = provides; has_roles = has_roles })
        viewer
        (5 ∷ [])
recomputable provides r c = (
  refl,
  λ role m. same role,
  all_of has_type_id
      (granted world (record { provides_teams = provides; has_roles = has_roles }) (viewer r))
      (λ k m.
        elim ((granted-teams world (record { provides_teams = provides; has_roles = has_roles }) k
            (viewer r)).0
          m) [
            | inl own ↦
                all-contains has_type_id (fresh_all world (viewer r) (viewer r).permissions)
                  (viewer_typed r) k own
            | inr (t, d, other, l, g) ↦
                all-contains has_type_id (fresh_all world runner runner.permissions) runner_typed k
                  (subst (λ x. contains k (fresh_all world x x.permissions) ≡ true)
                    (is_runner other l) g)
          ]),
)

-- a table with a row that is no longer expected
abbrev stale : Row
stale = record { id = 3; role_id = 5; key = ("old", (by_id 1, int 1)) }

abbrev tables : Tables
tables = record { rows = stale ∷ []; next_int = 4; next_uuid = 1 }

is_stale : (row : Row) → Memᴰ row tables.rows → row ≡ stale
is_stale row m = elim (Memᴰ.cases_cons m) [ inl e ↦ e | inr n ↦ elim n [ ] ]

valid : IsValid tables
valid = record {
  one_per_key = λ a b m n e f. is_stale a m ∙ sym (is_stale b n);
  one_per_id = λ a b m n e. is_stale a m ∙ sym (is_stale b n);
  ids_below = λ a m.
      subst (λ (row : Row). row.id < next_id (is_int (pk_of row.key)) tables) (sym (is_stale a m))
        (omega arith);
}

abbrev holders : Holders
holders = record { provides_teams = λ pk. 1 ∷ []; has_roles = has_roles }

recompute_role_evaluations-granted_example :
    (t' : Tables) × (recompute_role_evaluations world holders no_conflict no_conflict true none none
        (map viewer (5 ∷ []))
        tables
      ≡ ok t')
    × IsValid t'
    × ((r : ℕ) (k : Key)
        → has_row r k t'.rows ≡ (
            if contains r (5 ∷ [])
            then contains k (granted world holders (viewer r))
            else has_row r k tables.rows))
recompute_role_evaluations-granted_example =
    recompute_role_evaluations-granted world holders viewer tables (5 ∷ []) valid
      (recomputable (λ pk. 1 ∷ []))

recompute_twice_example :
    (t' : Tables) × (recompute_role_evaluations world holders no_conflict no_conflict true none none
        (map viewer (5 ∷ []))
        tables
      ≡ ok t')
    × (recompute_role_evaluations world holders no_conflict no_conflict true none none
          (map viewer (5 ∷ []))
          t'
        ≡ ok t')
recompute_twice_example =
    recompute_role_evaluations-recompute_role_evaluations world holders viewer (5 ∷ []) tables valid
      (recomputable (λ pk. 1 ∷ []))

abbrev user : Actor
user = record {
  is_anonymous = false;
  model_name = "user";
  flag = λ name. some false;
  singleton_permissions = [];
  object_roles = 5 ∷ [];
}

has_obj_perm-IsHeld_example :
    (after : Graph) × (compute_team_member_roles true teams roles (λ t. no_conflict) none []
      ≡ some after)
    × (t' : Tables) × (recompute_role_evaluations world
          (holders_of teams has_roles after)
          no_conflict
          no_conflict
          true
          none
          none
          (map viewer (5 ∷ []))
          tables
        ≡ ok t')
    × ((ct : ℕ) (pk : Pk) (codename : String)
        → (has_obj_perm t'.rows user ct pk codename ≡ true)
          ↔ IsHeld world viewer has_roles
              (get_org_team_mapping true teams)
              teams
              roles
              user
              (codename, (by_id ct, pk)))
has_obj_perm-IsHeld_example =
    has_obj_perm-IsHeld world viewer has_roles true teams roles (λ t. no_conflict) [] (5 ∷ [])
      tables user (λ t. refl) valid
      (λ after. recomputable (holders_of teams has_roles after).provides_teams) (λ r c. c)

accessible_ids-has_obj_perm_example :
    contains (int 1) (accessible_ids (stale ∷ []) user 1 "old")
    ≡ has_obj_perm (stale ∷ []) user 1 (int 1) "old"
accessible_ids-has_obj_perm_example = accessible_ids-has_obj_perm (stale ∷ []) user 1 "old" (int 1)

abbrev settings : Settings
settings = record {
  superuser_flags = "is_superuser" ∷ [];
  action_flags = ("view_project", "is_auditor") ∷ [];
  user_model = "user";
  team_model = "team";
}

abbrev project : Object
project = record {
  is_remote = false;
  is_registered = true;
  content_type_id = 1;
  pk = int 1;
  model = record { model_name = "project"; codenames = "old" ∷ []; child_codenames = [] };
}

abbrev idle : DeferState
idle = record { active = true; has_deferred_data = false }

asked : bound_has_obj_perm settings idle (stale ∷ []) user project "old" ≡ ok true
unfolding bound_has_obj_perm has_super_permission has_obj_perm validate_codename_for_model
asked = refl

-- the rows of two roles, one of them in both tables
abbrev mixed : List Row
mixed =
    stale
    ∷ record { id = 1; role_id = 5; key = ("use", (by_id 4, uuid "u")) }
    ∷ record { id = 4; role_id = 6; key = ("old", (by_id 1, int 1)) }
    ∷ []

get-load_prefetched_example :
    get ("use", (by_id 4, uuid "u")) (load_prefetched (from_roles mixed (6 ∷ 5 ∷ [])) 5)
    ≡ get ("use", (by_id 4, uuid "u")) (load_existing_partials mixed 5 none none)
get-load_prefetched_example =
    get-load_prefetched mixed (6 ∷ 5 ∷ []) 5 ("use", (by_id 4, uuid "u")) refl

-- the permission to add tasks is about projects, by their field for the organization
abbrev add_task : Permission
add_task = record { codename = "add_task"; content_type_id = 3 }

add_task_filters :
    get_child_filters world 1 add_task ≡ some (by_id 2, some (2, "organization" ∷ []))
unfolding get_child_filters is_add_perm get_child_models visit_children
add_task_filters = refl

get_child_filters-ChildFilters_example :
    ChildFilters world 1 add_task (get_child_filters world 1 add_task)
get_child_filters-ChildFilters_example = get_child_filters-ChildFilters world 1 add_task
