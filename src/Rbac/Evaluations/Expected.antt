-- ===== src/Rbac/Evaluations/Expected.antt =====
-- `ObjectRole.get_child_filters` and `ObjectRole.expected_direct_permissions` of
-- ansible_base/rbac/models/role.py. The queries on the models of the application and on the roles of
-- remote objects are parameters, and a look-ahead object is a pair of options.
pub mod Laws
pub mod Searches
pub mod Filters
use django_ansible_base.Base.{
  ℕ, String, Bool, true, false, not, ◌&&◌, ◌||◌, Option, none, some, List, [], ◌∷◌, ◌++◌, ◌==◌,
  nat_eq, string_eq, map, filter_by, if◌then◌else◌, Outcome, ok, err, value_error,
}
use django_ansible_base.Base.Text.{starts_with, after_dot}
use django_ansible_base.Base.Dict.{Dict, get, set}
use django_ansible_base.Rbac.Registry.{PermissionRegistry, FieldPath, Children, get_child_models}
use django_ansible_base.Rbac.Evaluations.Keys.{
  Pk, pk_eq, TypeRef, by_id, by_object, type_ref_eq, Key,
}

pub record Permission : Type 0 where
  pub codename : String
  pub content_type_id : ℕ

-- A role on an object, where `object_id` is of the key's own type, with the permissions of its role
-- definition.
pub record ObjectRole : Type 0 where
  pub pk : ℕ
  pub content_type_id : ℕ
  pub object_id : Pk
  pub permissions : List Permission

-- The content types and the rows of the application: what the code asks of the database.
pub record World : Type 0 where
  pub registry : PermissionRegistry
  pub model_name : ℕ → String
  pub is_remote : ℕ → Bool
  pub parent_content_type : ℕ → Option ℕ
  -- the roles on remote objects of a type, by the object that they are below
  pub remote_ids : TypeRef → Pk → List Pk
  -- the objects of a model that a path of fields leads to an object
  pub filtered_ids : ℕ → FieldPath → Pk → List Pk
  pub cache_parent_permissions : Bool

-- `eval_ct`, and the model with the path where it is not remote
abbrev pub Filters : Type 0
Filters = TypeRef × Option (ℕ × FieldPath)

-- the part after a dot, where there is exactly one
abbrev pub use_codename : String → Option String → String
use_codename codename none = codename
use_codename codename (some rest) = elim (after_dot rest) [ none ↦ rest | some _ ↦ codename ]

-- `is_add_perm` of ansible_base/lib/utils/models.py
unfoldable pub is_add_perm : String → Bool
is_add_perm codename = starts_with (use_codename codename (after_dot codename)) "add_"

-- the children of a model; the search always ends
abbrev pub children_of : World → ℕ → Children
children_of w model = elim (get_child_models w.registry model) [ none ↦ [] | some found ↦ found ]

abbrev pub through_parent : ℕ → FieldPath → Filters
through_parent child_model filter_path = (by_id child_model, some (child_model, filter_path))

-- the loop of the add permission: only a path of two fields or more counts
abbrev pub find_parent : World → ℕ → Children → Option Filters
find_parent w permission_ct [] = none
find_parent w permission_ct (([], model) ∷ rest) = find_parent w permission_ct rest
find_parent w permission_ct ((field ∷ [], model) ∷ rest) = find_parent w permission_ct rest
find_parent w permission_ct ((field ∷ (next ∷ path), model) ∷ rest) =
    if w.model_name model == w.model_name permission_ct
    then some (through_parent (w.registry.related_model permission_ct field) (next ∷ path))
    else find_parent w permission_ct rest

abbrev pub find_child : World → ℕ → Children → Option Filters
find_child w permission_ct [] = none
find_child w permission_ct ((path, model) ∷ rest) =
    if w.model_name model == w.model_name permission_ct
    then some (by_id permission_ct, some (model, path))
    else find_child w permission_ct rest

-- `none` is a permission that is passed over; the type of a remote parent is the object, not its id
abbrev pub remote_parent : ℕ → Option ℕ → Option Filters
remote_parent role_ct none = none
remote_parent role_ct (some parent) =
    if parent == role_ct then none else some (by_object parent, none)

unfoldable pub get_child_filters : World → ℕ → Permission → Option Filters
get_child_filters w role_ct permission =
    if is_add_perm permission.codename
    then (if w.is_remote permission.content_type_id
        then remote_parent role_ct (w.parent_content_type permission.content_type_id)
        else find_parent w permission.content_type_id (children_of w role_ct))
    else if w.is_remote permission.content_type_id
    then some (by_id permission.content_type_id, none)
    else find_child w permission.content_type_id (children_of w role_ct)

-- the query for the objects below the role's object: by the roles for a remote permission, else by
-- the path
abbrev pub id_list : World → ObjectRole → Filters → List Pk
id_list w role (eval_ct, none) = w.remote_ids eval_ct role.object_id
id_list w role (eval_ct, some (model, path)) = w.filtered_ids model path role.object_id

-- `cached_id_lists`
abbrev pub Cache : Type 0
Cache = Dict TypeRef (List Pk)

-- the id list, and the cache with it
abbrev pub cached_ids : World → ObjectRole → Filters → Cache → List Pk × Cache
cached_ids w role (eval_ct, via) cache = elim (get eval_ct cache) [
  | some ids ↦ (ids, cache)
  | none ↦ let ids = id_list w role (eval_ct, via) in (ids, set eval_ct ids cache)
]

-- a filter that is left out when nothing is given
abbrev pub matches_pk : Option Pk → Pk → Bool
matches_pk none id = true
matches_pk (some pk) id = id == pk

-- `object_ct_id is None or ct == object_ct_id`, for a type of either form
abbrev pub matches_ct : Option ℕ → TypeRef → Bool
matches_ct none ct = true
matches_ct (some id) ct = ct == by_id id

abbrev pub keys_for : String → TypeRef → Option Pk → List Pk → List Key
keys_for codename ct object_pk ids =
    map (λ id. (codename, (ct, id))) (filter_by (matches_pk object_pk) ids)

abbrev pub before : List Key → List Key × Cache → List Key × Cache
before keys (below, cache) = (keys ++ below, cache)

module _ (w : World) (object_pk : Option Pk) (object_ct_id : Option ℕ) (role : ObjectRole) where
  -- the entry for the role's own object
  abbrev pub own_key : String → List Key
  own_key codename =
      if matches_ct object_ct_id (by_id role.content_type_id)
      then (codename, (by_id role.content_type_id, role.object_id)) ∷ []
      else []

  abbrev pub parent_key : String → List Key
  parent_key codename =
      if is_add_perm codename || w.cache_parent_permissions then own_key codename else []

  abbrev pub found_keys : String → TypeRef → List Pk × Cache → List Key × Cache
  found_keys codename eval_ct (ids, cache) = (keys_for codename eval_ct object_pk ids, cache)

  abbrev pub child_keys : Permission → Option Filters → Cache → List Key × Cache
  child_keys permission none cache = ([], cache)
  child_keys permission (some (eval_ct, via)) cache =
      if matches_ct object_ct_id eval_ct
      then found_keys permission.codename eval_ct (cached_ids w role (eval_ct, via) cache)
      else ([], cache)

  -- one permission: the keys that it adds, and the cache
  abbrev pub permission_keys : Permission → Cache → List Key × Cache
  permission_keys permission cache =
      if permission.content_type_id == role.content_type_id
      then (own_key permission.codename, cache)
      else before (parent_key permission.codename)
          (child_keys permission (get_child_filters w role.content_type_id permission) cache)

  abbrev pub all_keys : List Permission → Cache → List Key
  all_keys [] cache = []
  all_keys (permission ∷ rest) cache =
      let step = permission_keys permission cache in step.0 ++ all_keys rest step.1

-- whether only one of the two is given
abbrev pub half_given : Option Pk → Option ℕ → Bool
half_given none none = false
half_given (some pk) (some ct) = false
half_given _ _ = true

-- The set as a list, in which a key may stand twice.
unfoldable pub expected_direct_permissions :
    World → Option Pk → Option ℕ → ObjectRole → Outcome (List Key)
expected_direct_permissions w object_pk object_ct_id role =
    if half_given object_pk object_ct_id
    then err value_error
    else ok (all_keys w object_pk object_ct_id role role.permissions [])
