-- ===== src/Authentication/Reconcile.antt =====
-- `RoleUserAssignmentsCache` and `ReconcileUser` of ansible_base/authentication/utils/claims.py:
-- the role assignments of a user are brought in line with the claims. The rows that the queries
-- load (assignments, organizations, teams, role definitions) are arguments, and a call that gives
-- or removes a permission is an action in a list.
pub mod User
pub mod Statuses
pub mod Stated
pub mod Laws
pub mod Outcome
pub mod Objects
use django_ansible_base.Base.{
  ℕ, String, Bool, true, false, not, ◌&&◌, ◌||◌, Option, none, some, List, [], ◌∷◌, ◌++◌, ◌==◌,
  string_eq, nat_eq, option_eq, contains, if◌then◌else◌,
}
use django_ansible_base.Base.Dict.{Dict, get, get_or, set}
use django_ansible_base.Authentication.RoleMapping.{RoleMapping, OrganizationRoles}

-- The objects that a role can be given on.
pub data Subject : Type 0 where
  organization team : ℕ → Subject
  other : ℕ → ℕ → Subject

pub data Status : Type 0 where
  noop existing add remove : Status

pub record Entry : Type 0 where
  pub object : Option Subject
  pub status : Status

pub record RoleDefinition : Type 0 where
  pub id : ℕ
  pub name : String

-- What `int(object_id)` makes of the text of a row.
pub data ObjectId : Type 0 where
  no_id uncastable : ObjectId
  number : ℕ → ObjectId

pub record ContentType : Type 0 where
  pub id : ℕ
  pub service : String

pub record Assignment : Type 0 where
  pub role : RoleDefinition
  pub content_type : Option ContentType
  pub object_id : ObjectId
  pub content_object : Option Subject

abbrev pub Cache : Type 0
Cache = Dict String (Dict (Option ℕ) (Dict (Option ℕ) Entry))

-- `cache` and `role_definitions`, where `none` is the False that marks a role as missing.
pub record State : Type 0 where
  pub cache : Cache
  pub role_definitions : Dict String (Option RoleDefinition)

abbrev pub init : State
init = record { cache = []; role_definitions = [] }

-- `content_types`: the ids of the two models
pub record Types : Type 0 where
  pub organization_type : ℕ
  pub team_type : ℕ

pub init_cache_key : String → Option ℕ → Cache → Cache
init_cache_key role ct cache =
    let by_type = get_or role [] cache in set role (set ct (get_or ct [] by_type) by_type) cache

-- `self.cache[role][ct][oid] = entry`, for keys that are there
pub put_entry : String → Option ℕ → Option ℕ → Entry → Cache → Cache
put_entry role ct oid entry cache =
    let by_type = get_or role [] cache in
    let by_id = get_or ct [] by_type in set role (set ct (set oid entry by_id) by_type) cache

-- `self.cache[role][ct].get(oid, {}).get('status')`
abbrev pub status_of : Option Entry → Option Status
status_of none = none
status_of (some entry) = some entry.status

pub current_status : String → Option ℕ → Option ℕ → Cache → Option Status
current_status role ct oid cache = status_of (get oid (get_or ct [] (get_or role [] cache)))

unfoldable pub get_content_type_id : Types → Option Subject → Option ℕ
get_content_type_id types none = none
get_content_type_id types (some (organization id)) = some types.organization_type
get_content_type_id types (some (team id)) = some types.team_type
get_content_type_id types (some (other ct id)) = some ct

unfoldable pub get_object_id : Option Subject → Option ℕ
get_object_id none = none
get_object_id (some (organization id)) = some id
get_object_id (some (team id)) = some id
get_object_id (some (other ct id)) = some id

-- the new status that `_add` and `_remove` write, if they write
abbrev add_status : Option Status → Option Status
add_status (some existing) = some noop
add_status (some noop) = some noop
add_status none = some add
add_status _ = none

abbrev remove_status : Option Status → Option Status
remove_status none = some noop
remove_status (some noop) = some noop
remove_status (some existing) = some remove
remove_status _ = none

abbrev pub write_status :
    String → Option ℕ → Option ℕ → Option Subject → Option Status → Cache → Cache
write_status role ct oid object none cache = cache
write_status role ct oid object (some status) cache =
    put_entry role ct oid (record { object = object; status = status }) cache

module _ (types : Types) where
  pub add_or_remove : String → Bool → Option Subject → Cache → Cache
  unfolding init_cache_key current_status put_entry get_content_type_id get_object_id
  add_or_remove role has_permission object cache =
      let ct = get_content_type_id types object in
      let oid = get_object_id object in
      let ready = init_cache_key role ct cache in
      let current = current_status role ct oid ready in
      write_status role ct oid object
        (if has_permission then add_status current else remove_status current) ready

rd_by_id : ℕ → Dict String (Option RoleDefinition) → Option RoleDefinition
rd_by_id id [] = none
rd_by_id id ((name, none) ∷ rest) = rd_by_id id rest
rd_by_id id ((name, some rd) ∷ rest) = if rd.id == id then some rd else rd_by_id id rest

abbrev type_id : Option ContentType → Option ℕ
type_id none = none
type_id (some ct) = some ct.id

abbrev is_local : List String → Option ContentType → Bool
is_local prefixes none = true
is_local prefixes (some ct) = contains ct.service prefixes

abbrev pub existing_entry : Option Subject → Entry
existing_entry object = record { object = object; status = existing }

-- `_cache_role_assignment`: the object id and the object to cache; a row whose id is no number is
-- left out
abbrev pub row_entry :
    Option ContentType → ObjectId → Option Subject → Option (Option ℕ × Option Subject)
row_entry none id object = some (none, none)
row_entry (some ct) uncastable object = none
row_entry (some ct) no_id object = some (none, none)
row_entry (some ct) (number id) object = some (some id, object)

abbrev pub put_row : String → Option ℕ → Option (Option ℕ × Option Subject) → Cache → Cache
put_row name ct none cache = cache
put_row name ct (some (oid, object)) cache = put_entry name ct oid (existing_entry object) cache

pub cache_role_assignment : String → Assignment → Cache → Cache
unfolding put_entry
cache_role_assignment name a =
    put_row name (type_id a.content_type) (row_entry a.content_type a.object_id a.content_object)

abbrev known_role : RoleDefinition → Option RoleDefinition → RoleDefinition
known_role rd none = rd
known_role rd (some known) = known

abbrev remember :
    RoleDefinition
    → Option RoleDefinition
    → Dict String (Option RoleDefinition)
    → Dict String (Option RoleDefinition)
remember rd none rds = set rd.name (some rd) rds
remember rd (some known) rds = rds

-- the body of the loop of `cache_existing`
pub cache_assignment : List String → Assignment → State → State
unfolding rd_by_id init_cache_key cache_role_assignment
cache_assignment prefixes a s =
    let found = rd_by_id a.role.id s.role_definitions in
    let name = (known_role a.role found).name in
    record {
      cache =
          if is_local prefixes a.content_type
          then cache_role_assignment name a (init_cache_key name (type_id a.content_type) s.cache)
          else s.cache;
      role_definitions = remember a.role found s.role_definitions;
    }

unfoldable pub cache_existing : List String → List Assignment → State → State
unfolding cache_assignment
cache_existing prefixes [] s = s
cache_existing prefixes (a ∷ rest) s = cache_existing prefixes rest (cache_assignment prefixes a s)

-- `rd_by_name`, where the argument is `RoleDefinition.objects.get(name=…)`
rd_by_name :
    (String → Option RoleDefinition)
    → String
    → Dict String (Option RoleDefinition)
    → Option RoleDefinition × Dict String (Option RoleDefinition)
rd_by_name find name rds = elim (get name rds) [
  | some marked ↦ (marked, rds)
  | none ↦ (find name, set name (find name) rds)
]
