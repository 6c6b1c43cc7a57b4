-- ===== src/Resources/Attempts.antt =====
-- `resource_sync` of ansible_base/resource_registry/tasks/sync.py, with `_handle_conflict`,
-- `_attempt_update_resource` and `_attempt_create_resource`. The calls of the server, and the methods
-- of `Resource` and `ResourceType` that read and write the local resources, are an interface on a
-- state; a resource is its `ansible_id`.
pub mod Laws
use django_ansible_base.Base.{
  ℕ, String, Bool, true, false, not, ◌&&◌, ◌||◌, Option, none, some, ◌==◌, nat_eq, string_eq, leb,
  if◌then◌else◌,
}

-- The exceptions, by how the code tells them apart: `IntegrityError`, `ResourceDeletionError` and any
-- other `Error` of the database, `SkipResource` and any other `ValidationError` of Django, the `ValidationError`
-- of the REST framework, which is another class and what models/resource.py and the serializers
-- raise, an HTTP error of the server, and the rest.
pub data SyncError : Type 0 where
  integrity deletion database skip validation invalid http other : SyncError

pub data Result {ℓ} (A : Type ℓ) : Type ℓ where
  returned : A → Result A
  raised : SyncError → Result A

-- A call on a state: its result, and the state after it.
abbrev pub Call {ℓ} : Type ℓ → Type 0 → Type ℓ
Call S A = S → Result A × S

infixl 6 ◌>>=◌
abbrev pub and_then {ℓ} : {S : Type ℓ} {A B : Type 0} → (A → Call S B) → Result A × S → Result B × S
and_then rest (returned a, s) = rest a s
and_then rest (raised e, s) = (raised e, s)

abbrev pub ◌>>=◌ {ℓ} : {S : Type ℓ} {A B : Type 0} → Call S A → (A → Call S B) → Call S B
first >>= rest = λ s. and_then rest (first s)

abbrev pub return {ℓ} : {S : Type ℓ} {A : Type 0} → A → Call S A
return a s = (returned a, s)

abbrev pub raise {ℓ} : {S : Type ℓ} {A : Type 0} → SyncError → Call S A
raise e s = (raised e, s)

-- `try: ... except ...`, where the handler says what it makes of an exception
abbrev pub handle {ℓ} :
    {S : Type ℓ} {A : Type 0} → (SyncError → Call S A) → Result A × S → Result A × S
handle handler (returned a, s) = (returned a, s)
handle handler (raised e, s) = handler e s

abbrev pub attempt {ℓ} : {S : Type ℓ} {A : Type 0} → Call S A → (SyncError → Call S A) → Call S A
attempt body handler = λ s. handle handler (body s)

pub data SyncStatus : Type 0 where
  created updated noop conflict unavailable error : SyncStatus

pub record ManifestItem : Type 0 where
  pub ansible_id : String
  pub resource_hash : String

-- the body of a resource of the server
pub record Details : Type 0 where
  pub resource_data : String
  pub resource_type : String
  pub service_id : String
  pub is_partially_migrated : Bool

-- the status of an answer, and its body
abbrev pub Answer : Type 0
Answer = ℕ × Details

pub record ResourceStore {ℓ} (S : Type ℓ) : Type ℓ where
  -- `api_client.get_resource`
  pub get_resource : String → Call S Answer
  -- the hash of the local resource, if there is one
  pub local_hash : String → Call S (Option String)
  -- `ResourceType.objects.get`
  pub get_type : String → Call S String
  -- the type of a local resource
  pub type_of : String → Call S String
  pub get_conflicting_resource : String → String → Call S (Option String)
  -- `update_resource`: the resource, its data with the id of the service, and whether it changed
  pub update_resource : String → Details → Bool → Call S Bool
  -- `Resource.create_resource`
  pub create_resource : String → Details → Call S (Unit {0})
  pub delete_resource : String → Call S (Unit {0})

-- `except (ResourceDeletionError, IntegrityError, Error, ValidationError)`
abbrev pub is_caught : SyncError → Bool
is_caught invalid = false
is_caught http = false
is_caught other = false
is_caught _ = true

-- `except Error: raise ResourceDeletionError`
abbrev pub as_deletion : SyncError → SyncError
as_deletion integrity = deletion
as_deletion database = deletion
as_deletion e = e

module _ {ℓ} {S : Type ℓ} (store : ResourceStore S) where
  abbrev pub delete_found : String → Call S (Unit {0})
  delete_found found = attempt (store.delete_resource found) (λ e. raise (as_deletion e))

  abbrev pub settle : String → Answer → Call S (Unit {0})
  settle found (status, details) =
      if status == 404
      then delete_found found
      else if status == 200
      then (store.update_resource found details false >>= λ _. return tt)
      else raise http

  abbrev pub settle_found : Option String → Call S (Unit {0})
  settle_found none = return tt
  settle_found (some found) = store.get_resource found >>= settle found

  abbrev pub handle_conflict : String → Details → Call S (Unit {0})
  handle_conflict resource_type details =
      store.get_conflicting_resource resource_type details.resource_data >>= settle_found

  -- the second attempt, after which an error of the database is a conflict
  abbrev pub in_conflict : SyncError → Call S SyncStatus
  in_conflict e = if is_caught e then return conflict else raise e

  abbrev pub again : Call S String → Details → Call S (Unit {0}) → SyncStatus → Call S SyncStatus
  again resource_type details body status =
      attempt
        (resource_type >>= λ name.
          handle_conflict name details >>= λ _. body >>= λ _. return status)
        in_conflict

  abbrev pub update_failed : ManifestItem → Details → SyncError → Call S SyncStatus
  update_failed item details integrity =
      again (store.type_of item.ansible_id) details
        (store.update_resource item.ansible_id details true >>= λ _. return tt) updated
  update_failed item details e = if is_caught e then return error else raise e

  abbrev pub attempt_update_resource : ManifestItem → Details → Call S SyncStatus
  attempt_update_resource item details =
      attempt
        (store.update_resource item.ansible_id details true >>= λ changed.
          return (if changed then updated else noop))
        (update_failed item details)

  abbrev pub create_failed : ManifestItem → String → Details → SyncError → Call S SyncStatus
  create_failed item resource_type details skip = return noop
  create_failed item resource_type details integrity =
      again (return resource_type) details (store.create_resource item.ansible_id details) created
  create_failed item resource_type details e = if is_caught e then return error else raise e

  abbrev pub attempt_create_resource : ManifestItem → String → Details → Call S SyncStatus
  attempt_create_resource item resource_type details =
      attempt (store.create_resource item.ansible_id details >>= λ _. return created)
        (create_failed item resource_type details)

  -- the request for the resource; `none` is an answer that says it is unavailable
  abbrev pub checked : Answer → Call S (Option Details)
  checked (status, details) =
      if leb 400 status && not (leb 500 status)
      then return none
      else if leb 500 status && not (leb 600 status)
      then raise http
      else return (some details)

  abbrev pub update_or_give_up : ManifestItem → Option Details → Call S SyncStatus
  update_or_give_up item none = return unavailable
  update_or_give_up item (some details) = attempt_update_resource item details

  abbrev pub create_or_give_up : ManifestItem → Option Details → Call S SyncStatus
  create_or_give_up item none = return unavailable
  create_or_give_up item (some details) = store.get_type details.resource_type >>= λ resource_type.
      attempt_create_resource item resource_type details

  abbrev pub sync_with : ManifestItem → Option String → Call S SyncStatus
  sync_with item none = store.get_resource item.ansible_id >>= checked >>= create_or_give_up item
  sync_with item (some local_hash) =
      if item.resource_hash == local_hash
      then return noop
      else store.get_resource item.ansible_id >>= checked >>= update_or_give_up item

  unfoldable pub resource_sync : ManifestItem → Call S SyncStatus
  resource_sync item = store.local_hash item.ansible_id >>= sync_with item
