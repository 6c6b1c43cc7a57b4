-- ===== src/Resources/Executor.antt =====
-- `fetch_manifest`, `get_orphan_resources` and the parts of `SyncExecutor` that process resources, of
-- ansible_base/resource_registry/tasks/sync.py, in their sequential form. What is written for the
-- user and the waiting before a retry are left out.
pub mod Laws
pub mod Deletions
use django_ansible_base.Base.{
  ℕ, zero, suc, ◌+◌, ◌-◌, String, Bool, true, false, not, ◌&&◌, ◌||◌, Option, none, some, List, [],
  ◌∷◌, ◌++◌, ◌==◌, Eq, nat_eq, string_eq, pair_eq, nat_beq, leb, length, filter_by, contains,
  if◌then◌else◌,
}
use django_ansible_base.Resources.Attempts.{
  SyncError, http, Result, returned, raised, Call, ◌>>=◌, return, raise, SyncStatus, unavailable,
  ManifestItem, ResourceStore, delete_found, resource_sync,
}

-- the header with the number of resources: absent, no number, a number below 0, or a number
pub data Count : Type 0 where
  absent not_numeric negative : Count
  number : ℕ → Count

-- The answers to the two requests: whether the first succeeds, the status of the second, its header
-- and its rows, where `none` is a transfer that breaks off.
pub record ManifestResponse : Type 0 where
  pub metadata_ok : Bool
  pub status : ℕ
  pub count : Count
  pub rows : Option (List ManifestItem)

-- `ManifestNotFound`, any other exception, or the items and whether they are incomplete
pub data Manifest : Type 0 where
  not_found failed : Manifest
  fetched : List ManifestItem → Bool → Manifest

abbrev pub read_rows : Count → List ManifestItem → Manifest
read_rows (number n) rows = fetched rows (not (n == length rows))
read_rows _ rows = fetched rows true

abbrev pub read_manifest : Count → Option (List ManifestItem) → Manifest
read_manifest absent rows = fetched [] true
read_manifest not_numeric rows = fetched [] true
read_manifest count none = fetched [] true
read_manifest count (some rows) = read_rows count rows

unfoldable pub fetch_manifest : ManifestResponse → Manifest
fetch_manifest r =
    if not r.metadata_ok
    then failed
    else if r.status == 404
    then not_found
    else if leb 400 r.status && not (leb 600 r.status)
    then failed
    else read_manifest r.count r.rows

-- A local resource, as the query for orphans reads it.
pub record Resource : Type 0 where
  pub ansible_id : String
  pub type_name : String
  pub service_id : String
  pub is_partially_migrated : Bool
  pub object_id : String

abbrev pub ids_of : List ManifestItem → List String
ids_of [] = []
ids_of (item ∷ items) = item.ansible_id ∷ ids_of items

-- `service_id()`, the name of the type of users, and the key of the system user
pub record Site : Type 0 where
  pub service_id : String
  pub user_type : String
  pub system_user : Option String

abbrev pub is_system_user : Site → String → String → Bool
is_system_user site type_name object_id =
    type_name == site.user_type
    && elim site.system_user [ none ↦ false | some id ↦ object_id == id ]

abbrev pub is_orphan : Site → String → List ManifestItem → Resource → Bool
is_orphan site type_name manifest r =
    r.type_name == type_name
    && not (contains r.ansible_id (ids_of manifest))
    && not (r.service_id == site.service_id && not r.is_partially_migrated)
    && not (is_system_user site type_name r.object_id)

unfoldable pub get_orphan_resources :
    Site → String → List ManifestItem → List Resource → List Resource
get_orphan_resources site type_name manifest resources =
    filter_by (is_orphan site type_name manifest) resources

abbrev pub item_beq : ManifestItem → ManifestItem → Bool
item_beq a b = a.ansible_id == b.ansible_id && a.resource_hash == b.resource_hash

abbrev pub SyncResult : Type 0
SyncResult = SyncStatus × ManifestItem

-- The fields of `SyncExecutor` that a run changes; the results of all statuses are one list, and
-- `deleted` are the ids of the orphans
-- that were deleted; what a conflict deletes is not among them.
pub record Progress : Type 0 where
  pub unavailable : List ManifestItem
  pub attempts : ℕ
  pub deleted_count : ℕ
  pub results : List SyncResult
  pub deleted : List String

abbrev pub is_unavailable : SyncStatus → Bool
is_unavailable SyncStatus.unavailable = true
is_unavailable _ = false

-- `unavailable.discard(item)`
abbrev pub discard : ManifestItem → List ManifestItem → List ManifestItem
discard item items = filter_by (λ other. not (item_beq item other)) items

abbrev pub report_one : SyncResult → Progress → Progress
report_one (status, item) p = record p {
  results = p.results ++ ((status, item) ∷ []);
  unavailable =
      if is_unavailable status
      then item ∷ discard item p.unavailable
      else discard item p.unavailable;
}

unfoldable pub report_results : List SyncResult → Progress → Progress
report_results [] p = p
report_results (r ∷ rs) p = report_results rs (report_one r p)

abbrev pub is_empty : List ManifestItem → Bool
is_empty [] = true
is_empty (item ∷ items) = false

abbrev pub next_attempt : Progress → Progress
next_attempt p = record p { attempts = suc p.attempts }

abbrev pub with_deleted : Progress → List String → Progress
with_deleted p ids = record p { deleted = p.deleted ++ ids; deleted_count = length ids }

module _ {ℓ} {S : Type ℓ} (store : ResourceStore S) where
  abbrev pub process_items : List ManifestItem → Call S (List SyncResult)
  process_items [] = return []
  process_items (item ∷ items) = resource_sync store item >>= λ status.
      process_items items >>= λ rest. return ((status, item) ∷ rest)

  -- `_process_manifest_list`
  abbrev pub process_manifest_list : List ManifestItem → Progress → Call S Progress
  process_manifest_list items p = process_items items >>= λ rs. return (report_results rs p)

  -- the loop, where the fuel is the number of attempts that are left
  abbrev pub retry : ℕ → Progress → Call S Progress
  retry zero p = return p
  retry (suc left) p =
      if is_empty p.unavailable
      then return p
      else process_manifest_list p.unavailable p >>= λ later. retry left (next_attempt later)

  unfoldable pub handle_retries : ℕ → Progress → Call S Progress
  handle_retries retries p = retry (retries - p.attempts) p

  -- one orphan in a transaction, where any exception is caught: whether it was deleted
  abbrev pub deleted_or_not : S → Result (Unit {0}) × S → Bool × S
  deleted_or_not before (returned u, s) = (true, s)
  deleted_or_not before (raised e, s) = (false, before)

  abbrev pub delete_each : List Resource → S → List String × S
  delete_each [] s = ([], s)
  delete_each (r ∷ rs) s =
      let step = deleted_or_not s (delete_found store r.ansible_id s) in
      let later = delete_each rs step.1 in
      (if step.0 then r.ansible_id ∷ later.0 else later.0, later.1)

  -- `_cleanup_orphans`, where the orphans are those of the local resources
  abbrev pub cleanup_orphans : List Resource → Progress → Call S Progress
  cleanup_orphans orphans p s =
      let step = delete_each orphans s in (returned (with_deleted p step.0), step.1)

  -- the body of the loop of `run` over the types, with the local resources at its start
  abbrev pub run_fetched :
      Site → String → ℕ → (S → List Resource) → Manifest → Progress → Call S Progress
  run_fetched site type_name retries resources not_found p = return p
  run_fetched site type_name retries resources failed p = raise http
  run_fetched site type_name retries resources (fetched items is_incomplete) p =
      (if is_incomplete then return (record p { deleted_count = 0 }) else λ s.
      cleanup_orphans (get_orphan_resources site type_name items (resources s)) p s)
      >>= process_manifest_list items
      >>= handle_retries retries

  unfoldable pub run_type :
      Site → String → ℕ → (S → List Resource) → ManifestResponse → Progress → Call S Progress
  run_type site type_name retries resources response p =
      run_fetched site type_name retries resources (fetch_manifest response) p

  -- the loop of `run`; an empty selection of types selects all
  abbrev pub is_selected : List String → String → Bool
  is_selected [] type_name = true
  is_selected (name ∷ names) type_name = contains type_name (name ∷ names)

  unfoldable pub run_types :
      Site
      → List String
      → ℕ
      → (S → List Resource)
      → (String → ManifestResponse)
      → List String
      → Progress
      → Call S Progress
  run_types site selected retries resources response [] p = return p
  run_types site selected retries resources response (name ∷ names) p =
      if is_selected selected name
      then (run_type site name retries resources (response name) p
          >>= run_types site selected retries resources response names)
      else run_types site selected retries resources response names p
