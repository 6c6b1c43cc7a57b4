-- ===== src/Tests/Resources.antt =====
-- The synchronization with a server at concrete inputs.
use mathlib.Core.List.{Memᴰ}
use django_ansible_base.Base.{
  ◌-◌, ◌≤◌, ◌⊎◌, length, ℕ, ◌≡◌, refl, ◌+◌, true, false, not, ◌||◌, none, some, String, List, [],
  ◌∷◌, ◌==◌, nat_eq, string_eq, contains, filter_by, ◌&&◌, ◌++◌, map, if◌then◌else◌, ok, arith,
}
use django_ansible_base.Resources.Fetch.{
  AssignmentTuple, tuple_eq, Remote, response, Endpoint, RemoteAssignmentResult, fetch, paginate,
}
use django_ansible_base.Resources.Fetch.Laws.{Listed, known, IsLast, fetch-IsLast, fetch-Listed}
use django_ansible_base.Resources.Assignments.{
  AssignmentStore, completed, sync_assignments, apply_assignment_changes,
}
use django_ansible_base.Resources.Assignments.Laws.{
  deletion, creation, logged, sync_assignments-logged,
}
use django_ansible_base.Resources.Attempts.{
  returned, raised, integrity, validation, invalid, conflict, error, unavailable, ManifestItem,
  Details, ResourceStore, resource_sync,
}
use django_ansible_base.Resources.Executor.{
  number, ManifestResponse, fetch_manifest, Resource, Site, get_orphan_resources, Progress,
  report_results, is_empty, handle_retries, run_type,
}
use django_ansible_base.Resources.Executor.Laws.{handle_retries-Retried}
use django_ansible_base.Resources.Executor.Deletions.{IsOrphan, run_type-MayDelete}
use django_ansible_base.Resources.Attempts.Laws.{Leaves, resource_sync-Leaves}

-- two pages of users, the second the last
abbrev alice : Remote
alice = record {
  role_definition = some "admin";
  actor_id = some "alice";
  object_ansible_id = none;
  object_id = some "1";
}

abbrev bob : Remote
bob = record {
  role_definition = some "unknown";
  actor_id = some "bob";
  object_ansible_id = some "";
  object_id = none;
}

abbrev users : Endpoint
users page =
    response 200
      (some (record { results = (if page == 1 then alice else bob) ∷ []; has_next = page == 1 }))

abbrev no_teams : Endpoint
no_teams page = response 200 (some (record { results = []; has_next = false }))

abbrev by_alice : AssignmentTuple
by_alice = ("alice", (some "1", ("admin", "user")))

abbrev result : RemoteAssignmentResult
result = record { assignments = by_alice ∷ []; is_complete = true }

fetched_run : fetch ("admin" ∷ []) users no_teams 2 ≡ some result
unfolding fetch paginate
fetched_run = refl

fetch-Listed_example :
    (all_users all_teams : List Remote) × Listed users 1 all_users
    × Listed no_teams 1 all_teams
    × ((t : AssignmentTuple)
        → contains t result.assignments ≡ (
            contains t (known ("admin" ∷ []) "user" all_users)
            || contains t (known ("admin" ∷ []) "team" all_teams)))
fetch-Listed_example = fetch-Listed ("admin" ∷ []) users no_teams 2 result fetched_run refl

users-IsLast : IsLast users 2
users-IsLast p e = cc e

fetch-IsLast_example :
    (r : RemoteAssignmentResult) × (fetch ("admin" ∷ []) users no_teams 2 ≡ some r)
fetch-IsLast_example =
    fetch-IsLast ("admin" ∷ []) users no_teams 2 1 2 users-IsLast (λ p e. cc e) (omega arith)
      (omega arith) (omega arith) (omega arith)

abbrev store : AssignmentStore (List AssignmentTuple)
store = record {
  local_assignments = λ s. ok s;
  delete_local = λ x s. (true, filter_by (λ y. not (x == y)) s);
  create_local = λ x s. (true, x ∷ s);
}

abbrev by_bob : AssignmentTuple
by_bob = ("bob", (none, ("admin", "user")))

synced : sync_assignments store true true result (by_bob ∷ []) ≡ (completed 1 1 0, by_alice ∷ [])
unfolding sync_assignments apply_assignment_changes
synced = refl

sync_assignments-logged_example :
    (created deleted errors : ℕ) × (s' : List AssignmentTuple) × (gone made : List AssignmentTuple)
    × (sync_assignments store true true result (by_bob ∷ [])
        ≡ (completed created deleted errors, s'))
    × (sync_assignments (logged store) true true result (by_bob ∷ [], [])
        ≡ (completed created deleted errors, (s', map deletion gone ++ map creation made)))
    × (created + deleted + errors ≡ length gone + length made)
    × ((t : AssignmentTuple)
        → (contains t gone ≡ (contains t (by_bob ∷ []) && not (contains t result.assignments)))
          × (contains t made ≡ (contains t result.assignments && not (contains t (by_bob ∷ [])))))
sync_assignments-logged_example =
    sync_assignments-logged store result (by_bob ∷ []) (by_bob ∷ []) refl

abbrev details : Details
details = record {
  resource_data = "name";
  resource_type = "team";
  service_id = "s";
  is_partially_migrated = false;
}

-- an update is refused by the first, and meets a duplicate in the second of these stores
abbrev refusing : ResourceStore ℕ
refusing = record {
  get_resource = λ id s. (returned (200, details), s);
  local_hash = λ id s. (returned (some "old"), s);
  get_type = λ name s. (returned name, s);
  type_of = λ id s. (returned "team", s);
  get_conflicting_resource = λ name data_of s. (returned none, s);
  update_resource = λ id d partial s. (raised validation, s);
  create_resource = λ id d s. (returned tt, s + 1);
  delete_resource = λ id s. (returned tt, s + 1);
}

abbrev duplicate : ResourceStore ℕ
duplicate = record refusing { update_resource = λ id d partial s. (raised integrity, s) }

abbrev item : ManifestItem
item = record { ansible_id = "a"; resource_hash = "new" }

in_error : resource_sync refusing item 0 ≡ (returned error, 0)
unfolding resource_sync
in_error = refl

in_conflict : resource_sync duplicate item 0 ≡ (returned conflict, 0)
unfolding resource_sync
in_conflict = refl

-- an error of the serializer is not caught
abbrev unserialized : ResourceStore ℕ
unserialized = record refusing { update_resource = λ id d partial s. (raised invalid, s) }

resource_sync-Leaves_example :
    Leaves (resource_sync unserialized item)
    × ((local_hash : String) (body : Details) (s s1 s2 s3 : ℕ)
        → (item.resource_hash == local_hash) ≡ false
        → unserialized.local_hash "a" s ≡ (returned (some local_hash), s1)
        → unserialized.get_resource "a" s1 ≡ (returned (200, body), s2)
        → unserialized.update_resource "a" body true s2 ≡ (raised invalid, s3)
        → resource_sync unserialized item s ≡ (raised invalid, s3))
resource_sync-Leaves_example =
    resource_sync-Leaves unserialized item (λ s e h. absurd (cc h)) (λ s e h. absurd (cc h))
      (λ name s e h. absurd (cc h))

left : resource_sync unserialized item 0 ≡ (raised invalid, 0)
unfolding resource_sync
left = refl

-- a server that has no resource left, and retries of one that stays unavailable
abbrev offline : ResourceStore ℕ
offline = record refusing { get_resource = λ id s. (returned (404, details), s) }

abbrev waiting : Progress
waiting = record {
  unavailable = item ∷ [];
  attempts = 1;
  deleted_count = 0;
  results = [];
  deleted = [];
}

abbrev given_up : Progress
given_up = record waiting { attempts = 3; results = (unavailable, item) ∷ (unavailable, item) ∷ [] }

retried : handle_retries offline 3 waiting 0 ≡ (returned given_up, 0)
unfolding handle_retries report_results resource_sync
retried = refl

handle_retries-Retried_example :
    ((is_empty given_up.unavailable ≡ true) ⊎ (3 ≤ given_up.attempts))
    × (1 ≤ given_up.attempts)
    × (given_up.attempts ≤ 3 - 1 + 1)
    × (given_up.deleted ≡ [])
handle_retries-Retried_example = handle_retries-Retried offline 3 waiting given_up 0 0 retried

abbrev site : Site
site = record { service_id = "here"; user_type = "shared.user"; system_user = some "1" }

-- the first is not listed, the second is the system user, and the third belongs to this service
abbrev resources : ℕ → List Resource
resources s =
    record {
      ansible_id = "gone";
      type_name = "shared.user";
      service_id = "there";
      is_partially_migrated = false;
      object_id = "2";
    }
    ∷ record {
      ansible_id = "system";
      type_name = "shared.user";
      service_id = "there";
      is_partially_migrated = false;
      object_id = "1";
    }
    ∷ record {
      ansible_id = "own";
      type_name = "shared.user";
      service_id = "here";
      is_partially_migrated = false;
      object_id = "3";
    }
    ∷ []

abbrev nothing_listed : ManifestResponse
nothing_listed = record { metadata_ok = true; status = 200; count = number 0; rows = some [] }

abbrev start : Progress
start = record { unavailable = []; attempts = 0; deleted_count = 0; results = []; deleted = [] }

abbrev finished : Progress
finished = record start { deleted_count = 1; deleted = "gone" ∷ [] }

cleaned :
    run_type refusing site "shared.user" 3 resources nothing_listed start 0 ≡ (returned finished, 1)
unfolding run_type fetch_manifest get_orphan_resources handle_retries report_results
cleaned = refl

run_type-MayDelete_example :
    (contains "gone" start.deleted ≡ true)
    ⊎ ((items : List ManifestItem) × (nothing_listed.rows ≡ some items)
        × (nothing_listed.count ≡ number (length items))
        × (r : Resource) × Memᴰ r (resources 0)
        × (r.ansible_id ≡ "gone")
        × IsOrphan site "shared.user" items r)
run_type-MayDelete_example =
    run_type-MayDelete refusing site "shared.user" 3 resources nothing_listed start finished 0 1
      "gone" cleaned refl
