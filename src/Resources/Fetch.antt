-- ===== src/Resources/Fetch.antt =====
-- `RemoteAssignmentFetcher` of ansible_base/resource_registry/tasks/sync.py with `AssignmentTuple` of
-- ansible_base/rbac/role_sync_utils.py. The server is a function from the page, with the size of
-- pages and the filter fixed; the loop over pages is bounded by fuel.
pub mod Laws
use django_ansible_base.Base.{
  ℕ, zero, suc, String, Bool, true, false, not, ◌&&◌, ◌||◌, Option, none, some, List, [], ◌∷◌, ◌++◌,
  ◌==◌, Eq, nat_eq, string_eq, option_eq, pair_eq, contains, if◌then◌else◌,
}

-- `(actor_ansible_id, ansible_id_or_pk, role_definition_name, assignment_type)`
abbrev pub AssignmentTuple : Type 0
AssignmentTuple = String × (Option String × (String × String))

instance abbrev pub tuple_eq : Eq AssignmentTuple
tuple_eq = pair_eq

-- An assignment as the server lists it, where a key may be absent.
pub record Remote : Type 0 where
  pub role_definition : Option String
  pub actor_id : Option String
  pub object_ansible_id : Option String
  pub object_id : Option String

-- `results`, and whether `next` is truthy
pub record Page : Type 0 where
  pub results : List Remote
  pub has_next : Bool

-- A request raises, or returns a status and a body, which may be no JSON object.
pub data Response : Type 0 where
  failure : Response
  response : ℕ → Option Page → Response

abbrev pub or_else : Option String → Option String → Option String
or_else none other = other
or_else (some text) other = if text == "" then other else some text

-- the assignment as a tuple; `none` is a key that is absent
abbrev pub tuple_of : String → String → Remote → Option AssignmentTuple
tuple_of assignment_type role_name a = elim a.actor_id [
  | none ↦ none
  | some actor ↦
      some (actor, (or_else a.object_ansible_id a.object_id, (role_name, assignment_type)))
]

-- what a page leaves in the set, and whether no exception was raised
abbrev pub Added : Type 0
Added = Bool × List AssignmentTuple

abbrev pub add_one : List AssignmentTuple → Option AssignmentTuple → Added
add_one found none = (false, found)
add_one found (some tuple) = (true, tuple ∷ found)

abbrev pub add_named : List String → String → Remote → List AssignmentTuple → Option String → Added
add_named role_names assignment_type a found none = (false, found)
add_named role_names assignment_type a found (some role_name) =
    if contains role_name role_names
    then add_one found (tuple_of assignment_type role_name a)
    else (true, found)

abbrev pub add_result : List String → String → Remote → List AssignmentTuple → Added
add_result role_names assignment_type a found =
    add_named role_names assignment_type a found a.role_definition

abbrev pub add_results : List String → String → List Remote → List AssignmentTuple → Added
add_results role_names assignment_type [] found = (true, found)
add_results role_names assignment_type (a ∷ rest) found =
    let step = add_result role_names assignment_type a found in
    let later = add_results role_names assignment_type rest step.1 in
    if step.0 then later else (false, step.1)

-- the requests of one endpoint, by the page
abbrev pub Endpoint : Type 0
Endpoint = ℕ → Response

abbrev pub read : Response → Option Page
read failure = none
read (response status body) = if status == 200 then body else none

-- one turn of the loop, where `next` is the rest of it
abbrev pub turn :
    List String
    → String
    → (List AssignmentTuple → Option Added)
    → List AssignmentTuple
    → Option Page
    → Option Added
turn role_names assignment_type next found none = some (false, found)
turn role_names assignment_type next found (some p) =
    let step = add_results role_names assignment_type p.results found in
    let later = next step.1 in if step.0 && p.has_next then later else some step

-- `_paginate` from a page on; `none` is that the fuel was used up
unfoldable pub paginate :
    List String → String → Endpoint → ℕ → ℕ → List AssignmentTuple → Option Added
paginate role_names assignment_type list_fn zero page found = none
paginate role_names assignment_type list_fn (suc fuel) page found =
    turn role_names assignment_type (paginate role_names assignment_type list_fn fuel (suc page))
      found (read (list_fn page))

-- `RemoteAssignmentResult`
pub record RemoteAssignmentResult : Type 0 where
  pub assignments : List AssignmentTuple
  pub is_complete : Bool

abbrev pub fetched : Added → RemoteAssignmentResult
fetched (is_complete, assignments) = record { assignments = assignments; is_complete = is_complete }

abbrev pub fetched_teams : Option Added → Option RemoteAssignmentResult
fetched_teams none = none
fetched_teams (some added) = some (fetched added)

abbrev pub after_users :
    (List AssignmentTuple → Option Added) → Option Added → Option RemoteAssignmentResult
after_users teams none = none
after_users teams (some (users_ok, found)) =
    if users_ok then fetched_teams (teams found) else some (fetched (false, found))

unfoldable pub fetch : List String → Endpoint → Endpoint → ℕ → Option RemoteAssignmentResult
fetch role_names list_users list_teams fuel =
    after_users (paginate role_names "team" list_teams fuel 1)
      (paginate role_names "user" list_users fuel 1 [])
