-- ===== src/Resources/Assignments.antt =====
-- `_apply_assignment_changes` and `_sync_assignments` of `SyncExecutor` in
-- ansible_base/resource_registry/tasks/sync.py. The local assignments and the two functions that
-- change one of them, in ansible_base/rbac/role_sync_utils.py, are an interface; a set is the list of
-- its elements in the order of the loop over it, and what is written for the user is left out.
pub mod Laws
use django_ansible_base.Base.{
  ℕ, zero, suc, ◌+◌, ◌≡◌, Bool, true, false, not, ◌&&◌, ◌||◌, Option, none, some, List, [], ◌∷◌,
  ◌==◌, string_eq, contains, difference, if◌then◌else◌, Outcome, ok, err,
}
use django_ansible_base.Resources.Fetch.{AssignmentTuple, tuple_eq, RemoteAssignmentResult}

-- `get_local_assignments`, `delete_local_assignment` and `create_local_assignment` on a state: the
-- first may raise, the other two return whether they succeeded.
pub record AssignmentStore {ℓ} (S : Type ℓ) : Type ℓ where
  pub local_assignments : S → Outcome (List AssignmentTuple)
  pub delete_local : AssignmentTuple → S → Bool × S
  pub create_local : AssignmentTuple → S → Bool × S

-- `(success_count, error_count)`, and the state afterwards
abbrev pub Applied {ℓ} : Type ℓ → Type ℓ
Applied S = (ℕ × ℕ) × S

abbrev pub count {ℓ} : {S : Type ℓ} → Bool → Applied S → Applied S
count true ((successes, errors), s) = ((suc successes, errors), s)
count false ((successes, errors), s) = ((successes, suc errors), s)

unfoldable pub apply_assignment_changes {ℓ} :
    {S : Type ℓ} → List AssignmentTuple → (AssignmentTuple → S → Bool × S) → S → Applied S
apply_assignment_changes [] action s = ((0, 0), s)
apply_assignment_changes (tuple ∷ rest) action s =
    let step = action tuple s in count step.0 (apply_assignment_changes rest action step.1)

-- what the report says: nothing, a failure, or the counts of creations, deletions and errors
pub data Report : Type 0 where
  skipped failed : Report
  completed : ℕ → ℕ → ℕ → Report

module _ {ℓ} {S : Type ℓ} (store : AssignmentStore S) where
  abbrev pub delete_extra : RemoteAssignmentResult → List AssignmentTuple → S → Applied S
  delete_extra remote local s =
      if remote.is_complete
      then apply_assignment_changes (difference local remote.assignments) store.delete_local s
      else ((0, 0), s)

  abbrev pub create_missing : RemoteAssignmentResult → List AssignmentTuple → S → Applied S
  create_missing remote local s =
      apply_assignment_changes (difference remote.assignments local) store.create_local s

  abbrev pub report_of : ℕ × ℕ → Applied S → Report × S
  report_of (deleted, delete_errors) ((created, create_errors), s) =
      (completed created deleted (delete_errors + create_errors), s)

  abbrev pub change : RemoteAssignmentResult → S → Outcome (List AssignmentTuple) → Report × S
  change remote s (err raised) = (failed, s)
  change remote s (ok local) =
      let deleted = delete_extra remote local s in
      report_of deleted.0 (create_missing remote local deleted.1)

  unfoldable pub sync_assignments : Bool → Bool → RemoteAssignmentResult → S → Report × S
  sync_assignments enabled rbac_installed remote s =
      if not enabled || not rbac_installed
      then (skipped, s)
      else change remote s (store.local_assignments s)
