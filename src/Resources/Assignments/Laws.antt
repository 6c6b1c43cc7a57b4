-- ===== src/Resources/Assignments/Laws.antt =====
-- The calls that `_sync_assignments` of ansible_base/resource_registry/tasks/sync.py makes to change
-- the local assignments, whatever these calls do.
use mathlib.Core.List.{append_assoc, append-nil}
use django_ansible_base.Base.{
  ℕ, ◌+◌, ◌≡◌, refl, Bool, true, false, not, ◌&&◌, List, [], ◌∷◌, ◌++◌, map, Bool-cases, inl, inr,
  contains, contains-filter_by, contains-distinct, difference, distinct, length, if◌then◌else◌,
  arith, ok,
}
use django_ansible_base.Resources.Fetch.{AssignmentTuple, tuple_eq, RemoteAssignmentResult}
use django_ansible_base.Resources.Assignments.{
  AssignmentStore, Applied, count, apply_assignment_changes, completed, delete_extra,
  create_missing, sync_assignments,
}

pub data Change : Type 0 where
  deletion creation : AssignmentTuple → Change

length-map {ℓ κ} :
    {A : Type ℓ} {B : Type κ} (f : A → B) (xs : List A) → length (map f xs) ≡ length xs
length-map f [] = refl
length-map f (x ∷ xs) = omega (arith, length-map f xs)

contains-difference :
    (t : AssignmentTuple) (xs ys : List AssignmentTuple)
    → contains t (difference xs ys) ≡ contains t xs && not (contains t ys)
contains-difference t xs ys =
    ground
      (arith, contains-filter_by (λ x. not (contains x ys)) t (distinct xs), contains-distinct t xs)

module _ {ℓ} {S : Type ℓ} where
  -- an action that also writes down that it was called
  abbrev log_call :
      (AssignmentTuple → Change)
      → (AssignmentTuple → S → Bool × S)
      → AssignmentTuple
      → S × List Change
      → Bool × (S × List Change)
  log_call kind action x (s, log) = let step = action x s in (step.0, (step.1, log ++ kind x ∷ []))

  -- a store that does what another does and keeps the list of its calls, the first one first
  abbrev pub logged : AssignmentStore S → AssignmentStore (S × List Change)
  logged store = record {
    local_assignments = λ (s, log). store.local_assignments s;
    delete_local = log_call deletion store.delete_local;
    create_local = log_call creation store.create_local;
  }

  abbrev with_log : Applied S → List Change → Applied (S × List Change)
  with_log (counts, s) log = (counts, (s, log))

  count-with_log :
      (b : Bool) (r : Applied S) (log : List Change)
      → count b (with_log r log) ≡ with_log (count b r) log
  count-with_log true r log = refl
  count-with_log false r log = refl

  apply-logged :
      (kind : AssignmentTuple → Change) (action : AssignmentTuple → S → Bool × S)
      (xs : List AssignmentTuple) (s : S) (log : List Change)
      → apply_assignment_changes xs (log_call kind action) (s, log)
        ≡ with_log (apply_assignment_changes xs action s) (log ++ map kind xs)
  unfolding apply_assignment_changes
  apply-logged kind action [] s log = rw (append-nil log) refl
  apply-logged kind action (x ∷ xs) s log =
      let step = action x s in
      rw (apply-logged kind action xs step.1 (log ++ kind x ∷ [])) (
        rw (append_assoc log (kind x ∷ []) (map kind xs)) (
          count-with_log step.0 (apply_assignment_changes xs action step.1)
            (log ++ map kind (x ∷ xs))))

  -- each call is counted as a success or an error
  apply-counts :
      (action : AssignmentTuple → S → Bool × S) (xs : List AssignmentTuple) (s : S)
      → let r = apply_assignment_changes xs action s in r.0.0 + r.0.1 ≡ length xs
  unfolding apply_assignment_changes
  apply-counts action [] s = refl
  apply-counts action (x ∷ xs) s =
      let step = action x s in
      let ih = apply-counts action xs step.1 in
      elim (Bool-cases step.0) [ inl q ↦ rw q (omega arith) | inr q ↦ rw q (omega arith) ]

  module _ (store : AssignmentStore S) where
    -- the assignments that are to be removed
    abbrev extra : RemoteAssignmentResult → List AssignmentTuple → List AssignmentTuple
    extra remote local = if remote.is_complete then difference local remote.assignments else []

    contains-extra :
        (remote : RemoteAssignmentResult) (local : List AssignmentTuple) (t : AssignmentTuple)
        → contains t (extra remote local)
          ≡ (remote.is_complete && (contains t local && not (contains t remote.assignments)))
    contains-extra remote local t = elim (Bool-cases remote.is_complete) [
      | inl q ↦ rw q (contains-difference t local remote.assignments)
      | inr q ↦ rw q refl
    ]

    extra-logged :
        (remote : RemoteAssignmentResult) (local : List AssignmentTuple) (s : S)
        → delete_extra (logged store) remote local (s, [])
          ≡ with_log (delete_extra store remote local s) (map deletion (extra remote local))
    extra-logged remote local s = elim (Bool-cases remote.is_complete) [
      | inl q ↦ rw q (apply-logged deletion store.delete_local _ s [])
      | inr q ↦ rw q refl
    ]

    extra-counts :
        (remote : RemoteAssignmentResult) (local : List AssignmentTuple) (s : S)
        → let r = delete_extra store remote local s in r.0.0 + r.0.1 ≡ length (extra remote local)
    extra-counts remote local s = elim (Bool-cases remote.is_complete) [
      | inl q ↦ rw q (apply-counts store.delete_local _ s)
      | inr q ↦ rw q refl
    ]

    -- Whatever the calls that change one assignment do, a synchronization that is enabled and finds
    -- local assignments completes, and it makes these calls, as the same run shows that also keeps
    -- their list: first one deletion for each of some tuples, then one creation for each of others.
    -- A tuple is among the first exactly if the fetch was complete, it stands among the local
    -- assignments and not among those of the server; it is among the second exactly if it stands
    -- among those of the server and not among the local ones. The numbers of the report add up to
    -- the number of calls: each is a success or an error.
    pub sync_assignments-logged :
        (remote : RemoteAssignmentResult) (local : List AssignmentTuple) (s : S)
        → store.local_assignments s ≡ ok local
        → (created deleted errors : ℕ) × (s' : S) × (gone made : List AssignmentTuple)
          × (sync_assignments store true true remote s ≡ (completed created deleted errors, s'))
          × (sync_assignments (logged store) true true remote (s, [])
              ≡ (completed created deleted errors, (s', map deletion gone ++ map creation made)))
          × (created + deleted + errors ≡ length gone + length made)
          × ((t : AssignmentTuple)
              → (contains t gone ≡ (
                  remote.is_complete && (contains t local && not (contains t remote.assignments))))
                × (contains t made ≡ (contains t remote.assignments && not (contains t local))))
    unfolding sync_assignments
    sync_assignments-logged remote local s e =
        let gone = extra remote local in
        let made = difference remote.assignments local in
        let dropped = delete_extra store remote local s in
        let added = create_missing store remote local dropped.1 in
        let d = extra-counts remote local s in
        let c = apply-counts store.create_local made dropped.1 in
        (
          added.0.0,
          dropped.0.0,
          dropped.0.1 + added.0.1,
          added.1,
          gone,
          made,
          rw e refl,
          rw e (
              rw (extra-logged remote local s) (
                rw (apply-logged creation store.create_local made dropped.1 (map deletion gone))
                  refl)),
          omega (arith, d, c),
          λ t. (contains-extra remote local t, contains-difference t remote.assignments local),
        )
