-- ===== src/Rbac/Validators/Laws.antt =====
-- What a set of codenames that the checks of ansible_base/rbac/validators.py let pass looks like.
use django_ansible_base.Base.{
  String, ◌≡◌, refl, Bool, true, false, not, ◌&&◌, Option, none, some, List, [], ◌∷◌, nat_eq,
  string_eq, contains, contains-filter_by, any-witness, any_of, if◌then◌else◌, filter_by, arith,
  ◌↔◌, beq_refl,
}
use django_ansible_base.Base.Text.{has_infix}
use django_ansible_base.Rbac.Validators.{
  Refusal, missing_view, missing_change, Allowed, and_then, refuse_if, is_add_perm, local_codenames,
  mentions_action, is_nonempty, check_view_permission_criteria, check_has_change_with_delete,
}

-- A role with these codenames lists `c` among those of a model, and not only to add.
abbrev pub Lists : List String → List String → String → Type 0
Lists codename_set valid c =
    (contains c valid ≡ true) × (contains c codename_set ≡ true) × (is_add_perm c ≡ false)

-- some codename of the model is about the action
abbrev pub HasAction : String → List String → Type 0
HasAction action valid = (c : String) × (contains c valid ≡ true) × (has_infix c action ≡ true)

-- the role lists a codename of the model that is about the action
abbrev pub ListsAction : String → List String → List String → Type 0
ListsAction action codename_set valid =
    (c : String) × Lists codename_set valid c × (has_infix c action ≡ true)

-- What can be done with a model can be viewed.
abbrev pub IsViewed : List String → List String → Type 0
IsViewed codename_set valid =
    HasAction "view" valid
    → (c : String) → Lists codename_set valid c
    → ListsAction "view" codename_set valid

-- What can be deleted can be changed.
abbrev pub IsChanged : List String → List String → Type 0
IsChanged codename_set valid =
    HasAction "delete" valid
    → HasAction "change" valid
    → ListsAction "delete" codename_set valid
    → ListsAction "change" codename_set valid

abbrev pub EachModel : (List String → Type 0) → Allowed → Type 0
EachModel P [] = Unit
EachModel P ((k, valid) ∷ rest) = P valid × EachModel P rest

contains-local_codenames :
    (codename_set valid : List String) (c : String)
    → contains c (local_codenames codename_set valid)
      ≡ (contains c valid && contains c codename_set && not (is_add_perm c))
contains-local_codenames codename_set valid c = ground (
  arith,
  contains-filter_by (λ d. not (is_add_perm d)) c (filter_by (λ d. contains d codename_set) valid),
  contains-filter_by (λ d. contains d codename_set) c valid,
)

local_codenames-Lists :
    (codename_set valid : List String) (c : String)
    → (contains c (local_codenames codename_set valid) ≡ true) ↔ Lists codename_set valid c
local_codenames-Lists codename_set valid c =
    let e = contains-local_codenames codename_set valid c in
    (λ m. (ground arith, ground arith, ground arith), λ (a, b, d). ground arith)

mentions_action-Lists :
    (action : String) (codename_set valid : List String)
    → (mentions_action action (local_codenames codename_set valid) ≡ true)
      ↔ ListsAction action codename_set valid
mentions_action-Lists action codename_set valid =
    let own = local_codenames codename_set valid in
    (
      λ m.
          let (c, n, h) = any-witness (λ d. has_infix d action) own m in
          (c, (local_codenames-Lists codename_set valid c).0 n, h),
      λ (c, l, h).
          any_of (λ d. has_infix d action) own c ((local_codenames-Lists codename_set valid c).1 l)
            h,
    )

mentions_action-HasAction :
    (action : String) (valid : List String)
    → (mentions_action action valid ≡ true) ↔ HasAction action valid
mentions_action-HasAction action valid = (
  λ m. any-witness (λ d. has_infix d action) valid m,
  λ (c, n, h). any_of (λ d. has_infix d action) valid c n h,
)

contains-is_nonempty :
    (xs : List String) (c : String) → contains c xs ≡ true → is_nonempty xs ≡ true
contains-is_nonempty [] c m = absurd (cc)
contains-is_nonempty (x ∷ xs) c m = refl

is_nonempty-contains :
    (xs : List String) → is_nonempty xs ≡ true → (c : String) × (contains c xs ≡ true)
is_nonempty-contains [] m = absurd (cc)
is_nonempty-contains (x ∷ xs) m = (x, ground (arith, beq_refl x))

pub and_then-none : (a b : Option Refusal) → (and_then a b ≡ none) ↔ ((a ≡ none) × (b ≡ none))
and_then-none none b = (λ e. (refl, e), λ p. p.1)
and_then-none (some x) b = (λ e. absurd (cc), λ p. absurd (cc (p.0)))

guard-none :
    (a b c : Bool) (x : Refusal)
    → ((if a then refuse_if (b && not c) x else none) ≡ none) ↔ (a ≡ true → b ≡ true → c ≡ true)
guard-none true true true x = (λ e i j. refl, λ h. refl)
guard-none true true false x = (λ e. absurd (cc), λ h. absurd (cc (h refl refl)))
guard-none true false c x = (λ e i j. absurd (cc), λ h. refl)
guard-none false b c x = (λ e i j. absurd (cc), λ h. refl)

-- A set of codenames passes the check for view permission exactly when, for each model that has a
-- codename to view it, a role that lists a codename of the model not to add lists one to view it.
pub check_view_permission_criteria-IsViewed :
    (codename_set : List String) (allowed : Allowed)
    → (check_view_permission_criteria codename_set allowed ≡ none)
      ↔ EachModel (IsViewed codename_set) allowed
unfolding check_view_permission_criteria
check_view_permission_criteria-IsViewed codename_set [] = (λ e. tt, λ h. refl)
check_view_permission_criteria-IsViewed codename_set ((k, valid) ∷ rest) =
    let own = local_codenames codename_set valid in
    let tail = check_view_permission_criteria codename_set rest in
    let split = and_then-none _ tail in
    let guard =
      guard-none (mentions_action "view" valid) (is_nonempty own) (mentions_action "view" own)
        missing_view in
    let later = check_view_permission_criteria-IsViewed codename_set rest in
    let views = mentions_action-Lists "view" codename_set valid in
    let has = mentions_action-HasAction "view" valid in
    (
      λ e. (
        λ v c l.
            let m = (local_codenames-Lists codename_set valid c).1 l in
            views.0 (guard.0 (split.0 e).0 (has.1 v) (contains-is_nonempty own c m)),
        later.0 (split.0 e).1,
      ),
      λ (h, t). split.1 (
        guard.1 (λ v n.
            let (c, m) = is_nonempty-contains own n in
            views.1 (h (has.0 v) c ((local_codenames-Lists codename_set valid c).0 m))),
        later.1 t,
      ),
    )

delete-guard :
    (codename_set valid : List String)
    → ((if mentions_action "delete" valid && mentions_action "change" valid
          then refuse_if
              (mentions_action "delete" (local_codenames codename_set valid)
                && not (mentions_action "change" (local_codenames codename_set valid)))
              missing_change
          else none)
        ≡ none)
      ↔ IsChanged codename_set valid
delete-guard codename_set valid =
    let own = local_codenames codename_set valid in
    let guard =
      guard-none (mentions_action "delete" valid && mentions_action "change" valid)
        (mentions_action "delete" own) (mentions_action "change" own) missing_change in
    let deletes = mentions_action-Lists "delete" codename_set valid in
    let changes = mentions_action-Lists "change" codename_set valid in
    let d = mentions_action-HasAction "delete" valid in
    let c = mentions_action-HasAction "change" valid in
    (
      λ e hd hc l.
          let p : mentions_action "delete" valid ≡ true = d.1 hd in
          let q : mentions_action "change" valid ≡ true = c.1 hc in
          changes.0 (guard.0 e (rw (p, q) refl) (deletes.1 l)),
      λ h.
          guard.1 (λ both l. changes.1 (h (d.0 (ground arith)) (c.0 (ground arith)) (deletes.0 l))),
    )

-- A set of codenames passes the check for delete permission exactly when, for each model that has
-- codenames to delete and to change it, a role that may delete it, other than by a codename to add,
-- may change it.
pub check_has_change_with_delete-IsChanged :
    (codename_set : List String) (allowed : Allowed)
    → (check_has_change_with_delete codename_set allowed ≡ none)
      ↔ EachModel (IsChanged codename_set) allowed
unfolding check_has_change_with_delete
check_has_change_with_delete-IsChanged codename_set [] = (λ e. tt, λ h. refl)
check_has_change_with_delete-IsChanged codename_set ((k, valid) ∷ rest) =
    let split = and_then-none _ (check_has_change_with_delete codename_set rest) in
    let guard = delete-guard codename_set valid in
    let later = check_has_change_with_delete-IsChanged codename_set rest in
    (λ e. (guard.0 (split.0 e).0, later.0 (split.0 e).1), λ (h, t). split.1 (guard.1 h, later.1 t))
