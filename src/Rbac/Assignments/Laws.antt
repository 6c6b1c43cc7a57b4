-- ===== src/Rbac/Assignments/Laws.antt =====
-- What the rules of ansible_base/rbac/validators.py on names and on the permissions of teams let pass.
use django_ansible_base.Base.{
  String, ◌≡◌, refl, Bool, true, false, not, ◌&&◌, some, ◌==◌, string_eq, contains, any, Outcome,
  ok, err, validation_error, ok_injective, subst, arith, Bool-cases, inl, inr, ◌⊎◌, ◌↔◌, raise_if,
  ◌>>◌,
}
use django_ansible_base.Base.Text.{starts_with}
use django_ansible_base.Rbac.Assignments.{
  Model, full_name, find_name, find_in_children, validate_codename_for_model, TeamSettings,
  refuse_model, refuse_parent, validate_team_assignment_enabled,
}

-- A name that can be asked of an object: a codename of its model that is not to add, or one of the
-- codenames of a child model that the model itself does not have.
abbrev pub IsName : Model → String → Type 0
IsName model name =
    ((contains name model.codenames ≡ true) × (starts_with name "add" ≡ false))
    ⊎ ((contains name model.codenames ≡ false)
        × (any (λ codenames. contains name codenames) model.child_codenames ≡ true))

find_name-IsName :
    (model : Model) (name found : String) → find_name model name ≡ ok found → IsName model found
find_name-IsName model name found e = elim (Bool-cases (contains name model.codenames)) [
  | inl q ↦ elim (Bool-cases (starts_with name "add")) [
    | inl a ↦ absurd (cc (rw (q, a, find_name) at e))
    | inr a ↦ subst (IsName model) (ok_injective (rw (q, a, find_name) at e)) (inl (q, a))
  ]
  | inr q ↦ elim (Bool-cases (any (λ codenames. contains name codenames) model.child_codenames)) [
    | inl a ↦
        subst (IsName model) (ok_injective (rw (q, a, find_name, find_in_children) at e))
          (inr (q, a))
    | inr a ↦ absurd (cc (rw (q, a, find_name, find_in_children) at e))
  ]
]

-- A name that the validation returns is a codename of the model that is not to add, or else one of a
-- child model.
pub validate_codename_for_model-IsName :
    (codename : String) (model : Model) (found : String)
    → validate_codename_for_model codename model ≡ ok found
    → IsName model found
unfolding validate_codename_for_model
validate_codename_for_model-IsName codename model found e =
    elim (Bool-cases (not (starts_with codename "add") && contains codename model.codenames)) [
      | inl q ↦
          subst (IsName model) (ok_injective (rw (q, validate_codename_for_model) at e))
            (inl (ground arith, ground arith))
      | inr q ↦
          find_name-IsName model (full_name model codename) found
            (rw (q, validate_codename_for_model) at e)
    ]

>>-ok : (x y : Outcome (Unit {0})) → ((x >> y) ≡ ok tt) ↔ ((x ≡ ok tt) × (y ≡ ok tt))
>>-ok (ok tt) y = (λ e. (refl, e), λ p. p.1)
>>-ok (err r) y = (λ e. absurd (cc), λ p. absurd (cc (p.0)))

refuse_model-ok :
    (allowed : Bool) (model name : String) (also : Bool)
    → (refuse_model allowed (some model) name also ≡ ok tt)
      ↔ ((model == name && also) ≡ true → allowed ≡ true)
refuse_model-ok true model name also = (λ e q. refl, λ h. refl)
refuse_model-ok false model name also = elim (Bool-cases (model == name && also)) [
  | inl q ↦ rw q (λ e. absurd (cc), λ h. absurd (cc (h refl)))
  | inr q ↦ rw q (λ e p. absurd (cc), λ h. refl)
]

raise_if-ok :
    (allowed test : Bool)
    → (raise_if (not allowed && test) validation_error ≡ ok tt) ↔ (test ≡ true → allowed ≡ true)
raise_if-ok true test = (λ e q. refl, λ h. refl)
raise_if-ok false true = (λ e. absurd (cc), λ h. absurd (cc (h refl)))
raise_if-ok false false = (λ e q. absurd (cc), λ h. refl)

-- What the settings must say for a role about `model` to be given to a team.
abbrev pub MayAssign : TeamSettings → String → String → String → Bool → Bool → Type 0
MayAssign s team_model parent model has_team_perm has_org_member =
    ((model == team_model && true) ≡ true → s.allow_team_parents ≡ true)
    × ((model == parent && true) ≡ true → s.allow_team_org_perms ≡ true)
    × (has_org_member ≡ true → s.allow_team_org_member ≡ true)
    × ((model == parent && has_team_perm) ≡ true → s.allow_team_org_admin ≡ true)

-- A role about a model may be given to a team exactly when each setting that bears on it is on: the
-- parents of teams for a role about teams, the permissions of organizations for a role about the
-- parent model of teams, their members for a role with the permission of a member, and their
-- administration for a role about the parent model that makes members of teams.
pub validate_team_assignment_enabled-MayAssign :
    (s : TeamSettings) (team_model parent model : String) (has_team_perm has_org_member : Bool)
    → (validate_team_assignment_enabled s team_model
          (some parent)
          (some model)
          has_team_perm
          has_org_member
        ≡ ok tt)
      ↔ MayAssign s team_model parent model has_team_perm has_org_member
unfolding validate_team_assignment_enabled
validate_team_assignment_enabled-MayAssign s team_model parent model has_team_perm has_org_member =
    let all_on =
      s.allow_team_parents && s.allow_team_org_perms && s.allow_team_org_member
      && s.allow_team_org_admin in
    let teams = refuse_model-ok s.allow_team_parents model team_model true in
    let orgs = refuse_model-ok s.allow_team_org_perms model parent true in
    let members = raise_if-ok s.allow_team_org_member has_org_member in
    let admins = refuse_model-ok s.allow_team_org_admin model parent has_team_perm in
    let third =
      >>-ok (raise_if (not s.allow_team_org_member && has_org_member) validation_error)
        (refuse_model s.allow_team_org_admin (some model) parent has_team_perm) in
    let second = >>-ok (refuse_model s.allow_team_org_perms (some model) parent true) (
      raise_if (not s.allow_team_org_member && has_org_member) validation_error
      >> refuse_model s.allow_team_org_admin (some model) parent has_team_perm) in
    let first =
      >>-ok (refuse_model s.allow_team_parents (some model) team_model true)
        (refuse_parent s (some model) has_team_perm has_org_member (some parent)) in
    elim (Bool-cases all_on) [
      | inl q ↦
          rw (q, validate_team_assignment_enabled)
            (
              λ e. (λ m. ground arith, λ m. ground arith, λ m. ground arith, λ m. ground arith),
              λ h. refl,
            )
      | inr q ↦
          rw (q, validate_team_assignment_enabled)
            (
              λ e.
                  let (a, b) = first.0 e in
                  let (c, d) = second.0 b in
                  let (f, g) = third.0 d in (teams.0 a, orgs.0 c, members.0 f, admins.0 g),
              λ (a, b, c, d).
                  first.1 (teams.1 a, second.1 (orgs.1 b, third.1 (members.1 c, admins.1 d))),
            )
    ]
