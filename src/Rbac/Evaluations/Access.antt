-- ===== src/Rbac/Evaluations/Access.antt =====
-- The questions of access of ansible_base/rbac/evaluations.py: `has_super_permission` and
-- `bound_has_obj_perm`, with `RoleEvaluationFields.has_obj_perm` and `accessible_ids` of
-- ansible_base/rbac/models/role.py.
pub mod Laws
pub mod Held
use django_ansible_base.Base.{
  ℕ, String, Bool, true, false, not, ◌&&◌, ◌||◌, Option, none, some, List, [], ◌∷◌, ◌==◌, nat_eq,
  string_eq, map, any, filter_by, contains, if◌then◌else◌, Outcome, ok, err, ◌>>=◌, ◌>>◌, raise_if,
  attribute_error, runtime_error, validation_error,
}
use django_ansible_base.Base.Dict.{Dict}
use django_ansible_base.Rbac.Assignments.{Model, validate_codename_for_model}
use django_ansible_base.Rbac.Evaluations.Keys.{Pk, pk_eq, by_id, Key, key_eq}
use django_ansible_base.Rbac.Evaluations.Updates.{Row, pk_of}

-- The settings, and the names of the models of users and teams.
pub record Settings : Type 0 where
  pub superuser_flags : List String
  pub action_flags : Dict String String
  pub user_model : String
  pub team_model : String

-- A user or a team: `flag` reads an attribute, which may be absent, `singleton_permissions` are
-- those of global roles, and `object_roles` the roles on objects that are assigned.
pub record Actor : Type 0 where
  pub is_anonymous : Bool
  pub model_name : String
  pub flag : String → Option Bool
  pub singleton_permissions : List String
  pub object_roles : List ℕ

-- `getattr(user, flag)`
abbrev pub getattr : Actor → String → Outcome Bool
getattr actor name = elim (actor.flag name) [ none ↦ err attribute_error | some b ↦ ok b ]

abbrev pub any_flag : Actor → List String → Outcome Bool
any_flag actor [] = ok false
any_flag actor (name ∷ names) =
    getattr actor name >>= λ b. let rest = any_flag actor names in if b then ok true else rest

abbrev pub any_action : Actor → String → Dict String String → Outcome Bool
any_action actor codename [] = ok false
any_action actor codename ((action, name) ∷ actions) =
    let rest = any_action actor codename actions in
    if codename == action then (getattr actor name >>= λ b. if b then ok true else rest) else rest

-- `if full_codename`: nothing and the empty text are both no codename
abbrev pub given : Option String → Option String
given none = none
given (some codename) = if codename == "" then none else some codename

abbrev pub has_action_flag : Settings → Actor → Option String → Outcome Bool
has_action_flag settings actor none = ok false
has_action_flag settings actor (some codename) = any_action actor codename settings.action_flags

-- the super permission flags, which only users have
abbrev pub has_flag : Settings → Actor → Option String → Outcome Bool
has_flag settings actor codename =
    if actor.model_name == settings.user_model
    then (any_flag actor settings.superuser_flags >>= λ b.
        if b then ok true else has_action_flag settings actor codename)
    else if actor.model_name == settings.team_model
    then ok false
    else err runtime_error

abbrev pub has_singleton : Actor → Option String → Bool
has_singleton actor none = false
has_singleton actor (some codename) = contains codename actor.singleton_permissions

unfoldable pub has_super_permission : Settings → Actor → Option String → Outcome Bool
has_super_permission settings actor full_codename =
    if actor.is_anonymous
    then ok false
    else (has_flag settings actor (given full_codename) >>= λ b.
        if b then ok true else ok (has_singleton actor (given full_codename)))

-- `has_obj_perm` on the rows: a row of a role that the actor is assigned
abbrev pub is_row_for : Actor → Key → Row → Bool
is_row_for actor k row = contains row.role_id actor.object_roles && row.key == k

unfoldable pub has_obj_perm : List Row → Actor → ℕ → Pk → String → Bool
has_obj_perm rows actor ct pk codename = any (is_row_for actor (codename, (by_id ct, pk))) rows

-- `accessible_ids`, for the type of the model: a row's codename, type and role
abbrev pub is_row_of : Actor → ℕ → String → Row → Bool
is_row_of actor ct codename row =
    contains row.role_id actor.object_roles && row.key == (codename, (by_id ct, pk_of row.key))

unfoldable pub accessible_ids : List Row → Actor → ℕ → String → List Pk
accessible_ids rows actor ct codename =
    map (λ row. pk_of row.key) (filter_by (is_row_of actor ct codename) rows)

-- An object, or the class of one: what the check reads of it.
pub record Object : Type 0 where
  pub is_remote : Bool
  pub is_registered : Bool
  pub content_type_id : ℕ
  pub pk : Pk
  pub model : Model

-- `defer_rbac_state`
pub record DeferState : Type 0 where
  pub active : Bool
  pub has_deferred_data : Bool

unfoldable pub bound_has_obj_perm :
    Settings → DeferState → List Row → Actor → Object → String → Outcome Bool
bound_has_obj_perm settings state rows actor obj codename =
    raise_if (state.active && state.has_deferred_data) runtime_error
    >> raise_if (not obj.is_remote && not obj.is_registered) validation_error
    >> (validate_codename_for_model codename obj.model >>= λ full_codename.
        has_super_permission settings actor (some full_codename) >>= λ is_super.
        if is_super
        then ok true
        else ok (has_obj_perm rows actor obj.content_type_id obj.pk full_codename))
