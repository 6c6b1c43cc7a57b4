-- ===== src/Rbac/Assignments.antt =====
-- The rules on assignments and on the names of permissions of ansible_base/rbac/validators.py. What
-- is raised carries no message.
pub mod Laws
use Prim.Native.Char.{Char, code}
use Prim.Native.String as Text
use Prim.Native.String.{String}
use django_ansible_base.Base.{
  ℕ, Bool, true, false, not, ◌&&◌, ◌||◌, Option, none, some, List, [], ◌∷◌, ◌==◌, nat_eq, string_eq,
  option_eq, nat_beq, leb, contains, any, if◌then◌else◌, Outcome, ok, err, runtime_error,
  validation_error, attribute_error, ◌>>◌, raise_if,
}
use django_ansible_base.Base.Text.{starts_with}

-- A content type as the rules see it.
pub record Model : Type 0 where
  pub model_name : String
  pub codenames : List String
  pub child_codenames : List (List String)

abbrev is_lower : Char → Bool
is_lower c = leb 97 (code c) && leb (code c) 122

-- `[a-z]*$`, which a line's end may follow
abbrev lower_to_end : String → Bool
lower_to_end Text.[] = true
lower_to_end (Text.◌∷◌ c Text.[]) = is_lower c || nat_beq (code c) 10
lower_to_end (Text.◌∷◌ c (Text.◌∷◌ d s)) = is_lower c && lower_to_end (Text.◌∷◌ d s)

-- `re.match(r'^[a-z]+$', codename)`
abbrev is_action : String → Bool
is_action Text.[] = false
is_action (Text.◌∷◌ c s) = is_lower c && lower_to_end s

-- `codename.split('.')[-1]`
abbrev last_part : String → String → String
last_part found Text.[] = found
last_part found (Text.◌∷◌ c s) = last_part (if nat_beq (code c) 46 then s else found) s

-- the name that the codename stands for, where it is none of the model as it stands
abbrev pub full_name : Model → String → String
full_name model codename =
    if is_action codename
    then Text.◌++◌ codename (Text.◌++◌ "_" model.model_name)
    else last_part codename codename

abbrev pub find_in_children : Model → String → Outcome String
find_in_children model name =
    if any (λ codenames. contains name codenames) model.child_codenames
    then ok name
    else err runtime_error

abbrev pub find_name : Model → String → Outcome String
find_name model name =
    if contains name model.codenames
    then (if starts_with name "add" then err runtime_error else ok name)
    else find_in_children model name

unfoldable pub validate_codename_for_model : String → Model → Outcome String
validate_codename_for_model codename model =
    if not (starts_with codename "add") && contains codename model.codenames
    then ok codename
    else find_name model (full_name model codename)

-- The settings on the permissions of teams.
pub record TeamSettings : Type 0 where
  pub allow_team_parents : Bool
  pub allow_team_org_perms : Bool
  pub allow_team_org_member : Bool
  pub allow_team_org_admin : Bool

-- `if not allowed and content_type.model == name and also: raise ValidationError`
abbrev refuse_model : Bool → Option String → String → Bool → Outcome (Unit {0})
refuse_model true content_type name also = ok tt
refuse_model false none name also = err attribute_error
refuse_model false (some model) name also = raise_if (model == name && also) validation_error

abbrev refuse_parent :
    TeamSettings → Option String → Bool → Bool → Option String → Outcome (Unit {0})
refuse_parent s content_type has_team_perm has_org_member none = ok tt
refuse_parent s content_type has_team_perm has_org_member (some parent) =
    refuse_model s.allow_team_org_perms content_type parent true
    >> (raise_if (not s.allow_team_org_member && has_org_member) validation_error
        >> refuse_model s.allow_team_org_admin content_type parent has_team_perm)

-- `team_model` and `parent_model` are the names of the models of teams and of their parents.
unfoldable pub validate_team_assignment_enabled :
    TeamSettings → String → Option String → Option String → Bool → Bool → Outcome (Unit {0})
validate_team_assignment_enabled s team_model parent_model content_type has_team_perm
      has_org_member =
    if s.allow_team_parents && s.allow_team_org_perms && s.allow_team_org_member
      && s.allow_team_org_admin
    then ok tt
    else refuse_model s.allow_team_parents content_type team_model true
      >> refuse_parent s content_type has_team_perm has_org_member parent_model

-- `actor` is the name of the actor's model; the types are ids, where a role for the system has none.
unfoldable pub validate_assignment : Option ℕ → String → ℕ → Outcome (Unit {0})
validate_assignment role_type actor object_type =
    raise_if (not (contains actor ("user" ∷ "team" ∷ []))) validation_error
    >> raise_if (not (some object_type == role_type)) validation_error

-- `uses_jwt`: whether `ansible_base.jwt_consumer` is installed
unfoldable pub check_locally_managed : Bool → Bool → List String → String → Outcome (Unit {0})
check_locally_managed uses_jwt allow_local managed_roles name =
    if not (uses_jwt && not allow_local)
    then ok tt
    else raise_if (contains name managed_roles) validation_error
