-- ===== src/Rbac/Teams.antt =====
-- The member roles of teams: the mappings that ansible_base/rbac/caching.py builds from the rows of
-- the database, and `compute_team_member_roles`. A row that a query repeats counts once.
pub mod Mappings
pub mod Roles
pub mod Inherited
pub mod Scope
pub mod Conflicts
pub mod Laws
use django_ansible_base.Base.{
  ℕ, String, Bool, true, false, not, Option, none, some, List, [], ◌∷◌, ◌++◌, ◌==◌, nat_eq,
  string_eq, contains, if◌then◌else◌, filter_by, Outcome, ok, err, Raised, ◌>>=◌,
}
use django_ansible_base.Base.Dict.{Dict, get, get_or, set}
use django_ansible_base.Base.Text.{has_infix}
use django_ansible_base.Rbac.Graph.{Graph, parents_of, children_of}

-- What an object role is about.
pub data Target : Type 0 where
  team organization : ℕ → Target
  elsewhere : Target

-- An object role that lists the permission to be a member of teams, and the teams that hold it.
pub record ObjectRole : Type 0 where
  pub id : ℕ
  pub target : Target
  pub teams : List ℕ

pub record Team : Type 0 where
  pub id : ℕ
  pub organization : ℕ

-- `d[k].append(v)` on a defaultdict of lists
abbrev pub push : ℕ → ℕ → Graph → Graph
push k v d = set k (get_or k [] d ++ (v ∷ [])) d

abbrev pub push_each : List ℕ → ℕ → Graph → Graph
push_each [] v d = d
push_each (k ∷ ks) v d = push_each ks v (push k v d)

abbrev org_teams : List Team → Graph → Graph
org_teams [] d = d
org_teams (t ∷ ts) d = org_teams ts (push t.organization t.id d)

-- `has_parent`: whether the team model has a parent field
unfoldable pub get_org_team_mapping : Bool → List Team → Graph
get_org_team_mapping has_parent teams = if has_parent then org_teams teams [] else []

-- the teams that a role gives membership of
abbrev pub member_teams : Graph → Target → List ℕ
member_teams mapping (team id) = id ∷ []
member_teams mapping (organization id) = elim (get id mapping) [ none ↦ [] | some ids ↦ ids ]
member_teams mapping elsewhere = []

abbrev pub direct_roles : Graph → List ObjectRole → Graph → Graph
direct_roles mapping [] d = d
direct_roles mapping (r ∷ rs) d =
    direct_roles mapping rs (push_each (member_teams mapping r.target) r.id d)

unfoldable pub get_direct_team_member_roles : Graph → List ObjectRole → Graph
get_direct_team_member_roles mapping roles = direct_roles mapping roles []

-- the loop over the teams that hold a role
abbrev pub push_actors : List ℕ → List ℕ → Graph → Graph
push_actors [] ids d = d
push_actors (a ∷ rest) ids d = push_actors rest ids (push_each ids a d)

abbrev pub parent_teams : Graph → List ObjectRole → Graph → Graph
parent_teams mapping [] d = d
parent_teams mapping (r ∷ rs) d =
    parent_teams mapping rs (push_actors r.teams (member_teams mapping r.target) d)

-- `teams__isnull=False`
abbrev is_nonempty : List ℕ → Bool
is_nonempty [] = false
is_nonempty (x ∷ xs) = true

abbrev has_teams : ObjectRole → Bool
has_teams r = is_nonempty r.teams

unfoldable pub get_parent_teams_of_teams : Graph → List ObjectRole → Graph
get_parent_teams_of_teams mapping roles = parent_teams mapping (filter_by has_teams roles) []

-- An `IntegrityError`: the SQLSTATE and the text of its cause.
pub record DbError : Type 0 where
  pub cause : Option (String × String)

pub is_stale_objectrole_fk : DbError → Bool
is_stale_objectrole_fk e = elim e.cause [
  | none ↦ false
  | some (sqlstate, text) ↦
      if sqlstate == "23503" then has_infix text "dab_rbac_objectrole" else false
]

-- What the database does with the two attempts to add rows, and the roles that are left between.
pub record Attempts : Type 0 where
  pub first : Option DbError
  pub second : Option DbError
  pub alive : List ℕ

abbrev pub no_conflict : Attempts
no_conflict = record { first = none; second = none; alive = [] }

abbrev retry_add : Attempts → List ℕ → List ℕ → Option (List ℕ)
retry_add attempts [] existing = some existing
retry_add attempts (r ∷ rs) existing = elim attempts.second [
  | none ↦ some (existing ++ (r ∷ rs))
  | some e ↦ if is_stale_objectrole_fk e then some existing else none
]

-- `none` is an error that is raised again
pub safe_m2m_add : Attempts → List ℕ → List ℕ → Option (List ℕ)
unfolding is_stale_objectrole_fk
safe_m2m_add attempts to_add existing = elim attempts.first [
  | none ↦ some (existing ++ to_add)
  | some e ↦
      if is_stale_objectrole_fk e
      then retry_add attempts (filter_by (λ r. contains r attempts.alive) to_add) existing
      else none
]

-- the difference of two sets
abbrev pub minus : List ℕ → List ℕ → List ℕ
minus xs ys = filter_by (λ x. not (contains x ys)) xs

abbrev pub add_missing : Attempts → List ℕ → List ℕ → Option (List ℕ)
add_missing attempts [] existing = some existing
add_missing attempts (r ∷ rs) existing = safe_m2m_add attempts (r ∷ rs) existing

-- the body of the loop that writes: what is missing is added, what is too much is removed
unfoldable pub update_team : Attempts → List ℕ → List ℕ → Option (List ℕ)
unfolding safe_m2m_add
update_team attempts expected existing =
    elim (add_missing attempts (minus expected existing) existing) [
      | none ↦ none
      | some now ↦ some (minus now (minus existing expected))
    ]

abbrev pub roles_of : Graph → List ℕ → List ℕ
roles_of direct [] = []
roles_of direct (t ∷ ts) = get_or t [] direct ++ roles_of direct ts

-- `all_member_roles`, from the items of the direct roles
abbrev pub collect_roles : Graph → Graph → Graph → Option Graph
collect_roles parents direct [] = some []
collect_roles parents direct ((t, roles) ∷ rest) = elim (parents_of parents t) [
  | none ↦ none
  | some above ↦ elim (collect_roles parents direct rest) [
    | none ↦ none
    | some all ↦ some ((t, roles ++ roles_of direct above) ∷ all)
  ]
]

-- `team_team_children`
abbrev pub invert : Graph → Graph → Graph
invert [] d = d
invert ((child, parents) ∷ g) d = invert g (push_each parents child d)

abbrev pub descendants : Graph → List ℕ → Option (List ℕ)
descendants children [] = some []
descendants children (t ∷ ts) = elim (children_of children t) [
  | none ↦ none
  | some below ↦ elim (descendants children ts) [ none ↦ none | some rest ↦ some (below ++ rest) ]
]

-- the ids of the teams to write, where `none` is all of them
unfoldable pub scope_of : Graph → Option (List ℕ) → Option (Option (List ℕ))
scope_of parents none = some none
scope_of parents (some ids) = elim (descendants (invert parents []) ids) [
  | none ↦ none
  | some below ↦ some (some (ids ++ below))
]

abbrev pub in_scope : Option (List ℕ) → ℕ → Bool
in_scope none t = true
in_scope (some ids) t = contains t ids

abbrev pub update_teams :
    (ℕ → Attempts) → Option (List ℕ) → Graph → List Team → Graph → Option Graph
update_teams attempts scope expected [] member = some member
update_teams attempts scope expected (t ∷ ts) member = elim (in_scope scope t.id) [
  | false ↦ update_teams attempts scope expected ts member
  | true ↦ elim (update_team (attempts t.id) (get_or t.id [] expected) (get_or t.id [] member)) [
    | none ↦ none
    | some now ↦ update_teams attempts scope expected ts (set t.id now member)
  ]
]

abbrev pub write_teams :
    (ℕ → Attempts) → List Team → Graph → Option (Option (List ℕ)) → Option Graph → Option Graph
write_teams attempts teams member none expected = none
write_teams attempts teams member (some scope) none = none
write_teams attempts teams member (some scope) (some expected) =
    update_teams attempts scope expected teams member

-- The relation `member_roles` after the call, from the rows of the database; `none` is an error of
-- the database that is raised.
unfoldable pub compute_team_member_roles :
    Bool → List Team → List ObjectRole → (ℕ → Attempts) → Option (List ℕ) → Graph → Option Graph
unfolding get_org_team_mapping get_direct_team_member_roles get_parent_teams_of_teams scope_of
    update_team
compute_team_member_roles has_parent teams roles attempts team_ids member =
    let mapping = get_org_team_mapping has_parent teams in
    let direct = get_direct_team_member_roles mapping roles in
    let parents = get_parent_teams_of_teams mapping roles in
    write_teams attempts teams member (scope_of parents team_ids)
      (collect_roles parents direct direct)
