-- ===== src/Rbac/Graph.antt =====
-- `all_team_parents` and `all_team_children` of ansible_base/rbac/caching.py: the search through
-- the teams of teams. The set `seen` that the calls share is passed along and returned; the depth
-- of the calls is the fuel.
pub mod Laws
use django_ansible_base.Base.{
  ℕ, zero, suc, Bool, true, false, Option, none, some, List, [], ◌∷◌, ◌++◌, nat_eq, contains,
  length,
}
use django_ansible_base.Base.Dict.{Dict, get_or}

-- a mapping from a team to teams
abbrev pub Graph : Type 0
Graph = Dict ℕ (List ℕ)

-- what a call returns, and `seen` after it
abbrev pub Found : Type 0
Found = List ℕ × List ℕ

abbrev pub found_before : ℕ → List ℕ → Option Found → Option Found
found_before p above none = none
found_before p above (some (rest, seen)) = some (p ∷ (above ++ rest), seen)

-- the loop over the neighbours, where `visit` is the recursive call
abbrev pub visit_all : (ℕ → List ℕ → Option Found) → List ℕ → List ℕ → Option Found
visit_all visit [] seen = some ([], seen)
visit_all visit (p ∷ ps) seen = elim (contains p seen) [
  | true ↦ visit_all visit ps seen
  | false ↦ elim (visit p (p ∷ seen)) [
    | none ↦ none
    | some (above, seen') ↦ found_before p above (visit_all visit ps seen')
  ]
]

unfoldable pub all_team_parents : Graph → ℕ → ℕ → List ℕ → Option Found
all_team_parents team_team_parents zero team_id seen = none
all_team_parents team_team_parents (suc fuel) team_id seen =
    visit_all (all_team_parents team_team_parents fuel) (get_or team_id [] team_team_parents) seen

pub all_team_children : Graph → ℕ → ℕ → List ℕ → Option Found
all_team_children team_team_children zero team_id seen = none
all_team_children team_team_children (suc fuel) team_id seen =
    visit_all (all_team_children team_team_children fuel) (get_or team_id [] team_team_children)
      seen

-- all teams that a mapping lists as neighbours
abbrev pub listed : Graph → List ℕ
listed [] = []
listed ((t, ps) ∷ g) = ps ++ listed g

-- A depth that is enough: no branch of the search is deeper than the number of listed teams.
abbrev pub enough : Graph → ℕ
enough g = suc (length (listed g))

abbrev fst_of : Option Found → Option (List ℕ)
fst_of none = none
fst_of (some (out, seen)) = some out

-- The call without `seen`.
unfoldable pub parents_of : Graph → ℕ → Option (List ℕ)
unfolding all_team_parents
parents_of g t = fst_of (all_team_parents g (enough g) t [])

pub children_of : Graph → ℕ → Option (List ℕ)
unfolding all_team_children
children_of g t = fst_of (all_team_children g (enough g) t [])
