-- ===== src/Tests/Teams.antt =====
-- Teams of teams at concrete inputs.
use django_ansible_base.Base.{ℕ, ◌≡◌, refl, true, none, some, List, [], ◌∷◌, contains, nat_eq, ◌↔◌}
use django_ansible_base.Rbac.Graph.{Graph, parents_of, all_team_parents}
use django_ansible_base.Rbac.Graph.Laws.{Above, parents_of-Above}
use django_ansible_base.Rbac.Teams.{
  team, organization, ObjectRole, Team, Attempts, no_conflict, update_team, get_org_team_mapping,
  get_direct_team_member_roles, get_parent_teams_of_teams, scope_of, compute_team_member_roles,
}
use django_ansible_base.Rbac.Teams.Conflicts.{update_team-expected}
use django_ansible_base.Rbac.Teams.Laws.{IsComputed, compute_team_member_roles-Provides}

-- Team 2 holds a role of team 1 and team 1 one of team 2, and role 30 is about the organization of
-- team 3, which holds a role of team 2.
abbrev pub teams : List Team
teams =
    record { id = 1; organization = 5 }
    ∷ record { id = 2; organization = 5 }
    ∷ record { id = 3; organization = 6 }
    ∷ []

abbrev pub roles : List ObjectRole
roles =
    record { id = 10; target = team 1; teams = 2 ∷ [] }
    ∷ record { id = 20; target = team 2; teams = 1 ∷ 3 ∷ [] }
    ∷ record { id = 30; target = organization 6; teams = [] }
    ∷ []

abbrev before : Graph
before = (1, 99 ∷ 10 ∷ []) ∷ (3, 30 ∷ []) ∷ []

all_run :
    compute_team_member_roles true teams roles (λ t. no_conflict) none before
    ≡ some ((1, 10 ∷ 20 ∷ 30 ∷ []) ∷ (3, 30 ∷ []) ∷ (2, 20 ∷ 10 ∷ 20 ∷ 30 ∷ []) ∷ [])
unfolding compute_team_member_roles get_org_team_mapping get_direct_team_member_roles
    get_parent_teams_of_teams scope_of update_team parents_of all_team_parents
all_run = refl

compute_team_member_roles-Provides_example :
    (after : Graph) × (compute_team_member_roles true teams roles
        (λ t. no_conflict)
        (some (3 ∷ []))
        before
      ≡ some after)
    × ((t x : ℕ) → IsComputed true teams roles (some (3 ∷ [])) before after t x)
compute_team_member_roles-Provides_example =
    compute_team_member_roles-Provides true teams roles (λ t. no_conflict) (some (3 ∷ [])) before
      (λ t. refl)

-- The first attempt meets a role that is gone, the second adds what is left.
abbrev race : Attempts
race = record {
  first = some (record { cause = some ("23503", "table dab_rbac_objectrole") });
  second = none;
  alive = 20 ∷ [];
}

race_run : update_team race (10 ∷ 20 ∷ []) (99 ∷ []) ≡ some (20 ∷ [])
unfolding update_team
race_run = refl

update_team-expected_example : contains {A = ℕ} 20 (10 ∷ 20 ∷ []) ≡ true
update_team-expected_example =
    update_team-expected race (10 ∷ 20 ∷ []) (99 ∷ []) (20 ∷ []) race_run 20 refl

abbrev loop : Graph
loop = (1, 2 ∷ []) ∷ (2, 1 ∷ 3 ∷ []) ∷ []

parents_of-Above_example :
    (out : List ℕ) × (parents_of loop 1 ≡ some out)
    × ((q : ℕ) → (contains q out ≡ true) ↔ Above loop 1 q)
parents_of-Above_example = parents_of-Above loop 1
