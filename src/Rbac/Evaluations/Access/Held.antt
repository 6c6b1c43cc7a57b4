-- ===== src/Rbac/Evaluations/Access/Held.antt =====
-- The whole of the computed data: `compute_team_member_roles` and `recompute_role_evaluations` of
-- ansible_base/rbac/caching.py, then `has_obj_perm` of ansible_base/rbac/models/role.py.
use mathlib.Core.List.{Memᴰ}
use django_ansible_base.Base.{
  ℕ, ◌≡◌, refl, sym, ap, ◌∙◌, String, Bool, true, none, some, List, [], ◌∷◌, nat_eq, string_eq, inl,
  inr, ◌⊎◌, ◌↔◌, map, filter_by, contains, contains-filter_by, arith, ok,
}
use django_ansible_base.Rbac.Graph.{Graph}
use django_ansible_base.Rbac.Teams as Teams
use django_ansible_base.Rbac.Teams.{
  Team, Attempts, no_conflict, compute_team_member_roles, get_org_team_mapping,
}
use django_ansible_base.Rbac.Teams.Mappings.{at}
use django_ansible_base.Rbac.Teams.Roles.{HasNoConflict, is_team}
use django_ansible_base.Rbac.Teams.Laws.{Provides, compute_team_member_roles-Provides}
use django_ansible_base.Rbac.Evaluations.Keys.{Pk, by_id, Key, key_eq}
use django_ansible_base.Rbac.Evaluations.Expected.{ObjectRole, World}
use django_ansible_base.Rbac.Evaluations.Updates.{
  Tables, Holders, has_row, recompute_role_evaluations,
}
use django_ansible_base.Rbac.Evaluations.Updates.Laws.{granted, IsValid}
use django_ansible_base.Rbac.Evaluations.Updates.Recompute.{Recomputable}
use django_ansible_base.Rbac.Evaluations.Updates.Exact.{recompute_role_evaluations-granted}
use django_ansible_base.Rbac.Evaluations.Access.{Actor, has_obj_perm}
use django_ansible_base.Rbac.Evaluations.Access.Laws.{
  gives_key, has_obj_perm-has_row, granted-teams,
}

abbrev ids_of : List Team → List ℕ
ids_of [] = []
ids_of (t ∷ ts) = t.id ∷ ids_of ts

contains-ids_of : (t : ℕ) (teams : List Team) → contains t (ids_of teams) ≡ is_team t teams
contains-ids_of t [] = refl
contains-ids_of t (u ∷ us) = ground (arith, contains-ids_of t us)

-- `provides_teams`, the relation `member_roles` from the side of the roles
abbrev pub holders_of : List Team → (ℕ → List ObjectRole) → Graph → Holders
holders_of teams has_roles member = record {
  provides_teams = λ role_pk. filter_by (λ t. at t role_pk member) (ids_of teams);
  has_roles = has_roles;
}

module _ (w : World) (role_of : ℕ → ObjectRole) (has_roles : ℕ → List ObjectRole) where
  -- An actor is assigned a role that gives the key, or one that provides membership of a team, directly
  -- or through a chain of teams, which holds a role that gives the key.
  abbrev pub IsHeld : Graph → List Team → List Teams.ObjectRole → Actor → Key → Type 0
  IsHeld mapping teams rows actor k =
      (r : ℕ) × (contains r actor.object_roles ≡ true)
      × ((gives_key w k (role_of r) ≡ true)
          ⊎ ((t : ℕ) × (is_team t teams ≡ true)
              × Provides mapping rows r t
              × (other : ObjectRole) × Memᴰ other (has_roles t)
              × (gives_key w k other ≡ true)))

  -- Without concurrent changes, for valid tables and roles that satisfy the conditions of the
  -- recomputation, both computations end without an error, and afterwards an actor whose roles were
  -- all recomputed has a permission to an object if and only if an assigned role gives it, or an
  -- assigned role provides membership of a team that holds a role that gives it.
  pub has_obj_perm-IsHeld :
      (has_parent : Bool) (teams : List Team) (rows : List Teams.ObjectRole)
      (attempts : ℕ → Attempts) (member : Graph) (pks : List ℕ) (t : Tables) (actor : Actor)
      → HasNoConflict attempts
      → IsValid t
      → ((after : Graph) → Recomputable w (holders_of teams has_roles after) role_of pks)
      → ((r : ℕ) → contains r actor.object_roles ≡ true → contains r pks ≡ true)
      → (after : Graph) × (compute_team_member_roles has_parent teams rows attempts none member
          ≡ some after)
        × (t' : Tables) × (recompute_role_evaluations w
              (holders_of teams has_roles after)
              no_conflict
              no_conflict
              true
              none
              none
              (map role_of pks)
              t
            ≡ ok t')
        × ((ct : ℕ) (pk : Pk) (codename : String)
            → (has_obj_perm t'.rows actor ct pk codename ≡ true)
              ↔ IsHeld
                  (get_org_team_mapping has_parent teams)
                  teams
                  rows
                  actor
                  (codename, (by_id ct, pk)))
  has_obj_perm-IsHeld has_parent teams rows attempts member pks t actor quiet v p covers =
      let (after, e, computed) =
        compute_team_member_roles-Provides has_parent teams rows attempts none member quiet in
      let h = holders_of teams has_roles after in
      let (t', f, v', exact) = recompute_role_evaluations-granted w h role_of t pks v (p after) in
      (
        after,
        e,
        t',
        f,
        λ ct pk codename.
            let k : Key = (codename, (by_id ct, pk)) in
            let asked = has_obj_perm-has_row t'.rows actor ct codename pk in
            let row_iff : (r : ℕ)
                → contains r pks ≡ true
                → has_row r k t'.rows ≡ contains k (granted w h (role_of r)) =
              λ r c. exact r k ∙ rw c refl in
            let own : (r : ℕ) → contains r pks ≡ true → (role_of r).pk ≡ r =
              λ r c. (p after r c).0 in
            (
              λ yes.
                  let (r, a, row) = asked.0 yes in
                  let c = covers r a in
                  (
                    r,
                    a,
                    elim ((granted-teams w h k (role_of r)).0 (sym (row_iff r c) ∙ row)) [
                      | inl g ↦ inl g
                      | inr (u, d, other, m, g) ↦
                          let d' : contains u (h.provides_teams r) ≡ true =
                            ap (λ x. contains u (h.provides_teams x)) (sym (own r c)) ∙ d in
                          let both = contains-filter_by (λ x. at x r after) u (ids_of teams) in
                          let is = sym (contains-ids_of u teams) in
                          inr (
                            u,
                            ground arith,
                            ((computed u r).0 (ground arith) tt).0 (ground arith),
                            other,
                            m,
                            g,
                          )
                    ],
                  ),
              λ (r, a, x).
                  let c = covers r a in
                  asked.1 (
                    r,
                    a,
                    row_iff r c
                        ∙ (granted-teams w h k (role_of r)).1 (elim x [
                          | inl g ↦ inl g
                          | inr (u, is, provides, other, m, g) ↦
                              let holds = ((computed u r).0 is tt).1 provides in
                              let both = contains-filter_by (λ x. at x r after) u (ids_of teams) in
                              let there = contains-ids_of u teams in
                              inr (
                                u,
                                ap (λ y. contains u (h.provides_teams y)) (own r c) ∙ ground arith,
                                other,
                                m,
                                g,
                              )
                        ]),
                  ),
            ),
      )
