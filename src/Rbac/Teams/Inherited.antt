-- ===== src/Rbac/Teams/Inherited.antt =====
-- The roles of each team with those it inherits: `all_member_roles` in `compute_team_member_roles`
-- of ansible_base/rbac/caching.py.
use django_ansible_base.Base.{
  ℕ, ◌≡◌, refl, true, some, List, [], ◌∷◌, ◌++◌, ◌==◌, nat_eq, contains, contains-append, any,
  any_of, any-witness, arith, Bool-cases, inl, inr, beq→eq, ◌↔◌, ◌⊎◌, subst,
}
use django_ansible_base.Base.Dict.{get_or, has_key}
use django_ansible_base.Rbac.Graph.{Graph, parents_of}
use django_ansible_base.Rbac.Graph.Laws.{Above, parents_of-Above}
use django_ansible_base.Rbac.Teams.{roles_of, collect_roles}
use django_ansible_base.Rbac.Teams.Mappings.{at}

collect_roles-next :
    (parents base : Graph) (k : ℕ) (roles : List ℕ) (rest : Graph) (above : List ℕ) (all : Graph)
    → parents_of parents k ≡ some above
    → collect_roles parents base rest ≡ some all
    → collect_roles parents base ((k, roles) ∷ rest)
      ≡ some ((k, roles ++ roles_of base above) ∷ all)
collect_roles-next parents base k roles rest above all e f = rw (e, f, collect_roles) refl

contains-roles_of :
    (base : Graph) (ts : List ℕ) (x : ℕ) → contains x (roles_of base ts) ≡ any (λ a. at a x base) ts
contains-roles_of base [] x = refl
contains-roles_of base (t ∷ ts) x =
    ground
      (arith, contains-append x (get_or t [] base) (roles_of base ts), contains-roles_of base ts x)

-- a team above `t` has the role
abbrev pub Inherits : Graph → Graph → ℕ → ℕ → Type 0
Inherits parents base t x = (a : ℕ) × Above parents t a × (at a x base ≡ true)

contains-inherited :
    (parents base : Graph) (t x : ℕ) (roles above : List ℕ)
    → ((q : ℕ) → (contains q above ≡ true) ↔ Above parents t q)
    → (contains x (roles ++ roles_of base above) ≡ true)
      ↔ ((contains x roles ≡ true) ⊎ Inherits parents base t x)
contains-inherited parents base t x roles above h = (
  λ m. elim (Bool-cases (contains x roles)) [
    | inl q ↦ inl q
    | inr q ↦
        let (a, n, r) =
          any-witness (λ b. at b x base) above
            (ground (
              arith,
              contains-append x roles (roles_of base above),
              contains-roles_of base above x,
            )) in
        inr (a, (h a).0 n, r)
  ],
  λ s. elim s [
    | inl q ↦ ground (arith, contains-append x roles (roles_of base above))
    | inr (a, n, r) ↦ ground (
      arith,
      contains-append x roles (roles_of base above),
      contains-roles_of base above x,
      any_of (λ b. at b x base) above a ((h a).1 n) r,
    )
  ],
)

-- `all_member_roles` at a team
abbrev pub HasRoles : Graph → Graph → Graph → ℕ → ℕ → Type 0
HasRoles parents base items t x =
    (has_key t items ≡ true) × ((at t x items ≡ true) ⊎ Inherits parents base t x)

pub collect_roles-some :
    (parents base items : Graph)
    → (all : Graph) × (collect_roles parents base items ≡ some all)
      × ((t x : ℕ) → (at t x all ≡ true) ↔ HasRoles parents base items t x)
collect_roles-some parents base [] = ([], refl, λ t x. (λ m. absurd (cc), λ m. absurd (cc)))
collect_roles-some parents base ((k, roles) ∷ rest) =
    let (above, e, a) = parents_of-Above parents k in
    let (all, f, c) = collect_roles-some parents base rest in
    (
      (k, roles ++ roles_of base above) ∷ all,
      collect_roles-next parents base k roles rest above all e f,
      λ t x. elim (Bool-cases (k == t)) [
        | inl q ↦
            let a' =
              subst (λ y. (j : ℕ) → (contains j above ≡ true) ↔ Above parents y j) (beq→eq k t q)
                a in
            let both = contains-inherited parents base t x roles above a' in
            rw (q, at, get_or, has_key) (λ m. (refl, both.0 m), λ n. both.1 n.1)
        | inr q ↦ rw (q, at, get_or, has_key) (c t x)
      ],
    )
