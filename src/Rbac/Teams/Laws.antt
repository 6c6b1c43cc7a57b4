-- ===== src/Rbac/Teams/Laws.antt =====
-- `compute_team_member_roles` of ansible_base/rbac/caching.py against a description by chains of
-- memberships.
use django_ansible_base.Base.{
  ℕ, ◌≡◌, sym, ◌∙◌, Bool, true, Option, some, List, [], ◌∷◌, nat_eq, contains, arith, Bool-cases,
  inl, inr, beq_refl, ◌↔◌, ◌⊎◌,
}
use django_ansible_base.Base.Dict.{has_key}
use django_ansible_base.Rbac.Graph.{Graph}
use django_ansible_base.Rbac.Graph.Laws.{Above, direct, further, Above-first}
use django_ansible_base.Rbac.Teams.{
  ObjectRole, Team, Attempts, in_scope, compute_team_member_roles, member_teams,
  get_org_team_mapping, get_direct_team_member_roles, get_parent_teams_of_teams,
}
use django_ansible_base.Rbac.Teams.Roles.{HasNoConflict, is_team, update_teams-none}
use django_ansible_base.Rbac.Teams.Inherited.{Inherits, HasRoles, collect_roles-some}
use django_ansible_base.Rbac.Teams.Scope.{
  IsTouched, scope_of-IsTouched, get_parent_teams_of_teams-IsDistinct,
}
use django_ansible_base.Rbac.Teams.Mappings.{at, gives, links, at-direct, at-parents}

-- A role gives membership of a team if it is about the team or its organization, or if it gives
-- membership of another team that holds a role that gives membership of the team.
pub data Provides (mapping : Graph) (roles : List ObjectRole) : ℕ → ℕ → Type 0 where
  itself : {x t : ℕ} → gives mapping roles x t ≡ true → Provides mapping roles x t
  through :
      {x t a : ℕ}
      → links mapping roles t a ≡ true
      → Provides mapping roles x a
      → Provides mapping roles x t

at-has_key : (t x : ℕ) (d : Graph) → at t x d ≡ true → has_key t d ≡ true
at-has_key t x [] m = absurd (cc)
at-has_key t x ((k, v) ∷ d) m = ground (arith, at-has_key t x d)

gives-links :
    (mapping : Graph) (roles : List ObjectRole) (t a : ℕ)
    → links mapping roles t a ≡ true
    → (x : ℕ) × (gives mapping roles x t ≡ true)
gives-links mapping [] t a l = absurd (cc)
gives-links mapping (r ∷ rs) t a l =
    elim (Bool-cases (contains t (member_teams mapping r.target))) [
      | inl q ↦ (r.id, ground (arith, beq_refl r.id))
      | inr q ↦ let (x, h) = gives-links mapping rs t a (ground arith) in (x, ground arith)
    ]

module _ (mapping : Graph) (roles : List ObjectRole) where
  abbrev parents : Graph
  parents = get_parent_teams_of_teams mapping roles

  abbrev base : Graph
  base = get_direct_team_member_roles mapping roles

  Provides-Above :
      {t a x : ℕ} → Above parents t a → Provides mapping roles x a → Provides mapping roles x t
  Provides-Above {t} {a} (direct m) h = through (sym (at-parents mapping roles t a) ∙ m) h
  Provides-Above {t} {a} (further {p = p} above m) h =
      Provides-Above above (through (sym (at-parents mapping roles p a) ∙ m) h)

  Inherits-Provides :
      {x t : ℕ}
      → Provides mapping roles x t
      → (gives mapping roles x t ≡ true) ⊎ Inherits parents base t x
  Inherits-Provides (itself h) = inl h
  Inherits-Provides {x} {t} (through {a = a} l p) =
      let m = at-parents mapping roles t a ∙ l in
      elim (Inherits-Provides p) [
        | inl h ↦ inr (a, direct m, at-direct mapping roles a x ∙ h)
        | inr (b, above, h) ↦ inr (b, Above-first parents m above, h)
      ]

  has_key-links : (t a : ℕ) → links mapping roles t a ≡ true → has_key t base ≡ true
  has_key-links t a l =
      let (x, h) = gives-links mapping roles t a l in
      at-has_key t x base (at-direct mapping roles t x ∙ h)

  has_key-Provides : {x t : ℕ} → Provides mapping roles x t → has_key t base ≡ true
  has_key-Provides {x} {t} (itself h) = at-has_key t x base (at-direct mapping roles t x ∙ h)
  has_key-Provides {x} {t} (through {a = a} l p) = has_key-links t a l

  HasRoles-Provides : (t x : ℕ) → HasRoles parents base base t x ↔ Provides mapping roles x t
  HasRoles-Provides t x = (
    λ h. elim h.1 [
      | inl m ↦ itself (sym (at-direct mapping roles t x) ∙ m)
      | inr (a, above, m) ↦ Provides-Above above (itself (sym (at-direct mapping roles a x) ∙ m))
    ],
    λ p. (
      has_key-Provides p,
      elim (Inherits-Provides p) [ inl h ↦ inl (at-direct mapping roles t x ∙ h) | inr i ↦ inr i ],
    ),
  )

-- The parent teams that the rows state.
abbrev pub team_parents : Bool → List Team → List ObjectRole → Graph
team_parents has_parent teams roles =
    get_parent_teams_of_teams (get_org_team_mapping has_parent teams) roles

-- a team that the call is about has the roles that provide it, any other what it had
abbrev pub IsComputed :
    Bool → List Team → List ObjectRole → Option (List ℕ) → Graph → Graph → ℕ → ℕ → Type 0
IsComputed has_parent teams roles team_ids member after t x =
    (is_team t teams ≡ true
      → IsTouched (team_parents has_parent teams roles) team_ids t
      → (at t x after ≡ true) ↔ Provides (get_org_team_mapping has_parent teams) roles x t)
    × (¬ (IsTouched (team_parents has_parent teams roles) team_ids t)
        → at t x after ≡ at t x member)

-- Without a concurrent deletion the call returns for any rows, loops of teams included. A team that
-- it is about, all or those given and the teams that have one of them above, then has exactly the
-- roles that provide its membership, directly or through a chain of teams; any other team keeps
-- the roles that it had.
pub compute_team_member_roles-Provides :
    (has_parent : Bool) (teams : List Team) (roles : List ObjectRole) (attempts : ℕ → Attempts)
    (team_ids : Option (List ℕ)) (member : Graph)
    → HasNoConflict attempts
    → (after : Graph) × (compute_team_member_roles has_parent teams roles attempts team_ids member
        ≡ some after)
      × ((t x : ℕ) → IsComputed has_parent teams roles team_ids member after t x)
unfolding compute_team_member_roles
compute_team_member_roles-Provides has_parent teams roles attempts team_ids member h =
    let mapping = get_org_team_mapping has_parent teams in
    let up = team_parents has_parent teams roles in
    let own = get_direct_team_member_roles mapping roles in
    let (scope, e, s) =
      scope_of-IsTouched up team_ids (get_parent_teams_of_teams-IsDistinct mapping roles) in
    let (expected, f, k) = collect_roles-some up own own in
    let (after, g, u) = update_teams-none attempts scope expected teams member h in
    (
      after,
      rw (e, f) g,
      λ t x. (
        λ is touched.
            let written : at t x after ≡ at t x expected = ground (arith, u t x, (s t).1 touched) in
            let both = HasRoles-Provides mapping roles t x in
            (λ m. both.0 ((k t x).0 (sym written ∙ m)), λ p. written ∙ (k t x).1 (both.1 p)),
        λ no. elim (Bool-cases (in_scope scope t)) [
          | inl q ↦ absurd (no ((s t).0 q))
          | inr q ↦ ground (arith, u t x)
        ],
      ),
    )
