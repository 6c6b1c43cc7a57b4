-- ===== src/Rbac/Teams/Scope.antt =====
-- The teams that `compute_team_member_roles` of ansible_base/rbac/caching.py writes when it is given
-- a set of teams.
use django_ansible_base.Base.{
  ℕ, ◌≡◌, refl, sym, ◌∙◌, Bool, true, false, ◌&&◌, ◌||◌, Option, none, some, List, [], ◌∷◌, ◌++◌,
  ◌==◌, nat_eq, contains, contains-append, filter_by, arith, Bool-cases, inl, inr, beq→eq, beq_refl,
  ◌↔◌, ◌⊎◌, subst,
}
use django_ansible_base.Base.Dict.{get_or, has_key, IsDistinct, set-IsDistinct}
use django_ansible_base.Rbac.Graph.{Graph}
use django_ansible_base.Rbac.Graph.Laws.{Above, direct, further, Above-first, children_of-Above}
use django_ansible_base.Rbac.Teams.{
  ObjectRole, push_each, push_actors, parent_teams, member_teams, has_teams, invert, descendants,
  scope_of, in_scope, get_parent_teams_of_teams,
}
use django_ansible_base.Rbac.Teams.Mappings.{at, at-push_each}

-- The parents are a dict

push_each-IsDistinct :
    (ks : List ℕ) (v : ℕ) (d : Graph) → IsDistinct d → IsDistinct (push_each ks v d)
push_each-IsDistinct [] v d h = h
push_each-IsDistinct (k ∷ ks) v d h =
    push_each-IsDistinct ks v _ (set-IsDistinct k (get_or k [] d ++ (v ∷ [])) d h)

push_actors-IsDistinct :
    (actors ids : List ℕ) (d : Graph) → IsDistinct d → IsDistinct (push_actors actors ids d)
push_actors-IsDistinct [] ids d h = h
push_actors-IsDistinct (a ∷ rest) ids d h =
    push_actors-IsDistinct rest ids _ (push_each-IsDistinct ids a d h)

parent_teams-IsDistinct :
    (mapping : Graph) (roles : List ObjectRole) (d : Graph)
    → IsDistinct d
    → IsDistinct (parent_teams mapping roles d)
parent_teams-IsDistinct mapping [] d h = h
parent_teams-IsDistinct mapping (r ∷ rs) d h =
    parent_teams-IsDistinct mapping rs _
      (push_actors-IsDistinct r.teams (member_teams mapping r.target) d h)

pub get_parent_teams_of_teams-IsDistinct :
    (mapping : Graph) (roles : List ObjectRole)
    → IsDistinct (get_parent_teams_of_teams mapping roles)
unfolding get_parent_teams_of_teams
get_parent_teams_of_teams-IsDistinct mapping roles =
    parent_teams-IsDistinct mapping (filter_by has_teams roles) [] tt

-- an entry of the mapping, wherever it stands
abbrev entries : Graph → ℕ → ℕ → Bool
entries [] t u = false
entries ((k, ps) ∷ g) t u = contains u ps && k == t || entries g t u

entries-has_key : (g : Graph) (t u : ℕ) → has_key t g ≡ false → entries g t u ≡ false
entries-has_key [] t u h = refl
entries-has_key ((k, ps) ∷ g) t u h = ground (arith, entries-has_key g t u)

at-invert-entries : (g d : Graph) (t u : ℕ) → at u t (invert g d) ≡ (at u t d || entries g t u)
at-invert-entries [] d t u = ground arith
at-invert-entries ((k, ps) ∷ g) d t u =
    rw (at-invert-entries g (push_each ps k d) t u, at-push_each ps k u t d) (ground arith)

entries-at : (g : Graph) (t u : ℕ) → IsDistinct g → entries g t u ≡ at t u g
entries-at [] t u h = refl
entries-at ((k, ps) ∷ g) t u (fresh, h) = elim (Bool-cases (k == t)) [
  | inl q ↦
      let fresh' = subst (λ j. has_key j g ≡ false) (beq→eq k t q) fresh in
      rw (q, at, get_or) (ground (arith, entries-has_key g t u fresh'))
  | inr q ↦ rw (q, at, get_or) (ground (arith, entries-at g t u h))
]

at-invert : (g : Graph) (t u : ℕ) → IsDistinct g → at u t (invert g []) ≡ at t u g
at-invert g t u h = at-invert-entries g [] t u ∙ entries-at g t u h

-- Chains in a mapping are chains in its inverse, the other way round.
reverse :
    (g g' : Graph)
    → ((a b : ℕ) → at a b g ≡ true → at b a g' ≡ true)
    → {t u : ℕ} → Above g t u
    → Above g' u t
reverse g g' h {t} {u} (direct m) = direct (h t u m)
reverse g g' h {t} {u} (further {p = p} above m) = Above-first g' (h p u m) (reverse g g' h above)

abbrev pub Below : Graph → List ℕ → ℕ → Type 0
Below children ids q = (u : ℕ) × (contains u ids ≡ true) × Above children u q

descendants-Below :
    (children : Graph) (ids : List ℕ)
    → (out : List ℕ) × (descendants children ids ≡ some out)
      × ((q : ℕ) → (contains q out ≡ true) ↔ Below children ids q)
descendants-Below children [] = ([], refl, λ q. (λ m. absurd (cc), λ b. absurd (cc (b.1))))
descendants-Below children (t ∷ ts) =
    let (below, e, h) = children_of-Above children t in
    let (rest, f, k) = descendants-Below children ts in
    (
      below ++ rest,
      rw (e, f, descendants) refl,
      λ q. (
        λ m. elim (Bool-cases (contains q below)) [
          | inl j ↦ (t, ground (arith, beq_refl t), (h q).0 j)
          | inr j ↦
              let (u, n, a) = (k q).0 (ground (arith, contains-append q below rest)) in
              (u, ground arith, a)
        ],
        λ (u, n, a). elim (Bool-cases (t == u)) [
          | inl j ↦
              let m = (h q).1 (subst (λ y. Above children y q) (sym (beq→eq t u j)) a) in
              ground (arith, contains-append q below rest)
          | inr j ↦
              let m = (k q).1 (u, ground arith, a) in ground (arith, contains-append q below rest)
        ],
      ),
    )

-- The teams that a call is about: all, or those given and the teams that have one of them above.
abbrev pub IsTouched : Graph → Option (List ℕ) → ℕ → Type 0
IsTouched parents none t = Unit
IsTouched parents (some ids) t =
    (contains t ids ≡ true) ⊎ ((u : ℕ) × (contains u ids ≡ true) × Above parents t u)

-- The teams in the scope of a call are those that it is about.
pub scope_of-IsTouched :
    (parents : Graph) (team_ids : Option (List ℕ))
    → IsDistinct parents
    → (scope : Option (List ℕ)) × (scope_of parents team_ids ≡ some scope)
      × ((t : ℕ) → (in_scope scope t ≡ true) ↔ IsTouched parents team_ids t)
unfolding scope_of
scope_of-IsTouched parents none h = (none, refl, λ t. (λ m. tt, λ u. refl))
scope_of-IsTouched parents (some ids) h =
    let children = invert parents [] in
    let (below, e, k) = descendants-Below children ids in
    let up : (a b : ℕ) → Above children a b → Above parents b a =
      (λ a b. reverse children parents (λ c d m. sym (at-invert parents d c h) ∙ m)) in
    let down : (a b : ℕ) → Above parents a b → Above children b a =
      (λ a b. reverse parents children (λ c d m. at-invert parents c d h ∙ m)) in
    (
      some (ids ++ below),
      rw (e, scope_of) refl,
      λ t. (
        λ m. elim (Bool-cases (contains t ids)) [
          | inl q ↦ inl q
          | inr q ↦
              let (u, n, a) = (k t).0 (ground (arith, contains-append t ids below)) in
              inr (u, n, up u t a)
        ],
        λ s. elim s [
          | inl q ↦ ground (arith, contains-append t ids below)
          | inr (u, n, a) ↦ ground (arith, contains-append t ids below, (k t).1 (u, n, down t u a))
        ],
      ),
    )
