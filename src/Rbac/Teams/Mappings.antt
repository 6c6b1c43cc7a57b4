-- ===== src/Rbac/Teams/Mappings.antt =====
-- What the mappings of ansible_base/rbac/caching.py hold: the teams that each role gives membership
-- of, and the teams that hold such a role.
use django_ansible_base.Base.{
  ℕ, ◌≡◌, refl, ap, ◌∙◌, Bool, false, ◌&&◌, ◌||◌, List, [], ◌∷◌, ◌++◌, ◌==◌, nat_eq, contains,
  contains-append, filter_by, any, arith, Bool-cases, inl, inr, beq→eq,
}
use django_ansible_base.Base.Dict.{get_or, get_or-set}
use django_ansible_base.Rbac.Graph.{Graph}
use django_ansible_base.Rbac.Teams.{
  ObjectRole, push, push_each, member_teams, direct_roles, get_direct_team_member_roles, has_teams,
  is_nonempty, push_actors, parent_teams, get_parent_teams_of_teams,
}

-- `v` is in the list at `k`
abbrev pub at : ℕ → ℕ → Graph → Bool
at k v d = contains v (get_or k [] d)

pub at-push : (k v j w : ℕ) (d : Graph) → at j w (push k v d) ≡ (at j w d || (k == j && v == w))
at-push k v j w d =
    rw (get_or-set k j (get_or k [] d ++ (v ∷ [])) [] d) (elim (Bool-cases (k == j)) [
      | inl q ↦ rw (q, contains-append w (get_or k [] d) (v ∷ []), beq→eq k j q) (ground arith)
      | inr q ↦ rw q (ground arith)
    ])

pub at-push_each :
    (ks : List ℕ) (v j w : ℕ) (d : Graph)
    → at j w (push_each ks v d) ≡ (at j w d || (contains j ks && v == w))
at-push_each [] v j w d = ground arith
at-push_each (k ∷ ks) v j w d =
    rw (at-push_each ks v j w (push k v d), at-push k v j w d) (ground arith)

module _ (mapping : Graph) where
  -- a role `x` among the rows gives membership of the team `t` itself
  abbrev pub gives : List ObjectRole → ℕ → ℕ → Bool
  gives roles x t = any (λ r. contains t (member_teams mapping r.target) && r.id == x) roles

  -- the team `a` holds a role that gives membership of `t`
  abbrev pub links : List ObjectRole → ℕ → ℕ → Bool
  links roles t a =
      any (λ r. contains a r.teams && contains t (member_teams mapping r.target)) roles

  at-direct_roles :
      (roles : List ObjectRole) (d : Graph) (t x : ℕ)
      → at t x (direct_roles mapping roles d) ≡ (at t x d || gives roles x t)
  at-direct_roles [] d t x = ground arith
  at-direct_roles (r ∷ rs) d t x =
      let ids = member_teams mapping r.target in
      rw (at-direct_roles rs (push_each ids r.id d) t x, at-push_each ids r.id t x d) (ground arith)

  at-push_actors :
      (actors : List ℕ) (ids : List ℕ) (d : Graph) (t a : ℕ)
      → at t a (push_actors actors ids d) ≡ (at t a d || (contains a actors && contains t ids))
  at-push_actors [] ids d t a = ground arith
  at-push_actors (b ∷ rest) ids d t a =
      rw (at-push_actors rest ids (push_each ids b d) t a, at-push_each ids b t a d) (ground arith)

  at-parent_teams :
      (roles : List ObjectRole) (d : Graph) (t a : ℕ)
      → at t a (parent_teams mapping roles d) ≡ (at t a d || links roles t a)
  at-parent_teams [] d t a = ground arith
  at-parent_teams (r ∷ rs) d t a =
      let ids = member_teams mapping r.target in
      rw (at-parent_teams rs (push_actors r.teams ids d) t a, at-push_actors r.teams ids d t a)
        (ground arith)

  contains-is_nonempty : (xs : List ℕ) (a : ℕ) → is_nonempty xs ≡ false → contains a xs ≡ false
  contains-is_nonempty [] a h = refl
  contains-is_nonempty (x ∷ xs) a h = absurd (cc)

  links-has_teams :
      (roles : List ObjectRole) (t a : ℕ) → links (filter_by has_teams roles) t a ≡ links roles t a
  links-has_teams [] t a = refl
  links-has_teams (r ∷ rs) t a = elim (Bool-cases (has_teams r)) [
    | inl q ↦ rw q (
        ap (λ b. contains a r.teams && contains t (member_teams mapping r.target) || b)
          (links-has_teams rs t a))
    | inr q ↦ rw (q, contains-is_nonempty r.teams a q) (links-has_teams rs t a)
  ]

  pub at-direct :
      (roles : List ObjectRole) (t x : ℕ)
      → at t x (get_direct_team_member_roles mapping roles) ≡ gives roles x t
  unfolding get_direct_team_member_roles
  at-direct roles t x = at-direct_roles roles [] t x

  pub at-parents :
      (roles : List ObjectRole) (t a : ℕ)
      → at t a (get_parent_teams_of_teams mapping roles) ≡ links roles t a
  unfolding get_parent_teams_of_teams
  at-parents roles t a =
      at-parent_teams (filter_by has_teams roles) [] t a ∙ links-has_teams roles t a
