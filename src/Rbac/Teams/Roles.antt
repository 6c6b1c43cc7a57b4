-- ===== src/Rbac/Teams/Roles.antt =====
-- The member roles that `compute_team_member_roles` of ansible_base/rbac/caching.py writes.
use django_ansible_base.Base.{
  ℕ, ◌≡◌, refl, ◌∙◌, Bool, true, false, not, ◌&&◌, ◌||◌, Option, none, some, List, [], ◌∷◌, ◌++◌,
  ◌==◌, nat_eq, contains, contains-append, contains-filter_by, if◌then◌else◌, any, arith,
  Bool-cases, inl, inr, beq→eq, subst,
}
use django_ansible_base.Base.Dict.{get_or, set, get_or-set}
use django_ansible_base.Rbac.Graph.{Graph}
use django_ansible_base.Rbac.Teams.{
  Team, Attempts, add_missing, safe_m2m_add, minus, update_team, in_scope, update_teams,
}
use django_ansible_base.Rbac.Teams.Mappings.{at}

-- No concurrent deletion gets in the way of the write.
abbrev pub HasNoConflict : (ℕ → Attempts) → Type 0
HasNoConflict attempts = (t : ℕ) → (attempts t).first ≡ none

add_missing-none :
    (attempts : Attempts) (xs existing : List ℕ)
    → attempts.first ≡ none
    → (now : List ℕ) × (add_missing attempts xs existing ≡ some now)
      × ((x : ℕ) → contains x now ≡ (contains x existing || contains x xs))
add_missing-none attempts [] existing h = (existing, refl, λ x. ground arith)
add_missing-none attempts (r ∷ rs) existing h = (
  existing ++ (r ∷ rs),
  unfold safe_m2m_add in rw h refl,
  λ x. contains-append x existing (r ∷ rs),
)

-- Without a conflict the write of a team leaves exactly the expected roles.
pub update_team-contains :
    (attempts : Attempts) (expected existing : List ℕ)
    → attempts.first ≡ none
    → (now : List ℕ) × (update_team attempts expected existing ≡ some now)
      × ((x : ℕ) → contains x now ≡ contains x expected)
unfolding update_team
update_team-contains attempts expected existing h =
    let (now, e, c) = add_missing-none attempts (minus expected existing) existing h in
    (
      minus now (minus existing expected),
      rw (e, update_team) refl,
      λ x. ground (
        arith,
        c x,
        contains-filter_by (λ y. not (contains y (minus existing expected))) x now,
        contains-filter_by (λ y. not (contains y existing)) x expected,
        contains-filter_by (λ y. not (contains y expected)) x existing,
      ),
    )

abbrev pub is_team : ℕ → List Team → Bool
is_team t teams = any (λ u. u.id == t) teams

at-set :
    (k t x : ℕ) (now : List ℕ) (member : Graph)
    → at t x (set k now member) ≡ (if k == t then contains x now else at t x member)
at-set k t x now member = rw (get_or-set k t now [] member) (ground arith)

-- one team written, then the others
written_team :
    (scope : Option (List ℕ)) (expected member after : Graph) (k : ℕ) (us : List Team)
    (now : List ℕ) (t x : ℕ)
    → in_scope scope k ≡ true
    → contains x now ≡ at k x expected
    → at t x after
      ≡ (if is_team t us && in_scope scope t then at t x expected else at t x (set k now member))
    → at t x after
      ≡ (if (k == t || is_team t us) && in_scope scope t then at t x expected else at t x member)
written_team scope expected member after k us now t x q c e = elim (Bool-cases (k == t)) [
  | inl j ↦
      let q' = subst (λ y. in_scope scope y ≡ true) (beq→eq k t j) q in
      let c' = subst (λ y. contains x now ≡ at y x expected) (beq→eq k t j) c in
      ground (arith, at-set k t x now member)
  | inr j ↦ ground (arith, at-set k t x now member)
]

skipped_team :
    (scope : Option (List ℕ)) (expected member : Graph) (k : ℕ) (us : List Team) (t x : ℕ)
    → in_scope scope k ≡ false
    → (if is_team t us && in_scope scope t then at t x expected else at t x member)
      ≡ (if (k == t || is_team t us) && in_scope scope t then at t x expected else at t x member)
skipped_team scope expected member k us t x q = elim (Bool-cases (k == t)) [
  | inl j ↦ let q' = subst (λ y. in_scope scope y ≡ false) (beq→eq k t j) q in ground arith
  | inr j ↦ ground arith
]

update_teams-next :
    (attempts : ℕ → Attempts) (scope : Option (List ℕ)) (expected : Graph) (u : Team)
    (us : List Team) (member : Graph) (now : List ℕ)
    → in_scope scope u.id ≡ true
    → update_team (attempts u.id) (get_or u.id [] expected) (get_or u.id [] member) ≡ some now
    → update_teams attempts scope expected (u ∷ us) member
      ≡ update_teams attempts scope expected us (set u.id now member)
update_teams-next attempts scope expected u us member now q e = rw (q, e, update_teams) refl

pub update_teams-none :
    (attempts : ℕ → Attempts) (scope : Option (List ℕ)) (expected : Graph) (teams : List Team)
    (member : Graph)
    → HasNoConflict attempts
    → (after : Graph) × (update_teams attempts scope expected teams member ≡ some after)
      × ((t x : ℕ)
          → at t x after
            ≡ (if is_team t teams && in_scope scope t then at t x expected else at t x member))
update_teams-none attempts scope expected [] member h = (member, refl, λ t x. refl)
update_teams-none attempts scope expected (u ∷ us) member h =
    elim (Bool-cases (in_scope scope u.id)) [
      | inl q ↦
          let (now, e, c) =
            update_team-contains (attempts u.id) (get_or u.id [] expected) (get_or u.id [] member)
              (h u.id) in
          let (after, f, k) =
            update_teams-none attempts scope expected us (set u.id now member) h in
          (
            after,
            update_teams-next attempts scope expected u us member now q e ∙ f,
            λ t x. written_team scope expected member after u.id us now t x q (c x) (k t x),
          )
      | inr q ↦
          let (after, f, k) = update_teams-none attempts scope expected us member h in
          (
            after,
            rw (q, update_teams) f,
            λ t x. k t x ∙ skipped_team scope expected member u.id us t x q,
          )
    ]
