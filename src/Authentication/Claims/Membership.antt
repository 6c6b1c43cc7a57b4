-- ===== src/Authentication/Claims/Membership.antt =====
-- The memberships of the claims against their role mapping, over the loop of `create_claims`.
use django_ansible_base.Base.{
  String, ◌≡◌, ◌≢◌, refl, sym, ◌∙◌, Bool, true, false, not, ◌&&◌, Option, none, some, List, [], ◌∷◌,
  ok, >>=-eq-ok, ok_injective, ◌==◌, string_eq, if◌then◌else◌, arith, Bool-cases, eq_iff, beq_refl,
  subst, inl, inr, contains,
}
use django_ansible_base.Base.Dict.{Dict, get, get_or, set, get-set}
use django_ansible_base.Authentication.Value.{Value, Python}
use django_ansible_base.Authentication.RoleType.{Roles, is_empty}
use django_ansible_base.Authentication.Expansion.{Templates, expand_syntax}
use django_ansible_base.Authentication.RoleMapping.{RoleMapping, add_rbac_role_mapping}
use django_ansible_base.Authentication.RoleMapping.Laws.{
  Place, everywhere, in_organization, in_team, role_at, role_at-add, IsNamed, same_place,
  organization_of, team_of,
}
use django_ansible_base.Authentication.Claims.{
  AuthenticatorMap, Verdict, skipped, invalid, applied, Claims, initial, Target, nothing, team_role,
  organization_role, system_role, apply_target, set_team, text, target_of, apply_expansion,
  apply_expansions, apply_map, respond, act, decide_map, process_map, process_maps, create_claims,
}

abbrev listed : String → Option (Dict String Bool) → Option Bool
listed team none = none
listed team (some teams) = get team teams

-- what the claims say of membership in a team of an organization
abbrev pub team_member : Claims → String → String → Option Bool
team_member c org team = listed team (get org c.team_membership)

abbrev pub HasRole : RoleMapping → Place → Bool → Type 0
HasRole m p b = (role : String) × (role_at m p role ≡ some b)

-- Each membership is the permission of a role that the mapping has at the same place.
pub record IsConsistent (c : Claims) : Type 0 where
  pub teams :
      (org team : String) (b : Bool)
      → team_member c org team ≡ some b
      → HasRole c.rbac_roles (in_team org team) b
  pub organizations :
      (org : String) (b : Bool)
      → get org c.organization_membership ≡ some b
      → HasRole c.rbac_roles (in_organization org) b

team_member-set_team :
    (org team o t : String) (b : Bool) (d : Dict String (Dict String Bool))
    → listed t (get o (set_team org team b d))
      ≡ (if org == o && team == t then some b else listed t (get o d))
team_member-set_team org team o t b d = ground (
  arith,
  get-set org o (set team b (get_or org [] d)) d,
  get-set team t b (get_or org [] d),
  eq_iff org o,
)

-- A write at a place gives it a role with the permission, and keeps the roles of other places.
module _ (b : Bool) (m : RoleMapping) (role : String) (p : Place) (named : IsNamed p) where
  abbrev added : RoleMapping
  added = add_rbac_role_mapping b m role (organization_of p) (team_of p)

  add_here : (q : Place) (v : Bool) → same_place p q ≡ true → some b ≡ some v → HasRole added q v
  add_here q v s e = (role, role_at-add b m role role p q named ∙ rw (s, beq_refl role) e)

  add_keeps : (q : Place) (v : Bool) → same_place p q ≡ false → HasRole m q v → HasRole added q v
  add_keeps q v s (other, e) = (other, role_at-add b m role other p q named ∙ rw s e)

  -- both, for a table of memberships that is written at the same place
  add-HasRole :
      (q : Place) (v : Bool) (before after : Option Bool)
      → after ≡ (if same_place p q then some b else before)
      → (before ≡ some v → HasRole m q v)
      → after ≡ some v
      → HasRole added q v
  add-HasRole q v before after written old e = elim (Bool-cases (same_place p q)) [
    | inl s ↦ add_here q v s (sym (rw s at written) ∙ e)
    | inr s ↦ add_keeps q v s (old (sym (rw s at written) ∙ e))
  ]

ok_IsConsistent : {c d : Claims} → ok c ≡ ok d → IsConsistent c → IsConsistent d
ok_IsConsistent e k = subst IsConsistent (ok_injective e) k

abbrev NamedTarget : Target → Type 0
NamedTarget nothing = Unit
NamedTarget (team_role org team role) = IsNamed (in_team org team)
NamedTarget (organization_role org role) = IsNamed (in_organization org)
NamedTarget (system_role role) = Unit

apply_target-IsConsistent :
    (b : Bool) (t : Target) (c : Claims)
    → NamedTarget t
    → IsConsistent c
    → IsConsistent (apply_target b t c)
apply_target-IsConsistent b nothing c n k = k
apply_target-IsConsistent b (team_role org team role) c n k =
    let add = add-HasRole b c.rbac_roles role (in_team org team) n in
    record {
      teams = λ o t v.
          add (in_team o t) v (team_member c o t) _
            (team_member-set_team org team o t b c.team_membership) (k.teams o t v);
      organizations = λ o v.
          add (in_organization o) v (get o c.organization_membership) _ refl (k.organizations o v);
    }
apply_target-IsConsistent b (organization_role org role) c n k =
    let add = add-HasRole b c.rbac_roles role (in_organization org) n in
    record {
      teams = λ o t v. add (in_team o t) v (team_member c o t) _ refl (k.teams o t v);
      organizations = λ o v.
          add (in_organization o) v (get o c.organization_membership) _
            (get-set org o b c.organization_membership) (k.organizations o v);
    }
apply_target-IsConsistent b (system_role role) c n k =
    let add = add-HasRole b c.rbac_roles role everywhere n in
    record {
      teams = λ o t v. add (in_team o t) v (team_member c o t) _ refl (k.teams o t v);
      organizations = λ o v.
          add (in_organization o) v (get o c.organization_membership) _ refl (k.organizations o v);
    }

is_empty-text : (o : Option String) → is_empty o ≡ false → text o ≢ ""
unfolding is_empty
is_empty-text none h e = cc
is_empty-text (some s) h e = cc (rw e at h)

record IsWellNamed (t : Target) : Type 0 where
  named : NamedTarget t

IsWellNamed-if :
    (b : Bool) (t u : Target)
    → (b ≡ true → IsWellNamed t)
    → IsWellNamed u
    → IsWellNamed (if b then t else u)
IsWellNamed-if true t u h k = h refl
IsWellNamed-if false t u h k = k

module _ (t : Bool) (org team role : Option String) where
  team_role-IsWellNamed :
      (t && not (is_empty org) && not (is_empty team) && not (is_empty role)) ≡ true
      → IsWellNamed (team_role (text org) (text team) (text role))
  team_role-IsWellNamed h = record {
    named = (is_empty-text org (ground arith), is_empty-text team (ground arith));
  }

  organization_role-IsWellNamed :
      (t && not (is_empty org) && not (is_empty role)) ≡ true
      → IsWellNamed (organization_role (text org) (text role))
  organization_role-IsWellNamed h = record { named = is_empty-text org (ground arith) }

module _ (py : Python) (re : Templates) (roles : Roles) where
  target_of-IsWellNamed :
      (map_type : String) (expanded : Dict String String)
      → IsWellNamed (target_of py re roles map_type expanded)
  target_of-IsWellNamed map_type expanded =
      let org = get "organization" expanded in
      let team = get "team" expanded in
      let role = get "role" expanded in
      IsWellNamed-if _ nothing _ (λ _. record { named = tt })
        (IsWellNamed-if _ (team_role (text org) (text team) (text role)) _
          (team_role-IsWellNamed _ org team role)
          (IsWellNamed-if _ (organization_role (text org) (text role)) _
            (organization_role-IsWellNamed _ org team role)
            (IsWellNamed-if _ (system_role (text role)) nothing (λ _. record { named = tt })
              (record { named = tt }))))

  apply_expansions-IsConsistent :
      (map_type : String) (b : Bool) (xs : List (Dict String String)) (c : Claims)
      → IsConsistent c
      → IsConsistent (apply_expansions py re roles map_type b xs c)
  unfolding apply_expansions
  apply_expansions-IsConsistent map_type b [] c k = k
  apply_expansions-IsConsistent map_type b (x ∷ xs) c k =
      apply_expansions-IsConsistent map_type b xs (apply_expansion py re roles map_type b x c) (
        apply_target-IsConsistent b (target_of py re roles map_type x) c
          (target_of-IsWellNamed map_type x).named k)

  apply_map-IsConsistent :
      (attrs : Dict String Value) (m : AuthenticatorMap) (b : Bool) (c d : Claims)
      → apply_map py re roles attrs m b c ≡ ok d
      → IsConsistent c
      → IsConsistent d
  unfolding apply_map
  apply_map-IsConsistent attrs m b c d e k = elim (Bool-cases (m.map_type == "allow")) [
    | inl q ↦
        ok_IsConsistent (rw (q, apply_map) at e)
          (record { teams = k.teams; organizations = k.organizations })
    | inr q ↦ elim (Bool-cases (m.map_type == "is_superuser")) [
      | inl r ↦
          ok_IsConsistent (rw (q, r, apply_map) at e)
            (record { teams = k.teams; organizations = k.organizations })
      | inr r ↦ elim (Bool-cases (contains m.map_type ("team" ∷ "organization" ∷ "role" ∷ []))) [
        | inl l ↦
            let (xs, p, h) =
              >>=-eq-ok (expand_syntax re attrs m.organization m.role m.team)
                (λ xs. ok (apply_expansions py re roles m.map_type b xs c))
                (rw (q, r, l, apply_map) at e) in
            ok_IsConsistent h (apply_expansions-IsConsistent m.map_type b xs c k)
        | inr l ↦ ok_IsConsistent (rw (q, r, l, apply_map) at e) k
      ]
    ]
  ]

  act-IsConsistent :
      (attrs : Dict String Value) (m : AuthenticatorMap) (v : Verdict) (c d : Claims)
      → act py re roles attrs m v (respond py re roles m v c) ≡ ok d
      → IsConsistent c
      → IsConsistent d
  act-IsConsistent attrs m (applied b) c d e k =
      apply_map-IsConsistent attrs m b _ d e
        (record { teams = k.teams; organizations = k.organizations })
  act-IsConsistent attrs m skipped c d e k =
      ok_IsConsistent e (record { teams = k.teams; organizations = k.organizations })
  act-IsConsistent attrs m invalid c d e k =
      ok_IsConsistent e (record { teams = k.teams; organizations = k.organizations })

  process_maps-IsConsistent :
      (attrs : Dict String Value) (groups : List String) (maps : List AuthenticatorMap)
      (c d : Claims)
      → process_maps py re roles attrs groups maps c ≡ ok d
      → IsConsistent c
      → IsConsistent d
  unfolding process_maps process_map
  process_maps-IsConsistent attrs groups [] c d e k = ok_IsConsistent e k
  process_maps-IsConsistent attrs groups (m ∷ maps) c d e k =
      let (b, p, h) =
        >>=-eq-ok (process_map py re roles attrs groups m c)
          (process_maps py re roles attrs groups maps) e in
      let (v, _, a) =
        >>=-eq-ok (decide_map py re roles attrs groups m)
          (λ v. act py re roles attrs m v (respond py re roles m v c)) p in
      process_maps-IsConsistent attrs groups maps b d h (act-IsConsistent attrs m v c b a k)

  -- In the claims that `create_claims` returns, each team membership is the permission of a role
  -- that the role mapping has in that team, and each organization membership that of a role in
  -- that organization.
  pub create_claims-IsConsistent :
      (maps : List AuthenticatorMap) (attrs : Dict String Value) (groups : List String) (c : Claims)
      → create_claims py re roles maps attrs groups ≡ ok c
      → IsConsistent c
  unfolding create_claims
  create_claims-IsConsistent maps attrs groups c e =
      process_maps-IsConsistent attrs groups maps initial c e
        (record { teams = λ o t b h. cc; organizations = λ o b h. cc })
