-- ===== src/Authentication/Reconcile/Stated.antt =====
-- What the claims state for a role on an object, read from the claims themselves, and the calls of
-- `add_or_remove` that `ReconcileUser` of ansible_base/authentication/utils/claims.py makes for them.
use mathlib.Core.List.{Memᴰ}
use mathlib.Core.List.Memᴰ as Memᴰ
use django_ansible_base.Base.{
  ℕ, String, ◌≡◌, refl, sym, subst, ◌∙◌, ap, Bool, Option, none, some, [], ◌∷◌, ◌++◌, inl, inr,
  string_eq,
}
use django_ansible_base.Base.Dict.{Dict}
use django_ansible_base.Authentication.RoleMapping.{RoleMapping, OrganizationRoles}
use django_ansible_base.Authentication.Reconcile.{Subject, organization, team}
use django_ansible_base.Authentication.Reconcile.User.{
  Directory, Mention, role_mentions, team_mentions, compute_team_permissions, organization_mentions,
  compute_organization_permissions, org_team_mentions, compute_teams, mentions,
}

-- The claims give a role (or refuse it, by the flag) on all, on an organization that exists, or on a
-- team that exists in an organization that exists.
pub data States (dir : Directory) (claims : RoleMapping) (role : String) (object : Option Subject)
    (b : Bool) : Type 0 where
  on_all : object ≡ none → Memᴰ (role, b) claims.system → States dir claims role object b
  on_organization :
      (name : Option String) (details : OrganizationRoles) (id : ℕ)
      → Memᴰ (name, details) claims.organizations
      → dir.find_organization name ≡ some id
      → Memᴰ (role, b) details.roles
      → object ≡ some (organization id)
      → States dir claims role object b
  on_team :
      (name : Option String) (details : OrganizationRoles) (org : ℕ) (team_name : String)
      (roles : Dict String Bool) (id : ℕ)
      → Memᴰ (name, details) claims.organizations
      → dir.find_organization name ≡ some org
      → Memᴰ (team_name, roles) details.teams
      → dir.find_team org team_name ≡ some id
      → Memᴰ (role, b) roles
      → object ≡ some (team id)
      → States dir claims role object b

-- A mention of one of these roles on an object.
abbrev OfRoles : Mention → Dict String Bool → Option Subject → Type 0
OfRoles x roles object = Memᴰ (x.role, x.has_permission) roles × (x.object ≡ object)

role_mentions-OfRoles :
    (x : Mention) (object : Option Subject) (roles : Dict String Bool)
    → Memᴰ x (role_mentions object roles)
    → OfRoles x roles object
role_mentions-OfRoles x object [] m = elim m [ ]
role_mentions-OfRoles x object ((role, b) ∷ rest) (Memᴰ.head e) =
    (Memᴰ.head (ap (λ (y : Mention). (y.role, y.has_permission)) e), ap Mention.object e)
role_mentions-OfRoles x object ((role, b) ∷ rest) (Memᴰ.tail m) =
    let (n, e) = role_mentions-OfRoles x object rest m in (Memᴰ.tail n, e)

abbrev pub mention : String → Bool → Option Subject → Mention
mention role b object = record { role = role; has_permission = b; object = object }

Memᴰ-role_mentions :
    (role : String) (b : Bool) (object : Option Subject) (roles : Dict String Bool)
    → Memᴰ (role, b) roles
    → Memᴰ (mention role b object) (role_mentions object roles)
Memᴰ-role_mentions role b object [] m = elim m [ ]
Memᴰ-role_mentions role b object ((r, c) ∷ rest) (Memᴰ.head e) =
    Memᴰ.head (ap (λ (p : String × Bool). mention p.0 p.1 object) e)
Memᴰ-role_mentions role b object ((r, c) ∷ rest) (Memᴰ.tail m) =
    Memᴰ.tail (Memᴰ-role_mentions role b object rest m)

team_mentions-OfRoles :
    (x : Mention) (found : Option ℕ) (roles : Dict String Bool)
    → Memᴰ x (team_mentions found roles)
    → (id : ℕ) × (found ≡ some id) × OfRoles x roles (some (team id))
team_mentions-OfRoles x none roles m = elim m [ ]
team_mentions-OfRoles x (some id) roles m =
    (id, refl, role_mentions-OfRoles x (some (team id)) roles m)

module _ (dir : Directory) where
  compute_team_permissions-OfRoles :
      (x : Mention) (org : ℕ) (teams : Dict String (Dict String Bool))
      → Memᴰ x (compute_team_permissions dir org teams)
      → (name : String) × (roles : Dict String Bool) × (id : ℕ) × Memᴰ (name, roles) teams
        × (dir.find_team org name ≡ some id)
        × OfRoles x roles (some (team id))
  unfolding compute_team_permissions
  compute_team_permissions-OfRoles x org [] m = elim m [ ]
  compute_team_permissions-OfRoles x org ((name, roles) ∷ rest) m =
      elim (Memᴰ.append_cases (team_mentions (dir.find_team org name) roles) m) [
        | inl k ↦
            let (id, f, n) = team_mentions-OfRoles x (dir.find_team org name) roles k in
            (name, roles, id, Memᴰ.head refl, f, n)
        | inr k ↦
            let (other, rs, id, t, f, n) = compute_team_permissions-OfRoles x org rest k in
            (other, rs, id, Memᴰ.tail t, f, n)
      ]

  organization_mentions-OfRoles :
      (x : Mention) (found : Option ℕ) (details : OrganizationRoles)
      → Memᴰ x (organization_mentions found details)
      → (id : ℕ) × (found ≡ some id) × OfRoles x details.roles (some (organization id))
  organization_mentions-OfRoles x none details m = elim m [ ]
  organization_mentions-OfRoles x (some id) details m =
      (id, refl, role_mentions-OfRoles x (some (organization id)) details.roles m)

  compute_organization_permissions-OfRoles :
      (x : Mention) (orgs : Dict (Option String) OrganizationRoles)
      → Memᴰ x (compute_organization_permissions dir orgs)
      → (name : Option String) × (details : OrganizationRoles) × (id : ℕ) × Memᴰ
          (name, details)
          orgs
        × (dir.find_organization name ≡ some id)
        × OfRoles x details.roles (some (organization id))
  unfolding compute_organization_permissions
  compute_organization_permissions-OfRoles x [] m = elim m [ ]
  compute_organization_permissions-OfRoles x ((name, details) ∷ rest) m =
      elim (Memᴰ.append_cases (organization_mentions (dir.find_organization name) details) m) [
        | inl k ↦
            let (id, f, n) =
              organization_mentions-OfRoles x (dir.find_organization name) details k in
            (name, details, id, Memᴰ.head refl, f, n)
        | inr k ↦
            let (other, d, id, t, f, n) = compute_organization_permissions-OfRoles x rest k in
            (other, d, id, Memᴰ.tail t, f, n)
      ]

  org_team_mentions-found :
      (x : Mention) (found : Option ℕ) (details : OrganizationRoles)
      → Memᴰ x (org_team_mentions dir found details)
      → (org : ℕ) × (found ≡ some org) × Memᴰ x (compute_team_permissions dir org details.teams)
  org_team_mentions-found x none details m = elim m [ ]
  org_team_mentions-found x (some org) details m = (org, refl, m)

  compute_teams-found :
      (x : Mention) (orgs : Dict (Option String) OrganizationRoles)
      → Memᴰ x (compute_teams dir orgs)
      → (name : Option String) × (details : OrganizationRoles) × (org : ℕ) × Memᴰ
          (name, details)
          orgs
        × (dir.find_organization name ≡ some org)
        × Memᴰ x (compute_team_permissions dir org details.teams)
  unfolding compute_teams
  compute_teams-found x [] m = elim m [ ]
  compute_teams-found x ((name, details) ∷ rest) m =
      elim (Memᴰ.append_cases (org_team_mentions dir (dir.find_organization name) details) m) [
        | inl k ↦
            let (org, f, n) = org_team_mentions-found x (dir.find_organization name) details k in
            (name, details, org, Memᴰ.head refl, f, n)
        | inr k ↦
            let (other, d, org, t, f, n) = compute_teams-found x rest k in
            (other, d, org, Memᴰ.tail t, f, n)
      ]

  -- each call stands for something that the claims state
  pub mentions-States :
      (claims : RoleMapping) (x : Mention)
      → Memᴰ x (mentions dir claims)
      → States dir claims x.role x.object x.has_permission
  unfolding mentions
  mentions-States claims x m = elim (Memᴰ.append_cases (role_mentions none claims.system) m) [
    | inl k ↦ let (n, e) = role_mentions-OfRoles x none claims.system k in on_all e n
    | inr k ↦
        elim (Memᴰ.append_cases (compute_organization_permissions dir claims.organizations) k) [
          | inl l ↦
              let (name, d, id, t, f, (n, e)) =
                compute_organization_permissions-OfRoles x claims.organizations l in
              on_organization name d id t f n e
          | inr l ↦
              let (name, d, org, t, f, k2) = compute_teams-found x claims.organizations l in
              let (team_name, roles, id, u, g, (n, e)) =
                compute_team_permissions-OfRoles x org d.teams k2 in
              on_team name d org team_name roles id t f u g n e
        ]
  ]

  Memᴰ-compute_team_permissions :
      (x : Mention) (org : ℕ) (teams : Dict String (Dict String Bool)) (name : String)
      (roles : Dict String Bool) (id : ℕ)
      → Memᴰ (name, roles) teams
      → dir.find_team org name ≡ some id
      → Memᴰ x (role_mentions (some (team id)) roles)
      → Memᴰ x (compute_team_permissions dir org teams)
  unfolding compute_team_permissions
  Memᴰ-compute_team_permissions x org [] name roles id m f n = elim m [ ]
  Memᴰ-compute_team_permissions x org ((other, rs) ∷ rest) name roles id (Memᴰ.head e) f n =
      let found =
        ap (λ (p : String × Dict String Bool). team_mentions (dir.find_team org p.0) p.1) e in
      let here : team_mentions (dir.find_team org name) roles
          ≡ role_mentions (some (team id)) roles =
        rw f refl in
      Memᴰ.append_left (compute_team_permissions dir org rest)
        (subst (λ xs. Memᴰ x xs) (sym here ∙ found) n)
  Memᴰ-compute_team_permissions x org ((other, rs) ∷ rest) name roles id (Memᴰ.tail m) f n =
      Memᴰ.append_right (team_mentions (dir.find_team org other) rs)
        (Memᴰ-compute_team_permissions x org rest name roles id m f n)

  module _ (name : Option String) (details : OrganizationRoles) (id : ℕ)
      (found : dir.find_organization name ≡ some id) where
    Memᴰ-compute_organization_permissions :
        (x : Mention) (orgs : Dict (Option String) OrganizationRoles)
        → Memᴰ (name, details) orgs
        → Memᴰ x (role_mentions (some (organization id)) details.roles)
        → Memᴰ x (compute_organization_permissions dir orgs)
    unfolding compute_organization_permissions
    Memᴰ-compute_organization_permissions x [] m n = elim m [ ]
    Memᴰ-compute_organization_permissions x ((other, d) ∷ rest) (Memᴰ.head e) n =
        let same =
          ap
            (λ (p : Option String × OrganizationRoles).
              organization_mentions (dir.find_organization p.0) p.1)
            e in
        let here : organization_mentions (dir.find_organization name) details
            ≡ role_mentions (some (organization id)) details.roles =
          rw found refl in
        Memᴰ.append_left (compute_organization_permissions dir rest)
          (subst (λ xs. Memᴰ x xs) (sym here ∙ same) n)
    Memᴰ-compute_organization_permissions x ((other, d) ∷ rest) (Memᴰ.tail m) n =
        Memᴰ.append_right (organization_mentions (dir.find_organization other) d)
          (Memᴰ-compute_organization_permissions x rest m n)

    Memᴰ-compute_teams :
        (x : Mention) (orgs : Dict (Option String) OrganizationRoles)
        → Memᴰ (name, details) orgs
        → Memᴰ x (compute_team_permissions dir id details.teams)
        → Memᴰ x (compute_teams dir orgs)
    unfolding compute_teams
    Memᴰ-compute_teams x [] m n = elim m [ ]
    Memᴰ-compute_teams x ((other, d) ∷ rest) (Memᴰ.head e) n =
        let same =
          ap
            (λ (p : Option String × OrganizationRoles).
              org_team_mentions dir (dir.find_organization p.0) p.1)
            e in
        let here : org_team_mentions dir (dir.find_organization name) details
            ≡ compute_team_permissions dir id details.teams =
          rw found refl in
        Memᴰ.append_left (compute_teams dir rest) (subst (λ xs. Memᴰ x xs) (sym here ∙ same) n)
    Memᴰ-compute_teams x ((other, d) ∷ rest) (Memᴰ.tail m) n =
        Memᴰ.append_right (org_team_mentions dir (dir.find_organization other) d)
          (Memᴰ-compute_teams x rest m n)

  Memᴰ-role_mentions_at :
      (role : String) (b : Bool) (object found : Option Subject) (roles : Dict String Bool)
      → object ≡ found
      → Memᴰ (role, b) roles
      → Memᴰ (mention role b object) (role_mentions found roles)
  Memᴰ-role_mentions_at role b object found roles e m =
      subst (λ o. Memᴰ (mention role b object) (role_mentions o roles)) e
        (Memᴰ-role_mentions role b object roles m)

  -- what the claims state is the subject of a call
  pub States-mentions :
      (claims : RoleMapping) (role : String) (object : Option Subject) (b : Bool)
      → States dir claims role object b
      → Memᴰ (mention role b object) (mentions dir claims)
  unfolding mentions
  States-mentions claims role object b (on_all e m) =
      Memᴰ.append_left
        (compute_organization_permissions dir claims.organizations
          ++ compute_teams dir claims.organizations)
        (Memᴰ-role_mentions_at role b object none claims.system e m)
  States-mentions claims role object b (on_organization name details id m f n e) =
      Memᴰ.append_right (role_mentions none claims.system) (
        Memᴰ.append_left (compute_teams dir claims.organizations) (
          Memᴰ-compute_organization_permissions name details id f (mention role b object)
            claims.organizations m
            (Memᴰ-role_mentions_at role b object (some (organization id)) details.roles e n)))
  States-mentions claims role object b (on_team name details org team_name roles id m f t g n e) =
      Memᴰ.append_right (role_mentions none claims.system) (
        Memᴰ.append_right (compute_organization_permissions dir claims.organizations) (
          Memᴰ-compute_teams name details org f (mention role b object) claims.organizations m (
            Memᴰ-compute_team_permissions (mention role b object) org details.teams team_name roles
              id t g (Memᴰ-role_mentions_at role b object (some (team id)) roles e n))))
