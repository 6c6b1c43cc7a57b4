-- ===== src/Rbac/Evaluations/Access/Laws.antt =====
-- What the questions of access of ansible_base/rbac/evaluations.py answer on the rows, against the
-- roles that are assigned.
use mathlib.Core.List.{Memᴰ}
use mathlib.Core.List.Memᴰ as Memᴰ
use django_ansible_base.Base.{
  ℕ, ◌≡◌, refl, sym, subst, String, Bool, true, ◌&&◌, List, [], ◌∷◌, ◌==◌, nat_eq, string_eq,
  Bool-cases, inl, inr, ◌⊎◌, ◌↔◌, any, contains, contains-append, any-Memᴰ, Memᴰ-any, beq→eq,
  beq_refl, arith,
}
use django_ansible_base.Rbac.Evaluations.Keys.{Pk, pk_eq, by_id, Key, key_eq}
use django_ansible_base.Rbac.Evaluations.Expected.{ObjectRole, World}
use django_ansible_base.Rbac.Evaluations.Expected.Laws.{fresh_all}
use django_ansible_base.Rbac.Evaluations.Updates.{Row, Holders, has_row, pk_of, team_roles}
use django_ansible_base.Rbac.Evaluations.Updates.Laws.{granted, granted_by}
use django_ansible_base.Rbac.Evaluations.Access.{
  Actor, is_row_for, has_obj_perm, is_row_of, accessible_ids,
}

row_of-row_for :
    (actor : Actor) (ct : ℕ) (codename : String) (pk : Pk) (row : Row)
    → (is_row_of actor ct codename row && pk_of row.key == pk)
      ≡ is_row_for actor (codename, (by_id ct, pk)) row
row_of-row_for actor ct codename pk row =
    ground (arith, pk_eq.eqb_iff (pk_of row.key) (pk_of row.key))

-- The objects of a model that an actor is listed as having access to are exactly those for which
-- the single question of access is answered with yes.
pub accessible_ids-has_obj_perm :
    (rows : List Row) (actor : Actor) (ct : ℕ) (codename : String) (pk : Pk)
    → contains pk (accessible_ids rows actor ct codename) ≡ has_obj_perm rows actor ct pk codename
unfolding accessible_ids has_obj_perm
accessible_ids-has_obj_perm [] actor ct codename pk = refl
accessible_ids-has_obj_perm (row ∷ rows) actor ct codename pk = ground (
  arith,
  accessible_ids-has_obj_perm rows actor ct codename pk,
  row_of-row_for actor ct codename pk row,
  Bool-cases (is_row_of actor ct codename row),
)

pub has_obj_perm-has_row :
    (rows : List Row) (actor : Actor) (ct : ℕ) (codename : String) (pk : Pk)
    → (has_obj_perm rows actor ct pk codename ≡ true) ↔ (
        (r : ℕ) × (contains r actor.object_roles ≡ true)
        × (has_row r (codename, (by_id ct, pk)) rows ≡ true))
unfolding has_obj_perm
has_obj_perm-has_row rows actor ct codename pk =
    let k : Key = (codename, (by_id ct, pk)) in
    (
      λ h.
          let (row, m, e) = any-Memᴰ (is_row_for actor k) rows h in
          (
            row.role_id,
            ground arith,
            Memᴰ-any (λ (x : Row). x.role_id == row.role_id && x.key == k) rows row m
                (ground (arith, beq_refl row.role_id)),
          ),
      λ (r, a, h).
          let (row, m, e) = any-Memᴰ (λ (x : Row). x.role_id == r && x.key == k) rows h in
          let same = beq→eq row.role_id r (ground arith) in
          Memᴰ-any (is_row_for actor k) rows row m (rw (same, a) (ground arith)),
    )

Memᴰ-team_roles :
    (f : ℕ → List ObjectRole) (ts : List ℕ) (role : ObjectRole)
    → Memᴰ role (team_roles f ts) ↔ ((t : ℕ) × (contains t ts ≡ true) × Memᴰ role (f t))
Memᴰ-team_roles f [] role = (λ m. elim m [ ], λ (t, c, m). absurd (cc))
Memᴰ-team_roles f (t ∷ ts) role = (
  λ m. elim (Memᴰ.append_cases (f t) m) [
    | inl n ↦ (t, ground (arith, beq_refl t), n)
    | inr n ↦ let (u, c, l) = (Memᴰ-team_roles f ts role).0 n in (u, ground arith, l)
  ],
  λ (u, c, m). elim (Bool-cases (t == u)) [
    | inl q ↦
        Memᴰ.append_left (team_roles f ts) (subst (λ x. Memᴰ role (f x)) (sym (beq→eq t u q)) m)
    | inr q ↦ Memᴰ.append_right (f t) ((Memᴰ-team_roles f ts role).1 (u, ground arith, m))
  ],
)

-- a role gives a key of its own, by its permissions
abbrev pub gives_key : World → Key → ObjectRole → Bool
gives_key w k role = contains k (fresh_all w role role.permissions)

granted_by-any :
    (w : World) (k : Key) (roles : List ObjectRole)
    → contains k (granted_by w roles) ≡ any (gives_key w k) roles
granted_by-any w k [] = refl
granted_by-any w k (role ∷ roles) = ground (
  arith,
  granted_by-any w k roles,
  contains-append k (fresh_all w role role.permissions) (granted_by w roles),
)

pub granted-teams :
    (w : World) (h : Holders) (k : Key) (role : ObjectRole)
    → (contains k (granted w h role) ≡ true) ↔ (
        (gives_key w k role ≡ true)
        ⊎ ((t : ℕ) × (contains t (h.provides_teams role.pk) ≡ true)
            × (other : ObjectRole) × Memᴰ other (h.has_roles t)
            × (gives_key w k other ≡ true)))
granted-teams w h k role =
    let below = team_roles h.has_roles (h.provides_teams role.pk) in
    let e = granted_by-any w k (role ∷ below) in
    (
      λ c. elim (Bool-cases (gives_key w k role)) [
        | inl q ↦ inl q
        | inr q ↦
            let (other, m, g) = any-Memᴰ (gives_key w k) below (ground arith) in
            let (t, d, l) = (Memᴰ-team_roles h.has_roles (h.provides_teams role.pk) other).0 m in
            inr (t, d, other, l, g)
      ],
      λ x. elim x [
        | inl q ↦ ground arith
        | inr (t, d, other, l, g) ↦
            let m = (Memᴰ-team_roles h.has_roles (h.provides_teams role.pk) other).1 (t, d, l) in
            let a = Memᴰ-any (gives_key w k) below other m g in ground arith
      ],
    )
