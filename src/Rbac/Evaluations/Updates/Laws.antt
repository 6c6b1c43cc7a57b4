-- ===== src/Rbac/Evaluations/Updates/Laws.antt =====
-- What `needed_cache_updates` and `recompute_role_evaluations` of ansible_base/rbac/caching.py find
-- and leave in the tables, against the keys that a role grants.
use django_ansible_base.Base.{
  ℕ, ◌<◌, ◌≡◌, refl, sym, ap, ◌∙◌, Bool, true, false, not, ◌&&◌, ◌||◌, none, List, [], ◌∷◌, ◌++◌,
  ◌==◌, nat_eq, bool_eq, pair_eq, Bool-cases, inl, inr, ◌↔◌, any, any-append, any-filter_by,
  filter_by, contains, contains-append, beq→eq, beq_refl, Memᴰ-filter_by, arith, ok,
}
use mathlib.Core.List.{Memᴰ}
use mathlib.Core.List.Memᴰ as Memᴰ
use django_ansible_base.Rbac.Evaluations.Keys.{Key, key_eq, is_int}
use django_ansible_base.Rbac.Evaluations.Expected.{ObjectRole, World}
use django_ansible_base.Rbac.Evaluations.Expected.Laws.{
  SameLists, fresh_all, expected_direct_permissions-in_scope,
}
use django_ansible_base.Rbac.Evaluations.Updates.{
  Row, Tables, Holders, Identity, identity_eq, pk_of, identity_of, has_row, next_id, is_of,
  source_rows, partials_of, team_roles, expected_of, Needed, needed, needed_cache_updates,
}
use django_ansible_base.Rbac.Evaluations.Updates.Partials.{
  deleted_Origin, contains-deleted, contains-added,
}

-- the keys that roles give, without the tables
abbrev pub granted_by : World → List ObjectRole → List Key
granted_by w [] = []
granted_by w (role ∷ roles) = fresh_all w role role.permissions ++ granted_by w roles

-- A role and the roles of the teams that it gives membership of.
abbrev pub roles_below : Holders → ObjectRole → List ObjectRole
roles_below h role = role ∷ team_roles h.has_roles (h.provides_teams role.pk)

abbrev pub granted : World → Holders → ObjectRole → List Key
granted w h role = granted_by w (roles_below h role)

abbrev pub AllSame : World → List ObjectRole → Type 0
AllSame w roles = (role : ObjectRole) → Memᴰ role roles → SameLists w role

expected_of-granted_by :
    (w : World) (roles : List ObjectRole)
    → AllSame w roles
    → (keys : List Key) × (expected_of w none none roles ≡ ok keys)
      × ((k : Key) → contains k keys ≡ contains k (granted_by w roles))
expected_of-granted_by w [] h = ([], refl, λ k. refl)
expected_of-granted_by w (role ∷ roles) h =
    let (first, e, f) =
      expected_direct_permissions-in_scope w role none none refl (h role (Memᴰ.head refl)) in
    let (rest, d, g) = expected_of-granted_by w roles (λ other m. h other (Memᴰ.tail m)) in
    (
      first ++ rest,
      rw (e, d) refl,
      λ k. ground (
        arith,
        contains-append k first rest,
        contains-append k (fresh_all w role role.permissions) (granted_by w roles),
        f k,
        g k,
      ),
    )

source_rows-Memᴰ :
    (row : Row) (rows : List Row) (r : ℕ)
    → Memᴰ row (source_rows rows r none none) ↔ (Memᴰ row rows × (row.role_id ≡ r))
source_rows-Memᴰ row rows r =
    let ints = Memᴰ-filter_by (is_of r true) rows row in
    let uuids = Memᴰ-filter_by (is_of r false) rows row in
    let of_int = filter_by (is_of r true) rows in
    let of_uuid = filter_by (is_of r false) rows in
    (
      λ m. elim (Memᴰ.append_cases of_int m) [
        | inl n ↦ let (k, e) = ints.0 n in (k, beq→eq row.role_id r (ground arith))
        | inr n ↦ let (k, e) = uuids.0 n in (k, beq→eq row.role_id r (ground arith))
      ],
      λ (m, e). elim (Bool-cases (is_int (pk_of row.key))) [
        | inl q ↦ Memᴰ.append_left of_uuid (ints.1 (m, rw (q, e, beq_refl r) refl))
        | inr q ↦ Memᴰ.append_right of_int (uuids.1 (m, rw (q, e, beq_refl r) refl))
      ],
    )

either_table :
    (rows : List Row) (r : ℕ) (k : Key)
    → (any (λ row. row.key == k && is_of r true row) rows
        || any (λ row. row.key == k && is_of r false row) rows)
      ≡ has_row r k rows
either_table [] r k = refl
either_table (row ∷ rows) r k =
    ground (arith, either_table rows r k, Bool-cases (is_int (pk_of row.key)))

source_rows-has_row :
    (rows : List Row) (r : ℕ) (k : Key)
    → any (λ row. row.key == k) (source_rows rows r none none) ≡ has_row r k rows
source_rows-has_row rows r k =
    let p : Row → Bool = λ row. row.key == k in
    ground (
      arith,
      any-append p (filter_by (is_of r true) rows) (filter_by (is_of r false) rows),
      any-filter_by p (is_of r true) rows,
      any-filter_by p (is_of r false) rows,
      either_table rows r k,
    )

-- What holds of the rows: one for a key of a role, one for an id of a table, and no id to come.
pub record IsValid (t : Tables) : Type 0 where
  pub one_per_key :
      (a b : Row) → Memᴰ a t.rows → Memᴰ b t.rows → a.role_id ≡ b.role_id → a.key ≡ b.key → a ≡ b
  pub one_per_id :
      (a b : Row) → Memᴰ a t.rows → Memᴰ b t.rows → identity_of a ≡ identity_of b → a ≡ b
  pub ids_below : (a : Row) → Memᴰ a t.rows → a.id < next_id (is_int (pk_of a.key)) t

module _ (w : World) (h : Holders) (t : Tables) where
  -- The updates that are needed by the roles that `selects` says, with the keys that they grant.
  abbrev pub IsNeeded : (ℕ → Bool) → (ℕ → List Key) → Needed → Type 0
  IsNeeded selects grants n =
      ((i : Identity)
        → contains i n.0 ≡ true
        → (row : Row) × Memᴰ row t.rows
          × (selects row.role_id ≡ true)
          × (contains row.key (grants row.role_id) ≡ false)
          × (identity_of row ≡ i))
      × ((row : Row)
          → Memᴰ row t.rows
          → selects row.role_id ≡ true
          → contains row.key (grants row.role_id) ≡ false
          → contains (identity_of row) n.0 ≡ true)
      × ((r : ℕ) (k : Key)
          → contains {A = ℕ × Key} (r, k) n.1
            ≡ selects r && contains k (grants r) && not (has_row r k t.rows))

  source-one_per_key :
      (r : ℕ)
      → IsValid t
      → (a b : Row) → Memᴰ a (source_rows t.rows r none none)
      → Memᴰ b (source_rows t.rows r none none)
      → a.key ≡ b.key
      → a ≡ b
  source-one_per_key r v a b m n =
      let (m', p) = (source_rows-Memᴰ a t.rows r).0 m in
      let (n', q) = (source_rows-Memᴰ b t.rows r).0 n in v.one_per_key a b m' n' (p ∙ sym q)

  needed-IsNeeded :
      (pk : ℕ) (keys : List Key) (grants : ℕ → List Key)
      → IsValid t
      → ((k : Key) → contains k (grants pk) ≡ contains k keys)
      → IsNeeded
          (λ r. pk == r)
          grants
          (needed (partials_of (source_rows t.rows pk none none) []) pk keys)
  needed-IsNeeded pk keys grants v g =
      let rows = source_rows t.rows pk none none in
      let agree : (r : ℕ) (k : Key) → pk ≡ r → contains k (grants r) ≡ contains k keys =
        λ r k e. ap (λ x. contains k (grants x)) (sym e) ∙ g k in
      (
        λ i m.
            let (row, n, d, q) = deleted_Origin rows pk keys i m in
            let (there, r) = (source_rows-Memᴰ row t.rows pk).0 n in
            (row, there, rw r (beq_refl pk), agree row.role_id row.key (sym r) ∙ d, q),
        λ row m s d.
            let r = beq→eq pk row.role_id s in
            contains-deleted rows pk keys row (source-one_per_key pk v)
              ((source_rows-Memᴰ row t.rows pk).1 (m, sym r))
              (sym (agree row.role_id row.key r) ∙ d),
        λ r k. contains-added rows pk keys r k ∙ elim (Bool-cases (pk == r)) [
          | inl q ↦
              let e = beq→eq pk r q in
              rw (q, agree r k e)
                (ap (λ x. contains k keys && not x)
                  (source_rows-has_row t.rows pk k ∙ ap (λ x. has_row x k t.rows) e))
          | inr q ↦ rw q refl
        ],
      )

  pub needed_cache_updates-IsNeeded :
      (role : ObjectRole) (grants : ℕ → List Key)
      → IsValid t
      → AllSame w (roles_below h role)
      → grants role.pk ≡ granted w h role
      → (n : Needed) × (needed_cache_updates w h t.rows none none role ≡ ok n)
        × IsNeeded (λ r. role.pk == r) grants n
  unfolding needed_cache_updates
  needed_cache_updates-IsNeeded role grants v same g =
      let (keys, e, f) = expected_of-granted_by w (roles_below h role) same in
      let rows = source_rows t.rows role.pk none none in
      (
        needed (partials_of rows []) role.pk keys,
        rw e refl,
        needed-IsNeeded role.pk keys grants v (λ k. ap (contains k) g ∙ sym (f k)),
      )
