-- ===== src/Rbac/Evaluations/Updates/Partials.antt =====
-- The rows that `needed_cache_updates` of ansible_base/rbac/models/role.py finds for one role, and
-- what it makes of them.
use django_ansible_base.Base.{
  ℕ, ◌≡◌, refl, sym, ap, subst, ◌∙◌, true, false, not, ◌&&◌, ◌||◌, Option, none, some, List, [],
  ◌∷◌, ◌==◌, nat_eq, pair_eq, Bool-cases, inl, inr, ◌⊎◌, any, map, contains, contains-map,
  contains-map_of, contains-filter_by, distinct, contains-distinct, difference, beq→eq, beq_refl,
  Memᴰ-any, arith,
}
use mathlib.Core.List.{Memᴰ}
use django_ansible_base.Base.Dict.{
  Dict, keys, get, get_or, has_key, set, get-set, has_key-set, has_key-contains,
}
use django_ansible_base.Rbac.Evaluations.Keys.{Key, key_eq, is_int}
use django_ansible_base.Rbac.Evaluations.Updates.{
  Row, Identity, identity_eq, pk_of, partials_of, identity_in, identity_of, needed,
}

has_key-partials_of :
    (k : Key) (rows : List Row) (d : Dict Key ℕ)
    → has_key k (partials_of rows d) ≡ (any (λ row. row.key == k) rows || has_key k d)
has_key-partials_of k [] d = refl
has_key-partials_of k (row ∷ rows) d =
    ground
      (arith, has_key-partials_of k rows (set row.key row.id d), has_key-set row.key k row.id d)

-- a row that an entry of the dict stems from
abbrev pub Origin : List Row → Key → ℕ → Type 0
Origin rows k id = (row : Row) × Memᴰ row rows × (row.key ≡ k) × (row.id ≡ id)

get-partials_of :
    (k : Key) (id : ℕ) (rows : List Row) (d : Dict Key ℕ)
    → get k (partials_of rows d) ≡ some id
    → (get k d ≡ some id) ⊎ Origin rows k id
get-partials_of k id [] d e = inl e
get-partials_of k id (row ∷ rows) d e = elim (get-partials_of k id rows (set row.key row.id d) e) [
  | inr (other, m, f, g) ↦ inr (other, Memᴰ.tail m, f, g)
  | inl f ↦ elim (Bool-cases (row.key == k)) [
    | inl q ↦
        let found = rw (get-set row.key k row.id d, q) at f in
        inr (row, Memᴰ.head refl, beq→eq row.key k q, cc found)
    | inr q ↦ inl (rw (get-set row.key k row.id d, q) at f)
  ]
]

has_key-get :
    (k : Key) (d : Dict Key ℕ)
    → has_key k d ≡ true
    → (id : ℕ) × (get k d ≡ some id) × (get_or k 0 d ≡ id)
has_key-get k d h = go (get k d) refl
  where
    go : (x : Option ℕ) → get k d ≡ x → (id : ℕ) × (get k d ≡ some id) × (get_or k 0 d ≡ id)
    go none e = let absent = rw (e, has_key) at h in absurd (cc absent)
    go (some id) e = (id, e, rw (e, get_or) refl)

-- an entry of the dict and a row that it stems from
key-Origin :
    (k : Key) (rows : List Row)
    → has_key k (partials_of rows []) ≡ true
    → Origin rows k (get_or k 0 (partials_of rows []))
key-Origin k rows h =
    let (id, e, f) = has_key-get k (partials_of rows []) h in
    elim (get-partials_of k id rows [] e) [
      | inl none_is ↦ absurd (cc none_is)
      | inr found ↦ rw f found
    ]

contains-difference :
    (k : Key) (xs ys : List Key)
    → contains k (difference xs ys) ≡ contains k xs && not (contains k ys)
contains-difference k xs ys =
    ground
      (arith, contains-filter_by (λ x. not (contains x ys)) k (distinct xs), contains-distinct k xs)

identity_of-identity_in :
    (row : Row) (k : Key) (d : Dict Key ℕ)
    → row.key ≡ k
    → row.id ≡ get_or k 0 d
    → identity_of row ≡ identity_in d k
identity_of-identity_in row k d f g = cc (g, ap (λ t. is_int (pk_of t)) f)

contains-tagged :
    (role_pk r : ℕ) (k : Key) (ks : List Key)
    → contains {A = ℕ × Key} (r, k) (map (λ j. (role_pk, j)) ks) ≡ (role_pk == r && contains k ks)
contains-tagged role_pk r k [] = ground arith
contains-tagged role_pk r k (j ∷ ks) = ground (arith, contains-tagged role_pk r k ks)

module _ (rows : List Row) (role_pk : ℕ) (expected : List Key) where
  abbrev partials : Dict Key ℕ
  partials = partials_of rows []

  -- What is deleted is a row whose key is not expected.
  pub deleted_Origin :
      (i : Identity)
      → contains i (needed partials role_pk expected).0 ≡ true
      → (row : Row) × Memᴰ row rows × (contains row.key expected ≡ false) × (identity_of row ≡ i)
  deleted_Origin i m =
      let (k, n, e) =
        contains-map (identity_in partials) (difference (keys partials) expected) i m in
      let there = rw (contains-difference k (keys partials) expected) at n in
      let (row, r, f, g) = key-Origin k rows (ground (arith, has_key-contains k partials)) in
      (row, r, rw f (ground arith), identity_of-identity_in row k partials f g ∙ e)

  -- Each row whose key is not expected is deleted, where no two rows have the same key.
  pub contains-deleted :
      (row : Row)
      → ((a b : Row) → Memᴰ a rows → Memᴰ b rows → a.key ≡ b.key → a ≡ b)
      → Memᴰ row rows
      → contains row.key expected ≡ false
      → contains (identity_of row) (needed partials role_pk expected).0 ≡ true
  contains-deleted row unique m h =
      let there = Memᴰ-any (λ other. other.key == row.key) rows row m (beq_refl row.key) in
      let has : has_key row.key partials ≡ true =
        ground (arith, has_key-partials_of row.key rows []) in
      let (other, n, f, g) = key-Origin row.key rows has in
      let same = unique other row n m f in
      let in_keys : contains row.key (difference (keys partials) expected) ≡ true = ground (
        arith,
        contains-difference row.key (keys partials) expected,
        has_key-contains row.key partials,
      ) in
      let mapped =
        contains-map_of (identity_in partials) (difference (keys partials) expected) row.key
          in_keys in
      subst (λ t. contains t (needed partials role_pk expected).0 ≡ true)
        (sym (identity_of-identity_in row row.key partials refl (sym (ap Row.id same) ∙ g))) mapped

  pub contains-added :
      (r : ℕ) (k : Key)
      → contains {A = ℕ × Key} (r, k) (needed partials role_pk expected).1
        ≡ role_pk == r && contains k expected && not (any (λ row. row.key == k) rows)
  contains-added r k = ground (
    arith,
    contains-tagged role_pk r k (difference expected (keys partials)),
    contains-difference k expected (keys partials),
    has_key-contains k partials,
    has_key-partials_of k rows [],
  )
