-- ===== src/Rbac/Evaluations/Prefetch/Laws.antt =====
-- The rows that `EvaluationsPrefetch` of ansible_base/rbac/prefetch.py holds for a role, against the
-- queries for that role.
use django_ansible_base.Base.{
  ℕ, ◌≡◌, refl, sym, ap, ◌∙◌, Bool, true, false, Option, none, some, List, [], ◌∷◌, ◌++◌, ◌==◌,
  nat_eq, bool_eq, Bool-cases, inl, inr, filter_by, contains, beq→eq, if◌then◌else◌, arith,
}
use django_ansible_base.Base.Dict.{
  Dict, get, get_or, has_key, set, get-set, get_or-set, IsDistinct, set-IsDistinct,
}
use django_ansible_base.Rbac.Evaluations.Keys.{Key, key_eq, is_int}
use django_ansible_base.Rbac.Evaluations.Updates.{
  Row, pk_of, is_of, partials_of, load_existing_partials,
}
use django_ansible_base.Rbac.Evaluations.Prefetch.{
  Partials, by_role, per_role, is_fetched, fetch_evaluations, from_roles, update, load_prefetched,
}

if_same {ℓ} : {A : Type ℓ} (b : Bool) (x : A) → (if b then x else x) ≡ x
if_same true x = refl
if_same false x = refl

-- a role's rows
abbrev of_role : ℕ → Row → Bool
of_role r row = row.role_id == r

get_or-by_role :
    (r : ℕ) (rows : List Row) (d : Partials)
    → get_or r [] (by_role rows d) ≡ partials_of (filter_by (of_role r) rows) (get_or r [] d)
get_or-by_role r [] d = refl
get_or-by_role r (row ∷ rows) d =
    let entry = set row.key row.id (get_or row.role_id [] d) in
    get_or-by_role r rows (set row.role_id entry d)
    ∙ ap (λ x. partials_of (filter_by (of_role r) rows) x) (get_or-set row.role_id r entry [] d)
    ∙ elim (Bool-cases (row.role_id == r)) [
      | inl q ↦ rw q (
          ap (λ x. partials_of (filter_by (of_role r) rows) (set row.key row.id (get_or x [] d)))
            (beq→eq row.role_id r q))
      | inr q ↦ rw q refl
    ]

get_or-per_role :
    (r : ℕ) (by : Partials) (pks : List ℕ) (d : Partials)
    → get_or r [] (per_role by pks d) ≡ (if contains r pks then get_or r [] by else get_or r [] d)
get_or-per_role r by [] d = refl
get_or-per_role r by (pk ∷ pks) d =
    get_or-per_role r by pks (set pk (get_or pk [] by) d)
    ∙ ap (λ x. if contains r pks then get_or r [] by else x)
        (get_or-set pk r (get_or pk [] by) [] d)
    ∙ elim (Bool-cases (pk == r)) [
      | inl q ↦ rw (q, beq→eq pk r q) (if_same (contains r pks) (get_or r [] by))
      | inr q ↦ rw q refl
    ]

filter_by-is_fetched :
    (table : Bool) (r : ℕ) (pks : List ℕ) (rows : List Row)
    → contains r pks ≡ true
    → filter_by (of_role r) (filter_by (is_fetched table pks) rows) ≡ filter_by (is_of r table) rows
filter_by-is_fetched table r pks [] h = refl
filter_by-is_fetched table r pks (row ∷ rows) h =
    let rest = filter_by-is_fetched table r pks rows h in
    elim (Bool-cases (row.role_id == r)) [
      | inl q ↦
          let c : contains row.role_id pks ≡ true =
            ap (λ x. contains x pks) (beq→eq row.role_id r q) ∙ h in
          elim (Bool-cases (is_int (pk_of row.key) == table)) [
            | inl t ↦ rw (t, c, q) (ap (λ x. row ∷ x) rest)
            | inr t ↦ rw (t, q) rest
          ]
      | inr q ↦ elim (Bool-cases (is_fetched table pks row)) [
        | inl f ↦ rw (f, q) rest
        | inr f ↦ rw (f, q) rest
      ]
    ]

-- the first value, or the second where there is none
abbrev first : Option ℕ → Option ℕ → Option ℕ
first none y = y
first (some v) y = some v

get_absent : (k : Key) (e : Dict Key ℕ) → has_key k e ≡ false → get k e ≡ none
get_absent k e h = ground (arith)

get-update :
    (k : Key) (e d : Dict Key ℕ) → IsDistinct e → get k (update d e) ≡ first (get k e) (get k d)
get-update k [] d h = refl
get-update k ((j, v) ∷ e) d (fresh, h) =
    get-update k e (set j v d) h
    ∙ ap (first (get k e)) (get-set j k v d)
    ∙ elim (Bool-cases (j == k)) [
      | inl q ↦ rw (q, get_absent k e (ap (λ x. has_key x e) (sym (beq→eq j k q)) ∙ fresh)) refl
      | inr q ↦ rw q refl
    ]

first_none : (x : Option ℕ) → first x none ≡ x
first_none none = refl
first_none (some v) = refl

first_assoc : (x y z : Option ℕ) → first (first x y) z ≡ first x (first y z)
first_assoc none y z = refl
first_assoc (some v) y z = refl

first_if :
    (b : Bool) (v : ℕ) (y : Option ℕ)
    → first (if b then some v else none) y ≡ (if b then some v else y)
first_if true v y = refl
first_if false v y = refl

get-partials_onto :
    (k : Key) (rows : List Row) (d : Dict Key ℕ)
    → get k (partials_of rows d) ≡ first (get k (partials_of rows [])) (get k d)
get-partials_onto k [] d = refl
get-partials_onto k (row ∷ rows) d =
    let below = get k (partials_of rows []) in
    get-partials_onto k rows (set row.key row.id d)
    ∙ ap (first below) (get-set row.key k row.id d ∙ sym (first_if (row.key == k) row.id (get k d)))
    ∙ sym (first_assoc below (if row.key == k then some row.id else none) (get k d))
    ∙ ap (λ x. first x (get k d)) (sym (get-partials_onto k rows (set row.key row.id [])))

partials_of-IsDistinct :
    (rows : List Row) (d : Dict Key ℕ) → IsDistinct d → IsDistinct (partials_of rows d)
partials_of-IsDistinct [] d h = h
partials_of-IsDistinct (row ∷ rows) d h =
    partials_of-IsDistinct rows (set row.key row.id d) (set-IsDistinct row.key row.id d h)

partials_of-append :
    (xs ys : List Row) (d : Dict Key ℕ)
    → partials_of (xs ++ ys) d ≡ partials_of ys (partials_of xs d)
partials_of-append [] ys d = refl
partials_of-append (x ∷ xs) ys d = partials_of-append xs ys (set x.key x.id d)

fetched-partials_of :
    (table : Bool) (rows : List Row) (pks : List ℕ) (r : ℕ)
    → contains r pks ≡ true
    → get_or r [] (fetch_evaluations table rows pks)
      ≡ partials_of (filter_by (is_of r table) rows) []
fetched-partials_of table rows pks r h =
    let found = filter_by (is_fetched table pks) rows in
    get_or-per_role r (by_role found []) pks []
    ∙ rw h (get_or-by_role r found [])
    ∙ ap (λ x. partials_of x []) (filter_by-is_fetched table r pks rows h)

-- For each role of the chunk, the entries that are read from the prefetched rows are those that the
-- queries for that role find: the same keys, each with the same id.
pub get-load_prefetched :
    (rows : List Row) (pks : List ℕ) (r : ℕ) (k : Key)
    → contains r pks ≡ true
    → get k (load_prefetched (from_roles rows pks) r)
      ≡ get k (load_existing_partials rows r none none)
unfolding load_prefetched from_roles
get-load_prefetched rows pks r k h =
    let ints = filter_by (is_of r true) rows in
    let uuids = filter_by (is_of r false) rows in
    let a = partials_of ints [] in
    let b = partials_of uuids [] in
    ap (λ x. get k (update (update [] x) (get_or r [] (fetch_evaluations false rows pks))))
      (fetched-partials_of true rows pks r h)
    ∙ ap (λ x. get k (update (update [] a) x)) (fetched-partials_of false rows pks r h)
    ∙ get-update k b (update [] a) (partials_of-IsDistinct uuids [] tt)
    ∙ ap (first (get k b))
        (get-update k a [] (partials_of-IsDistinct ints [] tt) ∙ first_none (get k a))
    ∙ sym (get-partials_onto k uuids a)
    ∙ ap (get k) (sym (partials_of-append ints uuids []))
