-- ===== src/Rbac/Evaluations/Updates/Writes.antt =====
-- The additions and deletions that `EvaluationUpdates.apply` of ansible_base/rbac/caching.py writes.
use django_ansible_base.Base.{
  ℕ, ◌<◌, ◌≡◌, refl, sym, ap, ◌∙◌, Bool, true, false, not, ◌&&◌, ◌||◌, List, [], ◌∷◌, ◌==◌, nat_eq,
  bool_eq, pair_eq, Bool-cases, inl, inr, any, any-append, any-filter_by, contains, beq→eq, arith,
}
use django_ansible_base.Rbac.Evaluations.Keys.{Key, key_eq, is_int}
use django_ansible_base.Rbac.Evaluations.Updates.{
  Row, Tables, Identity, identity_eq, pk_of, identity_of, has_row, next_id, new_row, append_row,
  insert_row, insert_all, apply_deletions,
}

or_absent : (a b c : Bool) → (c ≡ true → b ≡ true) → a ≡ (a || (c && not b))
or_absent a b c h = ground (arith, h)

or_held : (b c : Bool) → (c ≡ true → b ≡ true) → b ≡ (b || c)
or_held b c h = ground (arith, h)

or_new : (a b c : Bool) → (c ≡ true → b ≡ false) → (a || c) ≡ (a || (c && not b))
or_new a b c h = ground (arith, h)

same_row :
    (role_pk : ℕ) (j : Key) (r : ℕ) (k : Key) (rows : List Row)
    → (role_pk == r && j == k) ≡ true
    → has_row r k rows ≡ has_row role_pk j rows
same_row role_pk j r k rows h =
    let e = beq→eq role_pk r (ground arith) in
    let f = beq→eq j k (ground arith) in
    ap (λ x. has_row x k rows) (sym e) ∙ ap (λ x. has_row role_pk x rows) (sym f)

has_row-insert_row :
    (role_pk : ℕ) (j : Key) (r : ℕ) (k : Key) (t : Tables)
    → has_row r k (insert_row (role_pk, j) t).rows
      ≡ (has_row r k t.rows || (role_pk == r && j == k))
has_row-insert_row role_pk j r k t = elim (Bool-cases (has_row role_pk j t.rows)) [
  | inl q ↦ rw q (
      or_held (has_row r k t.rows) (role_pk == r && j == k)
        (λ e. same_row role_pk j r k t.rows e ∙ q))
  | inr q ↦ rw q (
      any-append (λ row. row.role_id == r && row.key == k) t.rows
        (new_row (is_int (pk_of j)) role_pk j t ∷ [])
      ∙ ground arith)
]

module _ (deletes : List Identity) where
  -- whether a role has a row for a key that the deletions leave
  abbrev pub keeps : ℕ → Key → List Row → Bool
  keeps r k rows =
      any (λ row. (row.role_id == r && row.key == k) && not (contains (identity_of row) deletes))
        rows

  pub has_row-apply_deletions :
      (r : ℕ) (k : Key) (t : Tables)
      → has_row r k (apply_deletions deletes t).rows ≡ keeps r k t.rows
  has_row-apply_deletions r k t =
      any-filter_by (λ row. row.role_id == r && row.key == k)
        (λ row. not (contains (identity_of row) deletes)) t.rows

  -- No deletion names an id that is still to come.
  abbrev pub IsBelow : Tables → Type 0
  IsBelow t = (id : ℕ) (table : Bool) → contains (id, table) deletes ≡ true → id < next_id table t

  fresh_kept :
      (t : Tables) (table : Bool) → IsBelow t → contains (next_id table t, table) deletes ≡ false
  fresh_kept t table h = elim (Bool-cases (contains (next_id table t, table) deletes)) [
    | inl q ↦ let absurdly = h (next_id table t) table q in absurd (omega arith)
    | inr q ↦ q
  ]

  append_row-keeps :
      (table : Bool) (role_pk : ℕ) (j : Key) (r : ℕ) (k : Key) (t : Tables)
      → is_int (pk_of j) ≡ table
      → IsBelow t
      → keeps r k (append_row table role_pk j t).rows
        ≡ (keeps r k t.rows || (role_pk == r && j == k))
  append_row-keeps table role_pk j r k t q h =
      let p : Row → Bool =
        λ row. (row.role_id == r && row.key == k) && not (contains (identity_of row) deletes) in
      let kept : contains (identity_of (new_row table role_pk j t)) deletes ≡ false =
        rw q (fresh_kept t table h) in
      any-append p t.rows (new_row table role_pk j t ∷ []) ∙ ground (arith)

  append_row-IsBelow :
      (table : Bool) (role_pk : ℕ) (j : Key) (t : Tables)
      → IsBelow t
      → IsBelow (append_row table role_pk j t)
  append_row-IsBelow true role_pk j t h id true m = let f = h id true m in omega arith
  append_row-IsBelow true role_pk j t h id false m = h id false m
  append_row-IsBelow false role_pk j t h id true m = h id true m
  append_row-IsBelow false role_pk j t h id false m = let f = h id false m in omega arith

  insert_row-IsBelow :
      (role_pk : ℕ) (j : Key) (t : Tables) → IsBelow t → IsBelow (insert_row (role_pk, j) t)
  insert_row-IsBelow role_pk j t h = elim (Bool-cases (has_row role_pk j t.rows)) [
    | inl q ↦ rw q h
    | inr q ↦ rw q (append_row-IsBelow (is_int (pk_of j)) role_pk j t h)
  ]

  insert_row-keeps :
      (role_pk : ℕ) (j : Key) (r : ℕ) (k : Key) (t : Tables)
      → IsBelow t
      → keeps r k (insert_row (role_pk, j) t).rows
        ≡ (keeps r k t.rows || ((role_pk == r && j == k) && not (has_row r k t.rows)))
  insert_row-keeps role_pk j r k t h = elim (Bool-cases (has_row role_pk j t.rows)) [
    | inl q ↦ rw q (
        or_absent (keeps r k t.rows) (has_row r k t.rows) (role_pk == r && j == k)
          (λ e. same_row role_pk j r k t.rows e ∙ q))
    | inr q ↦ rw q (
        append_row-keeps (is_int (pk_of j)) role_pk j r k t refl h
        ∙ or_new (keeps r k t.rows) (has_row r k t.rows) (role_pk == r && j == k)
            (λ e. same_row role_pk j r k t.rows e ∙ q))
  ]

  -- An addition counts for a key that the role has no row for; the other rows stay.
  pub insert_all-keeps :
      (es : List (ℕ × Key)) (r : ℕ) (k : Key) (t : Tables)
      → IsBelow t
      → keeps r k (insert_all es t).rows
        ≡ (keeps r k t.rows || (contains {A = ℕ × Key} (r, k) es && not (has_row r k t.rows)))
  insert_all-keeps [] r k t h = ground arith
  insert_all-keeps ((role_pk, j) ∷ es) r k t h = ground (
    arith,
    insert_all-keeps es r k (insert_row (role_pk, j) t) (insert_row-IsBelow role_pk j t h),
    insert_row-keeps role_pk j r k t h,
    has_row-insert_row role_pk j r k t,
  )
