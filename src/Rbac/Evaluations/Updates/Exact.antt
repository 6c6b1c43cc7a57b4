-- ===== src/Rbac/Evaluations/Updates/Exact.antt =====
-- `recompute_role_evaluations` of ansible_base/rbac/caching.py as a whole: a run against the keys that
-- roles grant, and a second run.
use django_ansible_base.Base.{
  ℕ, ◌≡◌, refl, sym, ap, ◌∙◌, true, false, not, ◌&&◌, ◌||◌, none, List, [], ◌∷◌, ◌==◌, nat_eq,
  pair_eq, Eq, Memᴰ-any, filter_by, Bool-cases, inl, inr, all, map, contains, all-contains, all_of,
  beq_refl, if◌then◌else◌, arith, ok,
}
use django_ansible_base.Rbac.Teams.{no_conflict}
use django_ansible_base.Rbac.Evaluations.Keys.{Key, key_eq}
use django_ansible_base.Rbac.Evaluations.Expected.{ObjectRole, World}
use django_ansible_base.Rbac.Evaluations.Updates.{
  Row, Tables, Holders, identity_eq, identity_of, has_row, insert_all, has_type_id, has_id,
  apply_deletions, Needed, recompute_role_evaluations, safe_bulk_create_evaluations,
}
use django_ansible_base.Rbac.Evaluations.Updates.Writes.{
  keeps, has_row-apply_deletions, insert_all-keeps,
}
use django_ansible_base.Rbac.Evaluations.Updates.Laws.{granted, IsValid, IsNeeded}
use django_ansible_base.Rbac.Evaluations.Updates.Recompute.{
  by_table, contains-by_table, apply_additions-by_table, Recomputable, collect-IsNeeded,
  written_lem, IsBelow-IsValid, grants,
}
use django_ansible_base.Rbac.Evaluations.Updates.Validity.{
  apply_deletions-IsValid, insert_all-IsValid,
}

module _ (w : World) (h : Holders) (role_of : ℕ → ObjectRole) (t : Tables) where
  abbrev after : Needed → Tables
  after n = apply_deletions n.0 (insert_all (by_table n.1) t)

  added-has_id :
      (pks : List ℕ) (n : Needed)
      → Recomputable w h role_of pks
      → IsNeeded w h t (λ r. contains r pks) (grants w h role_of) n
      → all has_id n.1 ≡ true
  added-has_id pks n p (a, b, c) = all_of has_id n.1 (λ (r, k) m.
      let there = sym (c r k) ∙ m in
      let (own, same, typed) = p r (ground arith) in
      all-contains has_type_id (granted w h (role_of r)) typed k (ground arith))

  has_row-after :
      (pks : List ℕ) (n : Needed) (r : ℕ) (k : Key)
      → IsValid t
      → IsNeeded w h t (λ q. contains q pks) (grants w h role_of) n
      → has_row r k (after n).rows
        ≡ (if contains r pks then contains k (granted w h (role_of r)) else has_row r k t.rows)
  has_row-after pks n r k v needed =
      has_row-apply_deletions n.0 r k (insert_all (by_table n.1) t)
      ∙ insert_all-keeps n.0 (by_table n.1) r k t
          (IsBelow-IsValid w h role_of t (λ q. contains q pks) n v needed)
      ∙ ap (λ x. keeps n.0 r k t.rows || (x && not (has_row r k t.rows)))
          (contains-by_table (r, k) n.1)
      ∙ written_lem w h role_of t (λ q. contains q pks) n r k v needed

  -- If the rows are valid, the id lists of each content type agree, content types stand in keys by
  -- their ids, and the database takes the rows with conflicts ignored, the run for some roles ends
  -- without an error in valid tables: each of the roles has a row for exactly the keys that it and
  -- the roles of the teams it gives membership of grant, and the rows of all other roles are as
  -- they were.
  pub recompute_role_evaluations-granted :
      (pks : List ℕ)
      → IsValid t
      → Recomputable w h role_of pks
      → (t' : Tables) × (recompute_role_evaluations w h no_conflict no_conflict true none none
            (map role_of pks)
            t
          ≡ ok t')
        × IsValid t'
        × ((r : ℕ) (k : Key)
            → has_row r k t'.rows ≡ (
                if contains r pks
                then contains k (granted w h (role_of r))
                else has_row r k t.rows))
  unfolding recompute_role_evaluations
  recompute_role_evaluations-granted pks v p =
      let (n, e, needed) = collect-IsNeeded w h role_of t pks v p in
      (
        after n,
        rw (e, apply_additions-by_table n.1 t (added-has_id pks n p needed)) refl,
        apply_deletions-IsValid n.0 (insert_all (by_table n.1) t)
            (insert_all-IsValid (by_table n.1) t v),
        λ r k. has_row-after pks n r k v needed,
      )

nothing_in {ℓ} : {A : Type ℓ} ⦃e : Eq A⦄ (xs : List A) → ((x : A) → contains x xs ≡ false) → xs ≡ []
nothing_in [] h = refl
nothing_in (x ∷ xs) h = let no = h x in let yes = beq_refl x in absurd (ground arith)

filter_by_nothing :
    (rows : List Row) → filter_by (λ row. not (contains (identity_of row) [])) rows ≡ rows
filter_by_nothing [] = refl
filter_by_nothing (row ∷ rows) = ap (λ t. row ∷ t) (filter_by_nothing rows)

module _ (w : World) (h : Holders) (role_of : ℕ → ObjectRole) (pks : List ℕ) (t : Tables) where
  -- the rows of the roles are those of the keys that they grant
  abbrev IsExact : Type 0
  IsExact =
      (r : ℕ) (k : Key)
      → contains r pks ≡ true
      → has_row r k t.rows ≡ contains k (granted w h (role_of r))

  needed_none :
      (n : Needed)
      → IsExact
      → IsNeeded w h t (λ r. contains r pks) (grants w h role_of) n
      → n ≡ ([], [])
  needed_none n exact (a, b, c) =
      let no_deletes = nothing_in n.0 (λ i. elim (Bool-cases (contains i n.0)) [
        | inr q ↦ q
        | inl q ↦
            let (row, m, s, d, e) = a i q in
            let there =
              Memᴰ-any (λ (x : Row). x.role_id == row.role_id && x.key == row.key) t.rows row m
                (rw (beq_refl row.role_id, beq_refl row.key) refl) in
            let granted_it = exact row.role_id row.key s in absurd (cc)
      ]) in
      let no_adds = nothing_in n.1 (λ (r, k). c r k ∙ elim (Bool-cases (contains r pks)) [
        | inr q ↦ rw q refl
        | inl q ↦ rw (q, exact r k q) (ground arith)
      ]) in
      cc (no_deletes, no_adds)

  recompute_none :
      IsValid t
      → Recomputable w h role_of pks
      → IsExact
      → recompute_role_evaluations w h no_conflict no_conflict true none none (map role_of pks) t
        ≡ ok t
  unfolding recompute_role_evaluations safe_bulk_create_evaluations
  recompute_none v p exact =
      let (n, e, needed) = collect-IsNeeded w h role_of t pks v p in
      rw (e, needed_none n exact needed)
        (ap (λ rows. ok (record t { rows = rows })) (filter_by_nothing t.rows))

-- Under the same conditions a second run for the same roles, on the tables that the first one left,
-- needs no update and leaves them as they are.
pub recompute_role_evaluations-recompute_role_evaluations :
    (w : World) (h : Holders) (role_of : ℕ → ObjectRole) (pks : List ℕ) (t : Tables)
    → IsValid t
    → Recomputable w h role_of pks
    → (t' : Tables) × (recompute_role_evaluations w h no_conflict no_conflict true none none
          (map role_of pks)
          t
        ≡ ok t')
      × (recompute_role_evaluations w h no_conflict no_conflict true none none (map role_of pks) t'
          ≡ ok t')
recompute_role_evaluations-recompute_role_evaluations w h role_of pks t v p =
    let (t', e, v', f) = recompute_role_evaluations-granted w h role_of t pks v p in
    (t', e, recompute_none w h role_of pks t' v' p (λ r k s. f r k ∙ rw s refl))
