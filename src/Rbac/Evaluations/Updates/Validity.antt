-- ===== src/Rbac/Evaluations/Updates/Validity.antt =====
-- The uniqueness of rows and ids through the writes of `EvaluationUpdates.apply` of
-- ansible_base/rbac/caching.py.
use django_ansible_base.Base.{
  ℕ, ◌<◌, ◌≤◌, ◌≡◌, ◌≢◌, refl, sym, ap, ◌∙◌, subst, Bool, true, false, not, ◌&&◌, List, [], ◌∷◌,
  ◌++◌, ◌==◌, nat_eq, Bool-cases, inl, inr, ◌⊎◌, contains, Memᴰ-any, Memᴰ-filter_by, beq_refl,
  arith,
}
use mathlib.Core.List.{Memᴰ}
use mathlib.Core.List.Memᴰ as Memᴰ
use django_ansible_base.Rbac.Evaluations.Keys.{Key, key_eq, is_int}
use django_ansible_base.Rbac.Evaluations.Updates.{
  Row, Tables, Identity, identity_eq, pk_of, identity_of, has_row, next_id, new_row, append_row,
  insert_row, insert_all, apply_deletions,
}
use django_ansible_base.Rbac.Evaluations.Updates.Laws.{IsValid}

next_id-apply_deletions :
    (ds : List Identity) (table : Bool) (t : Tables)
    → next_id table (apply_deletions ds t) ≡ next_id table t
next_id-apply_deletions ds true t = refl
next_id-apply_deletions ds false t = refl

pub apply_deletions-IsValid :
    (ds : List Identity) (t : Tables) → IsValid t → IsValid (apply_deletions ds t)
apply_deletions-IsValid ds t v =
    let stays = Memᴰ-filter_by (λ (row : Row). not (contains (identity_of row) ds)) t.rows in
    record {
      one_per_key = λ a b m n. v.one_per_key a b ((stays a).0 m).0 ((stays b).0 n).0;
      one_per_id = λ a b m n. v.one_per_id a b ((stays a).0 m).0 ((stays b).0 n).0;
      ids_below = λ a m.
          subst (λ n. a.id < n) (sym (next_id-apply_deletions ds (is_int (pk_of a.key)) t))
            (v.ids_below a ((stays a).0 m).0);
    }

append_row-next_id :
    (table other : Bool) (role_pk : ℕ) (k : Key) (t : Tables)
    → (next_id other t ≤ next_id other (append_row table role_pk k t))
      × (next_id table t < next_id table (append_row table role_pk k t))
append_row-next_id true true role_pk k t = (omega arith, omega arith)
append_row-next_id true false role_pk k t = (omega arith, omega arith)
append_row-next_id false true role_pk k t = (omega arith, omega arith)
append_row-next_id false false role_pk k t = (omega arith, omega arith)

module _ (table : Bool) (role_pk : ℕ) (k : Key) (t : Tables) where
  abbrev row : Row
  row = new_row table role_pk k t

  last-Memᴰ : (a : Row) → Memᴰ a (t.rows ++ (row ∷ [])) → Memᴰ a t.rows ⊎ (a ≡ row)
  last-Memᴰ a m = elim (Memᴰ.append_cases t.rows m) [
    | inl n ↦ inl n
    | inr n ↦ elim (Memᴰ.cases_cons n) [ inl e ↦ inr e | inr l ↦ elim l [ ] ]
  ]

  not_fresh :
      (a : Row)
      → IsValid t
      → Memᴰ a t.rows
      → is_int (pk_of k) ≡ table
      → identity_of a ≢ identity_of row
  not_fresh a v m q e =
      let bound = subst (λ x. x.0 < next_id x.1 t) e (v.ids_below a m) in
      let bound' = subst (λ x. next_id table t < next_id x t) q bound in omega arith

  not_there :
      (a : Row) → has_row role_pk k t.rows ≡ false → Memᴰ a t.rows → a.role_id ≡ role_pk → a.key ≢ k
  not_there a h m e f =
      let there =
        Memᴰ-any (λ (other : Row). other.role_id == role_pk && other.key == k) t.rows a m
          (rw (e, f, beq_refl role_pk, beq_refl k) refl) in
      cc

  append_row-IsValid :
      IsValid t
      → is_int (pk_of k) ≡ table
      → has_row role_pk k t.rows ≡ false
      → IsValid (append_row table role_pk k t)
  append_row-IsValid v q h = record {
    one_per_key = λ a b m n e f. elim (last-Memᴰ a m) [
      | inl m' ↦ elim (last-Memᴰ b n) [
        | inl n' ↦ v.one_per_key a b m' n' e f
        | inr g ↦ absurd (not_there a h m' (e ∙ ap Row.role_id g) (f ∙ ap Row.key g))
      ]
      | inr g ↦ elim (last-Memᴰ b n) [
        | inl n' ↦ absurd (not_there b h n' (sym e ∙ ap Row.role_id g) (sym f ∙ ap Row.key g))
        | inr i ↦ g ∙ sym i
      ]
    ];
    one_per_id = λ a b m n e. elim (last-Memᴰ a m) [
      | inl m' ↦ elim (last-Memᴰ b n) [
        | inl n' ↦ v.one_per_id a b m' n' e
        | inr g ↦ absurd (not_fresh a v m' q (e ∙ ap identity_of g))
      ]
      | inr g ↦ elim (last-Memᴰ b n) [
        | inl n' ↦ absurd (not_fresh b v n' q (sym e ∙ ap identity_of g))
        | inr i ↦ g ∙ sym i
      ]
    ];
    ids_below = λ a m. elim (last-Memᴰ a m) [
      | inl m' ↦
          let (more, new) = append_row-next_id table (is_int (pk_of a.key)) role_pk k t in
          omega (arith, v.ids_below a m')
      | inr g ↦
          let (more, new) = append_row-next_id table table role_pk k t in
          subst (λ (x : Row). x.id < next_id (is_int (pk_of x.key)) (append_row table role_pk k t))
            (sym g)
            (subst (λ x. next_id table t < next_id x (append_row table role_pk k t)) (sym q) new)
    ];
  }

insert_row-IsValid :
    (role_pk : ℕ) (k : Key) (t : Tables) → IsValid t → IsValid (insert_row (role_pk, k) t)
insert_row-IsValid role_pk k t v = elim (Bool-cases (has_row role_pk k t.rows)) [
  | inl q ↦ rw q v
  | inr q ↦ rw q (append_row-IsValid (is_int (pk_of k)) role_pk k t v refl q)
]

pub insert_all-IsValid : (es : List (ℕ × Key)) (t : Tables) → IsValid t → IsValid (insert_all es t)
insert_all-IsValid [] t v = v
insert_all-IsValid ((role_pk, k) ∷ es) t v =
    insert_all-IsValid es (insert_row (role_pk, k) t) (insert_row-IsValid role_pk k t v)
