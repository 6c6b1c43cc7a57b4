-- ===== src/Rbac/Evaluations/Updates/Recompute.antt =====
-- The tables after `recompute_role_evaluations` of ansible_base/rbac/caching.py.
use django_ansible_base.Base.{
  ℕ, ◌<◌, ◌≡◌, refl, sym, ap, ◌∙◌, subst, Bool, true, false, not, ◌&&◌, ◌||◌, none, List, [], ◌∷◌,
  ◌++◌, ◌==◌, nat_eq, bool_eq, pair_eq, Bool-cases, inl, inr, all, map, filter_by, contains,
  contains-append, contains-filter_by, beq→eq, beq_refl, if◌then◌else◌, arith, ok,
}
use mathlib.Core.List.{Memᴰ}
use django_ansible_base.Rbac.Teams.{no_conflict}
use django_ansible_base.Rbac.Evaluations.Keys.{Key, key_eq}
use django_ansible_base.Rbac.Evaluations.Expected.{ObjectRole, World}
use django_ansible_base.Rbac.Evaluations.Updates.{
  Row, Tables, Holders, Identity, identity_eq, identity_of, has_row, next_id, insert_row,
  insert_all, has_type_id, has_id, is_int_row, safe_bulk_create_evaluations, apply_additions,
  Needed, collect,
}
use django_ansible_base.Rbac.Evaluations.Updates.Writes.{keeps, IsBelow}
use django_ansible_base.Rbac.Evaluations.Updates.Laws.{
  granted, roles_below, AllSame, IsValid, IsNeeded, needed_cache_updates-IsNeeded,
}

keeps_all :
    (ds : List Identity) (r : ℕ) (k : Key) (rows : List Row)
    → ((row : Row)
        → Memᴰ row rows
        → row.role_id ≡ r
        → row.key ≡ k
        → contains (identity_of row) ds ≡ false)
    → keeps ds r k rows ≡ has_row r k rows
keeps_all ds r k [] h = refl
keeps_all ds r k (row ∷ rows) h =
    let rest = keeps_all ds r k rows (λ other m. h other (Memᴰ.tail m)) in
    elim (Bool-cases (row.role_id == r && row.key == k)) [
      | inl q ↦
          let kept =
            h row (Memᴰ.head refl) (beq→eq row.role_id r (ground arith))
              (beq→eq row.key k (ground arith)) in
          ground (arith, rest)
      | inr q ↦ ground (arith, rest)
    ]

keeps_none :
    (ds : List Identity) (r : ℕ) (k : Key) (rows : List Row)
    → ((row : Row)
        → Memᴰ row rows
        → row.role_id ≡ r
        → row.key ≡ k
        → contains (identity_of row) ds ≡ true)
    → keeps ds r k rows ≡ false
keeps_none ds r k [] h = refl
keeps_none ds r k (row ∷ rows) h =
    let rest = keeps_none ds r k rows (λ other m. h other (Memᴰ.tail m)) in
    elim (Bool-cases (row.role_id == r && row.key == k)) [
      | inl q ↦
          let gone =
            h row (Memᴰ.head refl) (beq→eq row.role_id r (ground arith))
              (beq→eq row.key k (ground arith)) in
          ground (arith, rest)
      | inr q ↦ ground (arith, rest)
    ]

insert_all-append :
    (xs ys : List (ℕ × Key)) (t : Tables)
    → insert_all ys (insert_all xs t) ≡ insert_all (xs ++ ys) t
insert_all-append [] ys t = refl
insert_all-append (x ∷ xs) ys t = insert_all-append xs ys (insert_row x t)

safe_bulk_create_evaluations_ok :
    (es : List (ℕ × Key)) (t : Tables)
    → all has_id es ≡ true
    → safe_bulk_create_evaluations no_conflict true es t ≡ ok (insert_all es t)
unfolding safe_bulk_create_evaluations
safe_bulk_create_evaluations_ok [] t h = refl
safe_bulk_create_evaluations_ok (e ∷ es) t h = rw h refl

all-filter_by :
    (p : ℕ × Key → Bool) (es : List (ℕ × Key))
    → all has_id es ≡ true
    → all has_id (filter_by p es) ≡ true
all-filter_by p [] h = refl
all-filter_by p (e ∷ es) h = ground (arith, all-filter_by p es, Bool-cases (p e))

-- the additions, in the order of the two tables
abbrev pub by_table : List (ℕ × Key) → List (ℕ × Key)
by_table es = filter_by is_int_row es ++ filter_by (λ e. not (is_int_row e)) es

pub contains-by_table :
    (e : ℕ × Key) (es : List (ℕ × Key)) → contains e (by_table es) ≡ contains e es
contains-by_table e es = ground (
  arith,
  contains-append e (filter_by is_int_row es) (filter_by (λ e. not (is_int_row e)) es),
  contains-filter_by is_int_row e es,
  contains-filter_by (λ e. not (is_int_row e)) e es,
)

pub apply_additions-by_table :
    (es : List (ℕ × Key)) (t : Tables)
    → all has_id es ≡ true
    → apply_additions no_conflict no_conflict true es t ≡ ok (insert_all (by_table es) t)
apply_additions-by_table es t h =
    let ints = filter_by is_int_row es in
    let uuids = filter_by (λ e. not (is_int_row e)) es in
    rw (safe_bulk_create_evaluations_ok ints t (all-filter_by is_int_row es h)) (
      safe_bulk_create_evaluations_ok uuids (insert_all ints t)
        (all-filter_by (λ e. not (is_int_row e)) es h)
      ∙ ap ok (insert_all-append ints uuids t))

module _ (w : World) (h : Holders) (role_of : ℕ → ObjectRole) where
  abbrev pub grants : ℕ → List Key
  grants r = granted w h (role_of r)

  -- The hypotheses on the world for the roles of some keys: a key is that of its role, the id lists
  -- of a content type agree, and content types stand in keys by their ids.
  abbrev pub Recomputable : List ℕ → Type 0
  Recomputable pks =
      (r : ℕ)
      → contains r pks ≡ true
      → ((role_of r).pk ≡ r)
        × AllSame w (roles_below h (role_of r))
        × (all has_type_id (granted w h (role_of r)) ≡ true)

module _ (w : World) (h : Holders) (role_of : ℕ → ObjectRole) (t : Tables) where
  join-IsNeeded :
      (selects others both : ℕ → Bool) (n m : Needed)
      → ((r : ℕ) → both r ≡ (selects r || others r))
      → IsNeeded w h t selects (grants w h role_of) n
      → IsNeeded w h t others (grants w h role_of) m
      → IsNeeded w h t both (grants w h role_of) (n.0 ++ m.0, n.1 ++ m.1)
  join-IsNeeded selects others both n m e (a, b, c) (a', b', c') = (
    λ i q. elim (Bool-cases (contains i n.0)) [
      | inl k ↦ let (row, l, s, d, f) = a i k in (row, l, ground (arith, e row.role_id), d, f)
      | inr k ↦
          let (row, l, s, d, f) = a' i (ground (arith, contains-append i n.0 m.0)) in
          (row, l, ground (arith, e row.role_id), d, f)
    ],
    λ row l s d. elim (Bool-cases (selects row.role_id)) [
      | inl k ↦ ground (arith, b row l k d, contains-append (identity_of row) n.0 m.0)
      | inr k ↦ ground (
        arith,
        b' row l (ground (arith, e row.role_id)) d,
        contains-append (identity_of row) n.0 m.0,
      )
    ],
    λ r k. contains-append {A = ℕ × Key} (r, k) n.1 m.1 ∙ ground (arith, e r, c r k, c' r k),
  )

  pub collect-IsNeeded :
      (pks : List ℕ)
      → IsValid t
      → Recomputable w h role_of pks
      → (n : Needed) × (collect w h t.rows none none (map role_of pks) ≡ ok n)
        × IsNeeded w h t (λ r. contains r pks) (grants w h role_of) n
  collect-IsNeeded [] v p =
      (([], []), refl, (λ i q. absurd (cc q), λ row m q. absurd (cc q), λ r k. refl))
  collect-IsNeeded (pk ∷ pks) v p =
      let (own, same, typed) = p pk (ground (arith, beq_refl pk)) in
      let (n, e, first) =
        needed_cache_updates-IsNeeded w h t (role_of pk) (grants w h role_of) v same
          (ap (grants w h role_of) own) in
      let (m, d, rest) = collect-IsNeeded pks v (λ r q. p r (ground arith)) in
      (
        (n.0 ++ m.0, n.1 ++ m.1),
        rw (e, d) refl,
        join-IsNeeded (λ r. (role_of pk).pk == r) (λ r. contains r pks) (λ r. contains r (pk ∷ pks))
            n m (λ r. rw own refl) first rest,
      )

  -- what the updates leave of a role's key
  pub written_lem :
      (selects : ℕ → Bool) (n : Needed) (r : ℕ) (k : Key)
      → IsValid t
      → IsNeeded w h t selects (grants w h role_of) n
      → (keeps n.0 r k t.rows || (contains {A = ℕ × Key} (r, k) n.1 && not (has_row r k t.rows)))
        ≡ (if selects r then contains k (grants w h role_of r) else has_row r k t.rows)
  written_lem selects n r k v (a, b, c) =
      elim (Bool-cases (selects r && not (contains k (grants w h role_of r)))) [
        | inl q ↦
            let gone = keeps_none n.0 r k t.rows (λ row m e f.
              b row m (ap selects e ∙ ground arith) (
                ap (λ x. contains x (grants w h role_of row.role_id)) f
                ∙ ap (λ x. contains k (grants w h role_of x)) e
                ∙ ground arith)) in
            ground (arith, c r k)
        | inr q ↦
            let kept = keeps_all n.0 r k t.rows (λ row m e f.
              elim (Bool-cases (contains (identity_of row) n.0)) [
                | inr g ↦ g
                | inl g ↦
                    let (other, l, s, d, i) = a (identity_of row) g in
                    let same = v.one_per_id other row l m i in
                    let s' = sym (ap (λ x. selects x.role_id) same ∙ ap selects e) ∙ s in
                    let d' =
                      sym (
                        ap (λ x. contains x.key (grants w h role_of x.role_id)) same
                        ∙ ap (λ x. contains x (grants w h role_of row.role_id)) f
                        ∙ ap (λ x. contains k (grants w h role_of x)) e)
                      ∙ d in
                    absurd (ground arith)
              ]) in
            ground (arith, c r k)
      ]

  pub IsBelow-IsValid :
      (selects : ℕ → Bool) (n : Needed)
      → IsValid t
      → IsNeeded w h t selects (grants w h role_of) n
      → IsBelow n.0 t
  IsBelow-IsValid selects n v (a, b, c) id table m =
      let (row, l, s, d, e) = a (id, table) m in
      subst (λ x. x.0 < next_id x.1 t) e (v.ids_below row l)
