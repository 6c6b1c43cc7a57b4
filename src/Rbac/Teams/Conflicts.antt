-- ===== src/Rbac/Teams/Conflicts.antt =====
-- The write of the member roles under concurrent deletions: `_safe_m2m_add` of
-- ansible_base/rbac/caching.py.
use django_ansible_base.Base.{
  ℕ, ◌≡◌, sym, ap, subst, true, not, ◌||◌, none, some, List, [], ◌∷◌, nat_eq, contains,
  contains-append, contains-filter_by, filter_by, arith, Bool-cases, Option-cases, inl, inr,
}
use django_ansible_base.Rbac.Teams.{
  is_stale_objectrole_fk, Attempts, retry_add, safe_m2m_add, add_missing, minus, update_team,
}

some_injective : {a b : List ℕ} → some a ≡ some b → a ≡ b
some_injective {a} p = ap (λ m. elim m [ some x ↦ x | none ↦ a ]) p

-- the rows after a call are those before and some of those to add
abbrev Extends : List ℕ → List ℕ → List ℕ → Type 0
Extends to_add existing now =
    (x : ℕ) → contains x now ≡ true → (contains x existing || contains x to_add) ≡ true

retry_add-Extends :
    (attempts : Attempts) (to_add existing now : List ℕ)
    → retry_add attempts to_add existing ≡ some now
    → Extends to_add existing now
retry_add-Extends attempts [] existing now e x m = ground (arith, some_injective e)
retry_add-Extends attempts (r ∷ rs) existing now e x m = elim (Option-cases attempts.second) [
  | inl q ↦
      let k = some_injective (rw (q, retry_add) at e) in
      ground (arith, contains-append x existing (r ∷ rs))
  | inr (f, q) ↦ elim (Bool-cases (is_stale_objectrole_fk f)) [
    | inl s ↦ let k = some_injective (rw (q, s, retry_add) at e) in ground arith
    | inr s ↦ absurd (cc (rw (q, s, retry_add) at e))
  ]
]

safe_m2m_add-Extends :
    (attempts : Attempts) (to_add existing now : List ℕ)
    → safe_m2m_add attempts to_add existing ≡ some now
    → Extends to_add existing now
unfolding safe_m2m_add
safe_m2m_add-Extends attempts to_add existing now e x m = elim (Option-cases attempts.first) [
  | inl q ↦
      let k = some_injective (rw (q, safe_m2m_add) at e) in
      ground (arith, contains-append x existing to_add)
  | inr (f, q) ↦ elim (Bool-cases (is_stale_objectrole_fk f)) [
    | inl s ↦
        let left = filter_by (λ r. contains r attempts.alive) to_add in
        let h = retry_add-Extends attempts left existing now (rw (q, s, safe_m2m_add) at e) x m in
        ground (arith, contains-filter_by (λ r. contains r attempts.alive) x to_add)
    | inr s ↦ absurd (cc (rw (q, s, safe_m2m_add) at e))
  ]
]

add_missing-Extends :
    (attempts : Attempts) (to_add existing now : List ℕ)
    → add_missing attempts to_add existing ≡ some now
    → Extends to_add existing now
add_missing-Extends attempts [] existing now e x m = ground (arith, some_injective e)
add_missing-Extends attempts (r ∷ rs) existing now e x m =
    safe_m2m_add-Extends attempts (r ∷ rs) existing now e x m

-- Whatever the database answers to the two attempts, a write that returns leaves the team no role
-- but the expected ones.
pub update_team-expected :
    (attempts : Attempts) (expected existing now : List ℕ)
    → update_team attempts expected existing ≡ some now
    → (x : ℕ) → contains x now ≡ true
    → contains x expected ≡ true
unfolding update_team
update_team-expected attempts expected existing now e x m =
    let to_add = minus expected existing in
    elim (Option-cases (add_missing attempts to_add existing)) [
      | inl q ↦ absurd (cc (rw (q, update_team) at e))
      | inr (mid, q) ↦
          let k = some_injective (rw (q, update_team) at e) in
          let n : contains x (minus mid (minus existing expected)) ≡ true =
            subst (λ l. contains x l ≡ true) (sym k) m in
          ground (
            arith,
            add_missing-Extends attempts to_add existing mid q x,
            contains-filter_by (λ y. not (contains y (minus existing expected))) x mid,
            contains-filter_by (λ y. not (contains y existing)) x expected,
            contains-filter_by (λ y. not (contains y expected)) x existing,
          )
    ]
