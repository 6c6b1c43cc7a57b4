-- ===== src/Resources/Executor/Laws.antt =====
-- The retries, and the manifests that are complete, of `SyncExecutor` in
-- ansible_base/resource_registry/tasks/sync.py.

use django_ansible_base.Base.{
  ℕ, zero, suc, ◌+◌, ◌-◌, ◌≤◌, ◌≡◌, refl, sym, ap, ◌∙◌, Bool, true, false, not, ◌&&◌, Option, none,
  some, List, [], ◌∷◌, ◌==◌, nat_eq, string_eq, Bool-cases, inl, inr, ◌⊎◌, leb, length, beq→eq,
  arith,
}
use django_ansible_base.Resources.Attempts.{
  Result, returned, raised, Call, and_then, return, ManifestItem, ResourceStore,
}
use django_ansible_base.Resources.Executor.{
  Count, absent, not_numeric, negative, number, ManifestResponse, Manifest, fetched, read_rows,
  read_manifest, fetch_manifest, SyncResult, Progress, report_one, report_results, process_items,
  process_manifest_list, is_empty, next_attempt, retry, handle_retries,
}

is_partial : Manifest → Bool
is_partial (fetched items partial) = partial
is_partial _ = true

items_of : Manifest → List ManifestItem
items_of (fetched items partial) = items
items_of _ = []

-- what a complete manifest was read from
abbrev pub Counted : Count → Option (List ManifestItem) → List ManifestItem → Type 0
Counted count rows items = (rows ≡ some items) × (count ≡ number (length items))

read_rows-Counted :
    (count : Count) (rows items : List ManifestItem)
    → read_rows count rows ≡ fetched items false
    → Counted count (some rows) items
unfolding is_partial items_of
read_rows-Counted absent rows items e = let wrong = ap is_partial e in absurd (cc)
read_rows-Counted not_numeric rows items e = let wrong = ap is_partial e in absurd (cc)
read_rows-Counted negative rows items e = let wrong = ap is_partial e in absurd (cc)
read_rows-Counted (number n) rows items e =
    let whole = ap is_partial e in
    let same = ap items_of e in
    let exact = beq→eq n (length rows) (ground arith) in
    (ap some same, ap number (exact ∙ ap length same))

read_manifest-Counted :
    (count : Count) (rows : Option (List ManifestItem)) (items : List ManifestItem)
    → read_manifest count rows ≡ fetched items false
    → Counted count rows items
unfolding is_partial
read_manifest-Counted absent rows items e = let wrong = ap is_partial e in absurd (cc)
read_manifest-Counted not_numeric rows items e = let wrong = ap is_partial e in absurd (cc)
read_manifest-Counted negative none items e = let wrong = ap is_partial e in absurd (cc)
read_manifest-Counted negative (some rows) items e = read_rows-Counted negative rows items e
read_manifest-Counted (number n) none items e = let wrong = ap is_partial e in absurd (cc)
read_manifest-Counted (number n) (some rows) items e = read_rows-Counted (number n) rows items e

-- a manifest that is complete has as many rows as its header says
pub fetch_manifest-Counted :
    (r : ManifestResponse) (items : List ManifestItem)
    → fetch_manifest r ≡ fetched items false
    → Counted r.count r.rows items
unfolding fetch_manifest is_partial
fetch_manifest-Counted r items e = elim (Bool-cases r.metadata_ok) [
  | inr q ↦ let e1 = rw q at e in let wrong = ap is_partial e1 in absurd (cc)
  | inl q ↦ elim (Bool-cases (r.status == 404)) [
    | inl k ↦ let e1 = rw (q, k) at e in let wrong = ap is_partial e1 in absurd (cc)
    | inr k ↦ elim (Bool-cases (leb 400 r.status && not (leb 600 r.status))) [
      | inl m ↦ let e1 = rw (q, k, m) at e in let wrong = ap is_partial e1 in absurd (cc)
      | inr m ↦ let e1 = rw (q, k, m) at e in read_manifest-Counted r.count r.rows items e1
    ]
  ]
]

module _ {ℓ} {S : Type ℓ} where
  -- what a sequence that returned did
  pub and_then-returned :
      {A B : Type 0} (x : Result A × S) (rest : A → Call S B) (b : B) (s' : S)
      → and_then rest x ≡ (returned b, s')
      → (a : A) × (s1 : S) × (x ≡ (returned a, s1)) × (rest a s1 ≡ (returned b, s'))
  and_then-returned (returned a, s) rest b s' e = (a, s, refl, e)
  and_then-returned (raised d, s) rest b s' e = let wrong = ap (λ x. x.0) e in absurd (cc wrong)

  pub return-returned :
      {A : Type 0} (a b : A) (s s' : S) → return a s ≡ (returned b, s') → (a ≡ b) × (s ≡ s')
  return-returned a b s s' e =
      (ap (λ x. elim x.0 [ returned y ↦ y | raised _ ↦ a ]) e, ap (λ x. x.1) e)

report_results-attempts :
    (rs : List SyncResult) (p : Progress) → (report_results rs p).attempts ≡ p.attempts
unfolding report_results
report_results-attempts [] p = refl
report_results-attempts (r ∷ rs) p = report_results-attempts rs (report_one r p)

report_results-deleted :
    (rs : List SyncResult) (p : Progress) → (report_results rs p).deleted ≡ p.deleted
unfolding report_results
report_results-deleted [] p = refl
report_results-deleted (r ∷ rs) p = report_results-deleted rs (report_one r p)

module _ {ℓ} {S : Type ℓ} (store : ResourceStore S) where
  pub process-returned :
      (items : List ManifestItem) (p q : Progress) (s s' : S)
      → process_manifest_list store items p s ≡ (returned q, s')
      → (q.attempts ≡ p.attempts) × (q.deleted ≡ p.deleted)
  process-returned items p q s s' e =
      let (rs, s1, f, g) =
        and_then-returned (process_items store items s) (λ rs. return (report_results rs p)) q s'
          e in
      let (same, t) = return-returned (report_results rs p) q s1 s' g in
      (
        ap Progress.attempts (sym same) ∙ report_results-attempts rs p,
        ap Progress.deleted (sym same) ∙ report_results-deleted rs p,
      )

  -- what a loop of retries leaves
  abbrev Retried : ℕ → Progress → Progress → Type 0
  Retried left p q =
      ((is_empty q.unavailable ≡ true) ⊎ (q.attempts ≡ left + p.attempts))
      × (p.attempts ≤ q.attempts)
      × (q.attempts ≤ left + p.attempts)
      × (q.deleted ≡ p.deleted)

  retry-Retried :
      (left : ℕ) (p q : Progress) (s s' : S)
      → retry store left p s ≡ (returned q, s')
      → Retried left p q
  retry-Retried zero p q s s' e =
      let (same, t) = return-returned p q s s' e in
      let a = ap Progress.attempts same in
      (inr (omega arith), omega arith, omega arith, ap Progress.deleted (sym same))
  retry-Retried (suc left) p q s s' e = elim (Bool-cases (is_empty p.unavailable)) [
    | inl b ↦
        let e2 = rw b at e in
        let (same, t) = return-returned p q s s' e2 in
        let a = ap Progress.attempts same in
        (
          inl (ap (λ x. is_empty x.unavailable) (sym same) ∙ b),
          omega arith,
          omega arith,
          ap Progress.deleted (sym same),
        )
    | inr b ↦
        let e2 = rw b at e in
        let (later, s1, f, g) =
          and_then-returned (process_manifest_list store p.unavailable p s)
            (λ x. retry store left (next_attempt x)) q s' e2 in
        let (same, d) = process-returned p.unavailable p later s s1 f in
        let (ends, low, high, kept) = retry-Retried left (next_attempt later) q s1 s' g in
        (
          elim ends [ inl x ↦ inl x | inr x ↦ inr (omega (arith, x)) ],
          omega arith,
          omega arith,
          kept ∙ d,
        )
  ]

  -- When the retries of a type have returned, no resource is unavailable or the permitted number of
  -- attempts is used up; the attempts are not more than that number, or than they were before if
  -- that is larger, and the list of
  -- the orphans that were deleted is as it was. A conflict that an attempt meets may still delete the
  -- resource it is with.
  pub handle_retries-Retried :
      (retries : ℕ) (p q : Progress) (s s' : S)
      → handle_retries store retries p s ≡ (returned q, s')
      → ((is_empty q.unavailable ≡ true) ⊎ (retries ≤ q.attempts))
        × (p.attempts ≤ q.attempts)
        × (q.attempts ≤ retries - p.attempts + p.attempts)
        × (q.deleted ≡ p.deleted)
  unfolding handle_retries
  handle_retries-Retried retries p q s s' e =
      let (ends, low, high, kept) = retry-Retried (retries - p.attempts) p q s s' e in
      (elim ends [ inl x ↦ inl x | inr x ↦ inr (omega (arith, x)) ], low, high, kept)
