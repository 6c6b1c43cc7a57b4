-- ===== src/Rbac/Descendants/Rounds.antt =====
-- One round of the search through the content types of ansible_base/rbac/validators.py: the children
-- of a content type are met.
use django_ansible_base.Base.{
  ℕ, ◌+◌, ◌≤◌, ◌≡◌, ◌∙◌, subst, true, List, [], ◌∷◌, ◌==◌, nat_eq, contains, contains-append,
  length, length-append, arith, Bool-cases, inl, inr, beq→eq, beq_refl, ◌⊎◌,
}
use django_ansible_base.Rbac.Graph.Laws.{unseen, unseen_lt}
use django_ansible_base.Rbac.Descendants.{Search, meet, meet_all}

abbrev pub IsSame : Search → Type 0
IsSame s = (x : ℕ) → contains x s.result ≡ contains x s.seen_ids

-- what meeting the children `cs` has done to a search; `xs` bounds the ids
pub record IsMet (xs cs : List ℕ) (s s' : Search) : Type 0 where
  pub grow : (x : ℕ) → contains x s.result ≡ true → contains x s'.result ≡ true
  pub wait : (x : ℕ) → contains x s.queue ≡ true → contains x s'.queue ≡ true
  pub found : (x : ℕ) → contains x cs ≡ true → contains x s'.result ≡ true
  pub fresh :
      (x : ℕ)
      → contains x s'.result ≡ true
      → (contains x s.result ≡ true) ⊎ ((contains x cs ≡ true) × (contains x s'.queue ≡ true))
  pub queued :
      (x : ℕ)
      → contains x s'.queue ≡ true
      → (contains x s.queue ≡ true) ⊎ (contains x s'.result ≡ true)
  pub bound : unseen xs s'.seen_ids + length s'.queue ≤ unseen xs s.seen_ids + length s.queue
  pub same : IsSame s'

meet-IsMet :
    (xs : List ℕ) (c : ℕ) (s : Search)
    → contains c xs ≡ true
    → IsSame s
    → IsMet xs (c ∷ []) s (meet c s)
meet-IsMet xs c s m h = elim (Bool-cases (contains c s.seen_ids)) [
  | inl q ↦
      rw (q, meet)
        (record {
          grow = λ x n. n;
          wait = λ x n. n;
          found = λ x n. elim (Bool-cases (c == x)) [
            | inl k ↦ subst (λ y. contains y s.result ≡ true) (beq→eq c x k) (h c ∙ q)
            | inr k ↦ absurd (ground arith)
          ];
          fresh = λ x n. inl n;
          queued = λ x n. inl n;
          bound = omega arith;
          same = h;
        })
  | inr q ↦
      rw (q, meet)
        (record {
          grow = λ x n. ground (arith, contains-append x s.result (c ∷ []));
          wait = λ x n. ground (arith, contains-append x s.queue (c ∷ []));
          found = λ x n. ground (arith, contains-append x s.result (c ∷ []));
          fresh = λ x n. elim (Bool-cases (contains x s.result)) [
            | inl k ↦ inl k
            | inr k ↦ inr (
              ground (arith, contains-append x s.result (c ∷ [])),
              ground
                  (arith, contains-append x s.result (c ∷ []), contains-append x s.queue (c ∷ [])),
            )
          ];
          queued = λ x n. elim (Bool-cases (contains x s.queue)) [
            | inl k ↦ inl k
            | inr k ↦ inr (
                ground
                  (arith, contains-append x s.result (c ∷ []), contains-append x s.queue (c ∷ [])))
          ];
          bound = omega (arith, unseen_lt xs s.seen_ids c m q, length-append s.queue (c ∷ []));
          same = λ x. ground (arith, h x, contains-append x s.result (c ∷ []));
        })
]

IsMet-join :
    (xs cs : List ℕ) (c : ℕ) (s s₁ s₂ : Search)
    → IsMet xs (c ∷ []) s s₁
    → IsMet xs cs s₁ s₂
    → IsMet xs (c ∷ cs) s s₂
IsMet-join xs cs c s s₁ s₂ a b = record {
  grow = λ x n. b.grow x (a.grow x n);
  wait = λ x n. b.wait x (a.wait x n);
  found = λ x n. elim (Bool-cases (c == x)) [
    | inl k ↦ b.grow x (a.found x (ground arith))
    | inr k ↦ b.found x (ground arith)
  ];
  fresh = λ x n. elim (b.fresh x n) [
    | inl k ↦ elim (a.fresh x k) [ inl j ↦ inl j | inr (j, w) ↦ inr (ground arith, b.wait x w) ]
    | inr (k, w) ↦ inr (ground arith, w)
  ];
  queued = λ x n. elim (b.queued x n) [
    | inl k ↦ elim (a.queued x k) [ inl j ↦ inl j | inr j ↦ inr (b.grow x j) ]
    | inr k ↦ inr k
  ];
  bound = omega (arith, a.bound, b.bound);
  same = b.same;
}

pub meet_all-IsMet :
    (xs cs : List ℕ) (s : Search)
    → ((x : ℕ) → contains x cs ≡ true → contains x xs ≡ true)
    → IsSame s
    → IsMet xs cs s (meet_all cs s)
meet_all-IsMet xs [] s u h = record {
  grow = λ x n. n;
  wait = λ x n. n;
  found = λ x n. absurd (cc);
  fresh = λ x n. inl n;
  queued = λ x n. inl n;
  bound = omega arith;
  same = h;
}
meet_all-IsMet xs (c ∷ cs) s u h =
    let first = meet-IsMet xs c s (u c (ground (arith, beq_refl c))) h in
    IsMet-join xs cs c s (meet c s) (meet_all cs (meet c s)) first
      (meet_all-IsMet xs cs (meet c s) (λ x m. u x (ground arith)) first.same)
