-- ===== src/Rbac/Descendants/Laws.antt =====
-- The search through the content types of ansible_base/rbac/validators.py against chains of
-- parents and children.
use django_ansible_base.Base.{
  ℕ, zero, suc, ◌+◌, ◌≤◌, ◌≡◌, refl, subst, true, Option, some, List, [], ◌∷◌, ◌==◌, nat_eq,
  contains, length, arith, Bool-cases, inl, inr, beq→eq, beq_refl, ◌↔◌, ◌⊎◌,
}
use django_ansible_base.Base.Dict.{get_or}
use django_ansible_base.Rbac.Graph.{Graph, listed}
use django_ansible_base.Rbac.Graph.Laws.{
  unseen, unseen_le_length, listed-get_or, Above, direct, further, closed-Above,
}
use django_ansible_base.Rbac.Descendants.{
  Search, meet_all, search_from, get_descendent_models_from_db,
}
use django_ansible_base.Rbac.Descendants.Rounds.{IsSame, IsMet, meet_all-IsMet}

module _ (children : Graph) (main : ℕ) where
  -- the start, and what is found
  abbrev IsKnown : Search → ℕ → Type 0
  IsKnown s x = (main ≡ x) ⊎ (contains x s.result ≡ true)

  -- What holds before each round: what is found is below the start, what waits is known, and each
  -- that is known waits or has its children found.
  record IsFront (s : Search) : Type 0 where
    pub sound : (x : ℕ) → contains x s.result ≡ true → Above children main x
    pub waiting : (x : ℕ) → contains x s.queue ≡ true → IsKnown s x
    pub finished :
        (x q : ℕ)
        → IsKnown s x
        → contains q (get_or x [] children) ≡ true
        → (contains x s.queue ≡ true) ⊎ (contains q s.result ≡ true)
    pub same : IsSame s

  round_lem :
      (current : ℕ) (rest : List ℕ) (s next : Search)
      → s.queue ≡ current ∷ rest
      → IsFront s
      → IsMet (listed children) (get_or current [] children) (record s { queue = rest }) next
      → IsFront next
  round_lem current rest s next e f m =
      let known : IsKnown s current = f.waiting current (rw e (ground (arith, beq_refl current))) in
      let below : (q : ℕ) → contains q (get_or current [] children) ≡ true → Above children main q =
        (λ q n. elim known [ inl k ↦ direct (rw k n) | inr k ↦ further (f.sound current k) n ]) in
      let old : (x : ℕ) → IsKnown s x → IsKnown next x =
        (λ x k. elim k [ inl j ↦ inl j | inr j ↦ inr (m.grow x j) ]) in
      let done : (x q : ℕ)
          → IsKnown s x
          → contains q (get_or x [] children) ≡ true
          → (contains x next.queue ≡ true) ⊎ (contains q next.result ≡ true) =
        (λ x q k n. elim (f.finished x q k n) [
          | inl j ↦ elim (Bool-cases (current == x)) [
            | inl i ↦ inr (m.found q (rw (beq→eq current x i) n))
            | inr i ↦ inl (m.wait x (ground (arith, rw e at j)))
          ]
          | inr j ↦ inr (m.grow q j)
        ]) in
      record {
        sound = λ x n. elim (m.fresh x n) [ inl k ↦ f.sound x k | inr (k, w) ↦ below x k ];
        waiting = λ x n. elim (m.queued x n) [
          | inl k ↦ old x (f.waiting x (rw e (ground arith)))
          | inr k ↦ inr k
        ];
        finished = λ x q k n. elim k [
          | inl j ↦ done x q (inl j) n
          | inr j ↦ elim (m.fresh x j) [ inl i ↦ done x q (inr i) n | inr (i, w) ↦ inl w ]
        ];
        same = m.same;
      }

  abbrev Finds : Option (List ℕ) → Type 0
  Finds r =
      (out : List ℕ) × (r ≡ some out) × ((x : ℕ) → (contains x out ≡ true) ↔ Above children main x)

  search_from-Finds :
      (fuel : ℕ) (queue : List ℕ) (s : Search)
      → s.queue ≡ queue
      → IsFront s
      → unseen (listed children) s.seen_ids + length queue ≤ fuel
      → Finds (search_from children fuel queue s)
  search_from-Finds fuel [] s e f h =
      let all_done : (x q : ℕ)
          → IsKnown s x
          → contains q (get_or x [] children) ≡ true
          → contains q s.result ≡ true =
        (λ x q k n. elim (f.finished x q k n) [ inl j ↦ absurd (cc (rw e at j)) | inr j ↦ j ]) in
      (
        s.result,
        refl,
        λ x. (
          f.sound x,
          closed-Above children main s.result (λ p n. all_done main p (inl refl) n)
              (λ y q n k. all_done y q (inr n) k) x,
        ),
      )
  search_from-Finds zero (current ∷ rest) s e f h = absurd (omega (arith, h))
  search_from-Finds (suc fuel) (current ∷ rest) s e f h =
      let s₀ : Search = record s { queue = rest } in
      let m =
        meet_all-IsMet (listed children) (get_or current [] children) s₀
          (λ x n. listed-get_or children current x n) f.same in
      let next = meet_all (get_or current [] children) s₀ in
      search_from-Finds fuel next.queue next refl (round_lem current rest s next e f m)
        (omega (arith, m.bound, h))

-- The search comes to an end for any mapping of content types to their children, with loops or
-- without, and returns exactly the descendants of the content type, those by one or more steps.
pub get_descendent_models_from_db-Above :
    (children : Graph) (main : ℕ)
    → (out : List ℕ) × (get_descendent_models_from_db children main ≡ some out)
      × ((x : ℕ) → (contains x out ≡ true) ↔ Above children main x)
unfolding get_descendent_models_from_db
get_descendent_models_from_db-Above children main =
    let start : Search = record { seen_ids = []; result = []; queue = main ∷ [] } in
    search_from-Finds children main (suc (length (listed children))) (main ∷ []) start refl
      (record {
        sound = λ x n. absurd (cc);
        waiting = λ x n. inl (beq→eq main x (ground arith));
        finished = λ x q k n. elim k [
          | inl j ↦
              inl (subst (λ y. contains y (main ∷ []) ≡ true) j (ground (arith, beq_refl main)))
          | inr j ↦ absurd (cc)
        ];
        same = λ x. refl;
      })
      (omega (arith, unseen_le_length (listed children) []))
