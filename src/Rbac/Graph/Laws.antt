-- ===== src/Rbac/Graph/Laws.antt =====
-- The search through the teams of teams of ansible_base/rbac/caching.py against chains of
-- memberships.
use django_ansible_base.Base.{
  ℕ, zero, suc, ◌+◌, ◌≤◌, ◌<◌, ◌≡◌, refl, true, false, ◌||◌, Option, some, List, [], ◌∷◌, ◌++◌,
  ◌==◌, nat_eq, if◌then◌else◌, contains, contains-append, length, arith, subst, ap, ◌∙◌, Bool-cases,
  inl, inr, beq→eq, beq_refl, ◌↔◌,
}
use django_ansible_base.Base.Dict.{get_or}
use django_ansible_base.Rbac.Graph.{
  Graph, all_team_children, children_of, fst_of, Found, visit_all, all_team_parents, listed, enough,
  parents_of,
}

-- the listed teams that are not seen yet
abbrev pub unseen : List ℕ → List ℕ → ℕ
unseen [] seen = 0
unseen (x ∷ xs) seen = (if contains x seen then 0 else 1) + unseen xs seen

pub unseen_le_length : (xs seen : List ℕ) → unseen xs seen ≤ length xs
unseen_le_length [] seen = omega arith
unseen_le_length (x ∷ xs) seen = ground (arith, unseen_le_length xs seen)

unseen_mono :
    (xs seen later : List ℕ)
    → ((x : ℕ) → contains x seen ≡ true → contains x later ≡ true)
    → unseen xs later ≤ unseen xs seen
unseen_mono [] seen later h = omega arith
unseen_mono (x ∷ xs) seen later h = ground (arith, unseen_mono xs seen later h, h x)

pub unseen_lt :
    (xs seen : List ℕ) (p : ℕ)
    → contains p xs ≡ true
    → contains p seen ≡ false
    → unseen xs (p ∷ seen) < unseen xs seen
unseen_lt [] seen p m h = absurd (cc)
unseen_lt (x ∷ xs) seen p m h = elim (Bool-cases (x == p)) [
  | inl q ↦
      let e : x ≡ p = beq→eq x p q in
      ground (arith, e, beq_refl p, unseen_mono xs seen (p ∷ seen) (λ y s. ground arith))
  | inr q ↦
      ground (arith, unseen_lt xs seen p (ground arith) h, nat_eq.eqb_iff p x, nat_eq.eqb_iff x p)
]

pub listed-get_or :
    (g : Graph) (t q : ℕ) → contains q (get_or t [] g) ≡ true → contains q (listed g) ≡ true
listed-get_or [] t q m = m
listed-get_or ((s, ps) ∷ g) t q m = elim (Bool-cases (s == t)) [
  | inl e ↦ let k = rw (e, get_or) at m in rw (contains-append q ps (listed g), k) refl
  | inr e ↦
      let k = rw (e, get_or) at m in
      ground (arith, contains-append q ps (listed g), listed-get_or g t q k)
]

visit_all-found :
    (visit : ℕ → List ℕ → Option Found) (p : ℕ) (ps seen out₁ seen₁ out₂ seen₂ : List ℕ)
    → contains p seen ≡ false
    → visit p (p ∷ seen) ≡ some (out₁, seen₁)
    → visit_all visit ps seen₁ ≡ some (out₂, seen₂)
    → visit_all visit (p ∷ ps) seen ≡ some (p ∷ (out₁ ++ out₂), seen₂)
visit_all-found visit p ps seen out₁ seen₁ out₂ seen₂ q e₁ e₂ = rw (q, e₁, e₂, visit_all) refl

module _ (g : Graph) (R : ℕ → Type 0)
    (step : (t q : ℕ) → R t → contains q (get_or t [] g) ≡ true → R q) where
  -- what a search from `ps` has found when `seen` has become `seen'`
  record IsSearch (ps seen out seen' : List ℕ) : Type 0 where
    pub same : (x : ℕ) → contains x seen' ≡ (contains x seen || contains x out)
    pub sound : (x : ℕ) → contains x out ≡ true → R x
    pub starts : (p : ℕ) → contains p ps ≡ true → contains p seen' ≡ true
    pub closed :
        (x q : ℕ)
        → contains x out ≡ true
        → contains q (get_or x [] g) ≡ true
        → contains q seen' ≡ true

  abbrev Succeeds : List ℕ → List ℕ → Option Found → Type 0
  Succeeds ps seen r =
      (out : List ℕ) × (seen' : List ℕ) × (r ≡ some (out, seen')) × IsSearch ps seen out seen'

  IsSearch-join :
      (p : ℕ) (ps seen out₁ seen₁ out₂ seen₂ : List ℕ)
      → R p
      → IsSearch (get_or p [] g) (p ∷ seen) out₁ seen₁
      → IsSearch ps seen₁ out₂ seen₂
      → IsSearch (p ∷ ps) seen (p ∷ (out₁ ++ out₂)) seen₂
  IsSearch-join p ps seen out₁ seen₁ out₂ seen₂ r c₁ c₂ =
      let grow : (x : ℕ) → contains x seen₁ ≡ true → contains x seen₂ ≡ true =
        (λ x m. ground (arith, c₂.same x)) in
      let first : contains p seen₁ ≡ true = ground (arith, c₁.same p, beq_refl p) in
      record {
        same = λ x. ground (arith, c₁.same x, c₂.same x, contains-append x out₁ out₂);
        sound = λ x m. elim (Bool-cases (p == x)) [
          | inl q ↦ subst R (beq→eq p x q) r
          | inr q ↦ elim (Bool-cases (contains x out₁)) [
            | inl k ↦ c₁.sound x k
            | inr k ↦ c₂.sound x (ground (arith, contains-append x out₁ out₂))
          ]
        ];
        starts = λ x m. elim (Bool-cases (p == x)) [
          | inl q ↦ subst (λ y. contains y seen₂ ≡ true) (beq→eq p x q) (grow p first)
          | inr q ↦ c₂.starts x (ground arith)
        ];
        closed = λ x q m n. elim (Bool-cases (p == x)) [
          | inl k ↦ grow q (c₁.starts q (rw (beq→eq p x k) n))
          | inr k ↦ elim (Bool-cases (contains x out₁)) [
            | inl j ↦ grow q (c₁.closed x q j n)
            | inr j ↦ c₂.closed x q (ground (arith, contains-append x out₁ out₂)) n
          ]
        ];
      }

  visit_all-Succeeds :
      (xs : List ℕ) (fuel : ℕ) (visit : ℕ → List ℕ → Option Found)
      → ((p : ℕ) (seen : List ℕ)
          → R p
          → unseen xs seen < fuel
          → Succeeds (get_or p [] g) seen (visit p seen))
      → (ps seen : List ℕ) → ((p : ℕ) → contains p ps ≡ true → R p)
      → ((p : ℕ) → contains p ps ≡ true → contains p xs ≡ true)
      → unseen xs seen ≤ fuel
      → Succeeds ps seen (visit_all visit ps seen)
  visit_all-Succeeds xs fuel visit ih [] seen r u h = (
    [],
    seen,
    refl,
    record {
      same = λ x. ground arith;
      sound = λ x m. absurd (cc);
      starts = λ p m. absurd (cc);
      closed = λ x q m n. absurd (cc);
    },
  )
  visit_all-Succeeds xs fuel visit ih (p ∷ ps) seen r u h =
      let rp : R p = r p (ground (arith, beq_refl p)) in
      let r' : (x : ℕ) → contains x ps ≡ true → R x = (λ x m. r x (ground arith)) in
      let u' : (x : ℕ) → contains x ps ≡ true → contains x xs ≡ true =
        (λ x m. u x (ground arith)) in
      elim (Bool-cases (contains p seen)) [
        | inl q ↦
            let (out, seen', e, c) = visit_all-Succeeds xs fuel visit ih ps seen r' u' h in
            (
              out,
              seen',
              rw (q, visit_all) e,
              record {
                same = c.same;
                sound = c.sound;
                starts = λ x m. elim (Bool-cases (p == x)) [
                  | inl k ↦ ground (arith, beq→eq p x k, c.same x)
                  | inr k ↦ c.starts x (ground arith)
                ];
                closed = c.closed;
              },
            )
        | inr q ↦
            let lt = unseen_lt xs seen p (u p (ground (arith, beq_refl p))) q in
            let (out₁, seen₁, e₁, c₁) = ih p (p ∷ seen) rp (omega (arith, lt, h)) in
            let le = unseen_mono xs seen seen₁ (λ x m. ground (arith, c₁.same x)) in
            let (out₂, seen₂, e₂, c₂) =
              visit_all-Succeeds xs fuel visit ih ps seen₁ r' u' (omega (arith, le, h)) in
            (
              p ∷ (out₁ ++ out₂),
              seen₂,
              visit_all-found visit p ps seen out₁ seen₁ out₂ seen₂ q e₁ e₂,
              IsSearch-join p ps seen out₁ seen₁ out₂ seen₂ rp c₁ c₂,
            )
      ]

  all_team_parents-Succeeds :
      (fuel t : ℕ) (seen : List ℕ)
      → ((p : ℕ) → contains p (get_or t [] g) ≡ true → R p)
      → unseen (listed g) seen < fuel
      → Succeeds (get_or t [] g) seen (all_team_parents g fuel t seen)
  unfolding all_team_parents
  all_team_parents-Succeeds zero t seen r h = absurd (omega arith)
  all_team_parents-Succeeds (suc fuel) t seen r h =
      visit_all-Succeeds (listed g) fuel (all_team_parents g fuel)
        (λ p later rp lt. all_team_parents-Succeeds fuel p later (λ q m. step p q rp m) lt)
        (get_or t [] g) seen r (λ q m. listed-get_or g t q m) (omega arith)

-- A chain of one or more memberships leads from a team to another.
pub data Above (g : Graph) : ℕ → ℕ → Type 0 where
  direct : {t q : ℕ} → contains q (get_or t [] g) ≡ true → Above g t q
  further : {t p q : ℕ} → Above g t p → contains q (get_or p [] g) ≡ true → Above g t q

pub Above-first :
    (g : Graph) {t a b : ℕ} → contains a (get_or t [] g) ≡ true → Above g a b → Above g t b
Above-first g m (direct n) = further (direct m) n
Above-first g m (further above n) = further (Above-first g m above) n

pub closed-Above :
    (g : Graph) (t : ℕ) (out : List ℕ)
    → ((p : ℕ) → contains p (get_or t [] g) ≡ true → contains p out ≡ true)
    → ((x q : ℕ)
        → contains x out ≡ true
        → contains q (get_or x [] g) ≡ true
        → contains q out ≡ true)
    → (q : ℕ) → Above g t q
    → contains q out ≡ true
closed-Above g t out starts closed q (direct m) = starts q m
closed-Above g t out starts closed q (further {p = p} a m) =
    closed p q (closed-Above g t out starts closed p a) m

-- Any depth above the number of listed teams is enough.
pub all_team_parents-Above :
    (g : Graph) (fuel t : ℕ)
    → length (listed g) < fuel
    → (out seen : List ℕ) × (all_team_parents g fuel t [] ≡ some (out, seen))
      × ((q : ℕ) → (contains q out ≡ true) ↔ Above g t q)
all_team_parents-Above g fuel t h =
    let (out, seen, e, c) =
      all_team_parents-Succeeds g (Above g t) (λ p q. further) fuel t [] (λ p m. direct m)
        (omega (arith, unseen_le_length (listed g) [], h)) in
    let closed =
      closed-Above g t out (λ p m. ground (arith, c.starts p m, c.same p))
        (λ x q m n. ground (arith, c.closed x q m n, c.same q)) in
    (out, seen, e, λ q. (c.sound q, closed q))

-- On any mapping, with loops or without, the search for the parents of a team comes to an end
-- and returns exactly the teams that a chain of one or more memberships leads to.
pub parents_of-Above :
    (g : Graph) (t : ℕ)
    → (out : List ℕ) × (parents_of g t ≡ some out)
      × ((q : ℕ) → (contains q out ≡ true) ↔ Above g t q)
unfolding parents_of
parents_of-Above g t =
    let (out, seen, e, h) = all_team_parents-Above g (enough g) t (omega arith) in
    (out, rw e refl, h)

-- The search for the children is the same search on another mapping.
all_team_children-all_team_parents :
    (g : Graph) (fuel t : ℕ) (seen : List ℕ)
    → all_team_children g fuel t seen ≡ all_team_parents g fuel t seen
unfolding all_team_children all_team_parents
all_team_children-all_team_parents g zero t seen = refl
all_team_children-all_team_parents g (suc fuel) t seen =
    ap (λ visit. visit_all visit (get_or t [] g) seen)
      (λ i p later. all_team_children-all_team_parents g fuel p later i)

-- The search for the children of a team comes to an end too, and returns the teams that a chain of
-- the mapping leads to.
pub children_of-Above :
    (g : Graph) (t : ℕ)
    → (out : List ℕ) × (children_of g t ≡ some out)
      × ((q : ℕ) → (contains q out ≡ true) ↔ Above g t q)
unfolding children_of parents_of
children_of-Above g t =
    let (out, e, h) = parents_of-Above g t in
    (out, ap fst_of (all_team_children-all_team_parents g (enough g) t []) ∙ e, h)
