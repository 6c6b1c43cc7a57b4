-- ===== src/FallbackCache/Laws.antt =====
-- The values that `DABCacheWithFallback` of ansible_base/lib/cache/fallback_cache.py returns, along
-- any sequence of calls, failures of the primary cache and recoveries that do not overlap.
use django_ansible_base.Base.{
  ◌≡◌, refl, sym, ap, ◌∙◌, subst, String, Bool, true, false, not, ◌&&◌, Option, none, some, List,
  [], ◌∷◌, ◌==◌, nat_eq, string_eq, pair_eq, Bool-cases, inl, inr, ◌⊎◌, contains, beq_refl,
  if◌then◌else◌, arith,
}
use django_ansible_base.FallbackCache.{
  Key, Operation, add, set, get, delete, clear, Backend, State, Event, call, check, start_recovery,
  on_fallback, on_primary, op_with_fallback, cleared, clear_both, check_primary_cache, step,
}

-- What a call makes of the value of a key.
abbrev pub effect : Operation → Key → Option String → Option String
effect (add k v) j none = if k == j then some v else none
effect (add k v) j (some w) = some w
effect (set k v) j old = if k == j then some v else old
effect (get k) j old = old
effect (delete k) j old = if k == j then none else old
effect clear j old = none

-- The documented behaviour of a cache: a call has its effect on each key, or the key has been dropped,
-- as it may at any time; a get returns the value that is there; and a clear leaves nothing.
pub record IsCache {ℓ} {C : Type ℓ} (backend : Backend C) : Type ℓ where
  pub has_effect :
      (op : Operation) (j : Key) (c : C)
      → (backend.lookup j (backend.perform op c).1 ≡ none)
        ⊎ (backend.lookup j (backend.perform op c).1 ≡ effect op j (backend.lookup j c))
  pub returns : (k : Key) (c : C) → (backend.perform (get k) c).0 ≡ backend.lookup k c
  pub clears : (j : Key) (c : C) → backend.lookup j (backend.perform clear c).1 ≡ none

-- The values of a key that are up to date after some calls, the last call first: what was set last,
-- and what was added since.
abbrev pub current : Key → List Operation → List String
current j [] = []
current j (add k v ∷ earlier) = if k == j then v ∷ current j earlier else current j earlier
current j (set k v ∷ earlier) = if k == j then v ∷ [] else current j earlier
current j (get k ∷ earlier) = current j earlier
current j (delete k ∷ earlier) = if k == j then [] else current j earlier
current j (clear ∷ earlier) = []

-- the calls of a sequence of events, the last first
abbrev pub calls {ℓ} : {C : Type ℓ} → List (Event C) → List Operation → List Operation
calls [] done = done
calls (call op failure is_recoverer ∷ events) done = calls events (op ∷ done)
calls (check a b c ∷ events) done = calls events done

some_injective {ℓ} : {A : Type ℓ} {a b : A} → some a ≡ some b → a ≡ b
some_injective {A} {a} p = ap (λ m. elim m [ some x ↦ x | none ↦ a ]) p

effect-current :
    (op : Operation) (j : Key) (old : Option String) (done : List Operation) (v : String)
    → ((w : String) → old ≡ some w → contains w (current j done) ≡ true)
    → effect op j old ≡ some v
    → contains v (current j (op ∷ done)) ≡ true
effect-current (get k) j old done v h e = h v e
effect-current clear j old done v h e = absurd (cc e)
effect-current (add k x) j none done v h e = elim (Bool-cases (k == j)) [
  | inl q ↦
      let e2 = rw q at e in
      let same : x ≡ v = some_injective e2 in rw q (rw (same, beq_refl v) refl)
  | inr q ↦ let e2 = rw q at e in absurd (cc e2)
]
effect-current (add k x) j (some w) done v h e = elim (Bool-cases (k == j)) [
  | inl q ↦ rw q (let m = h v e in ground arith)
  | inr q ↦ rw q (h v e)
]
effect-current (set k x) j old done v h e = elim (Bool-cases (k == j)) [
  | inl q ↦
      let e2 = rw q at e in
      let same : x ≡ v = some_injective e2 in rw q (rw (same, beq_refl v) refl)
  | inr q ↦ let e2 = rw q at e in rw q (h v e2)
]
effect-current (delete k) j old done v h e = elim (Bool-cases (k == j)) [
  | inl q ↦ let e2 = rw q at e in absurd (cc e2)
  | inr q ↦ let e2 = rw q at e in rw q (h v e2)
]

module _ {ℓ} {C : Type ℓ} (backend : Backend C) (law : IsCache backend) where
  -- each value of a cache is up to date
  abbrev pub IsFresh : List Operation → C → Type 0
  IsFresh done c =
      (j : Key) (v : String) → backend.lookup j c ≡ some v → contains v (current j done) ≡ true

  abbrev IsEmpty : C → Type 0
  IsEmpty c = (j : Key) → backend.lookup j c ≡ none

  IsEmpty-IsFresh : (done : List Operation) (c : C) → IsEmpty c → IsFresh done c
  IsEmpty-IsFresh done c h j v e = let n = h j in absurd (cc)

  perform-IsFresh :
      (op : Operation) (done : List Operation) (c : C)
      → IsFresh done c
      → IsFresh (op ∷ done) (backend.perform op c).1
  perform-IsFresh op done c h j v e = elim (law.has_effect op j c) [
    | inl none_left ↦ absurd (cc)
    | inr q ↦ effect-current op j (backend.lookup j c) done v (h j) (sym q ∙ e)
  ]

  -- While the marker is there, the fallback cache is in use; else the primary one is, and the
  -- fallback cache is empty.
  abbrev pub IsConsistent : List Operation → State C → Type 0
  IsConsistent done st =
      (st.marker ≡ true → IsFresh done st.fallback)
      × (st.marker ≡ false → IsFresh done st.primary × IsEmpty st.fallback)

  start-IsConsistent :
      (b : Bool) (done : List Operation) (st : State C)
      → IsConsistent done st
      → IsConsistent done (start_recovery backend b st)
  start-IsConsistent b done st h = elim (Bool-cases (b && not st.recovering)) [
    | inl q ↦ rw q h
    | inr q ↦ rw q h
  ]

  primary-IsConsistent :
      (op : Operation) (failure : Option C) (done : List Operation) (st : State C)
      → IsFresh done st.primary
      → IsEmpty st.fallback
      → st.marker ≡ false
      → IsConsistent (op ∷ done) (on_primary backend op failure st).1
  primary-IsConsistent op none done st f g q =
      (λ m. absurd (cc), λ m. (perform-IsFresh op done st.primary f, g))
  primary-IsConsistent op (some broken) done st f g q = (
    λ m. perform-IsFresh op done st.fallback (IsEmpty-IsFresh done st.fallback g),
    λ m. absurd (cc m),
  )

  op_with_fallback_unmarked :
      (op : Operation) (failure : Option C) (b : Bool) (st : State C)
      → st.marker ≡ false
      → (op_with_fallback backend op failure b st).1 ≡ (on_primary backend op failure st).1
  unfolding op_with_fallback
  op_with_fallback_unmarked op none b st q = rw q refl
  op_with_fallback_unmarked op (some broken) b st q = rw q refl

  op_with_fallback_marked :
      (op : Operation) (failure : Option C) (b : Bool) (st : State C)
      → st.marker ≡ true
      → (op_with_fallback backend op failure b st).1
        ≡ start_recovery backend b (on_fallback backend op st).1
  unfolding op_with_fallback
  op_with_fallback_marked op failure b st q = rw q refl

  call-IsConsistent :
      (op : Operation) (failure : Option C) (b : Bool) (done : List Operation) (st : State C)
      → IsConsistent done st
      → IsConsistent (op ∷ done) (op_with_fallback backend op failure b st).1
  call-IsConsistent op failure b done st (f, g) = elim (Bool-cases st.marker) [
    | inl q ↦
        subst (λ x. IsConsistent (op ∷ done) x) (sym (op_with_fallback_marked op failure b st q))
          (start-IsConsistent b (op ∷ done) (on_fallback backend op st).1
            (λ m. perform-IsFresh op done st.fallback (f q), λ m. absurd (cc)))
    | inr q ↦
        subst (λ x. IsConsistent (op ∷ done) x) (sym (op_with_fallback_unmarked op failure b st q))
          (primary-IsConsistent op failure done st (g q).0 (g q).1 q)
  ]

  clear-IsConsistent :
      (a b : Bool) (done : List Operation) (st : State C)
      → st.marker ≡ true
      → IsConsistent done st
      → IsConsistent done (clear_both backend a b st)
  clear-IsConsistent false b done st q h = h
  clear-IsConsistent true false done st q (f, g) = (f, λ m. absurd (cc))
  clear-IsConsistent true true done st q h = (
    λ m. absurd (cc m),
    λ m. (
      IsEmpty-IsFresh done (cleared backend st.primary) (λ j. law.clears j st.primary),
      λ j. law.clears j st.fallback,
    ),
  )

  check-IsConsistent :
      (up a b : Bool) (done : List Operation) (st : State C)
      → IsConsistent done st
      → IsConsistent done (check_primary_cache backend up a b st)
  unfolding check_primary_cache
  check-IsConsistent up a b done st h = elim (Bool-cases (up && st.marker)) [
    | inl q ↦ rw q (clear-IsConsistent a b done st (ground arith) h)
    | inr q ↦ rw q h
  ]

  got :
      (k : Key) (failure : Option C) (b : Bool) (v : String) (done : List Operation) (st : State C)
      → IsConsistent done st
      → (op_with_fallback backend (get k) failure b st).0 ≡ some v
      → contains v (current k done) ≡ true
  unfolding op_with_fallback
  got k none b v done st (f, g) e = elim (Bool-cases st.marker) [
    | inl q ↦ let e2 = rw q at e in f q k v (sym (law.returns k st.fallback) ∙ e2)
    | inr q ↦ let e2 = rw q at e in (g q).0 k v (sym (law.returns k st.primary) ∙ e2)
  ]
  got k (some broken) b v done st (f, g) e = elim (Bool-cases st.marker) [
    | inl q ↦ let e2 = rw q at e in f q k v (sym (law.returns k st.fallback) ∙ e2)
    | inr q ↦
        let e2 = rw q at e in
        let nothing = (g q).1 k in let there = sym (law.returns k st.fallback) ∙ e2 in absurd (cc)
  ]

  -- the state after some events
  abbrev pub run : List (Event C) → State C → State C
  run [] st = st
  run (e ∷ events) st = run events (step backend e st)

  run-IsConsistent :
      (events : List (Event C)) (done : List Operation) (st : State C)
      → IsConsistent done st
      → IsConsistent (calls events done) (run events st)
  run-IsConsistent [] done st h = h
  run-IsConsistent (call op failure b ∷ events) done st h =
      run-IsConsistent events (op ∷ done) (step backend (call op failure b) st)
        (call-IsConsistent op failure b done st h)
  run-IsConsistent (check up a b ∷ events) done st h =
      run-IsConsistent events done (step backend (check up a b) st)
        (check-IsConsistent up a b done st h)

  -- Once the class has started with two empty caches and no marker, then after any sequence of calls,
  -- failures of the primary cache and checks for its recovery no two of which overlap, a get that returns a value returns one
  -- that is up to date: it was set by the last call that set the key, or added since, and the key was
  -- not deleted and the cache not cleared afterwards. It may return nothing.
  pub op_with_fallback-current :
      (events : List (Event C)) (st : State C) (k : Key) (failure : Option C) (b : Bool)
      (v : String)
      → IsEmpty st.primary
      → IsEmpty st.fallback
      → st.marker ≡ false
      → (op_with_fallback backend (get k) failure b (run events st)).0 ≡ some v
      → contains v (current k (calls events [])) ≡ true
  op_with_fallback-current events st k failure b v p f m e =
      let start : IsConsistent [] st =
        (λ q. absurd (cc), λ q. (IsEmpty-IsFresh [] st.primary p, f)) in
      got k failure b v (calls events []) (run events st) (run-IsConsistent events [] st start) e
