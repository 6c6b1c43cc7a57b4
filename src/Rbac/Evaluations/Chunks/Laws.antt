-- ===== src/Rbac/Evaluations/Chunks/Laws.antt =====
-- Every role stands in exactly one chunk of the walk of `recompute_all_role_evaluations` of
-- ansible_base/rbac/caching.py.
use django_ansible_base.Base.{
  ℕ, zero, suc, ◌≤◌, ◌<◌, ◌≡◌, refl, sym, ap, ◌∙◌, subst, true, false, some, List, [], ◌∷◌, ◌++◌,
  filter_by, ltb, length, Bool-cases, inl, inr, arith,
}
use django_ansible_base.Rbac.Evaluations.Chunks.{take, last_of, chunks_from}

-- the keys ascend, from above a bound
abbrev pub IsAscending : ℕ → List ℕ → Type 0
IsAscending bound [] = Unit
IsAscending bound (x ∷ xs) = (bound < x) × IsAscending x xs

abbrev pub concat : List (List ℕ) → List ℕ
concat [] = []
concat (xs ∷ xss) = xs ++ concat xss

abbrev drop : ℕ → List ℕ → List ℕ
drop zero xs = xs
drop (suc n) [] = []
drop (suc n) (x ∷ xs) = drop n xs

take-drop : (n : ℕ) (xs : List ℕ) → take n xs ++ drop n xs ≡ xs
take-drop zero xs = refl
take-drop (suc n) [] = refl
take-drop (suc n) (x ∷ xs) = ap (λ t. x ∷ t) (take-drop n xs)

-- all keys are above the bound
filter_by_above :
    (b bound : ℕ) (xs : List ℕ)
    → IsAscending bound xs
    → b ≤ bound
    → filter_by (λ x. ltb b x) xs ≡ xs
filter_by_above b bound [] h l = refl
filter_by_above b bound (x ∷ xs) (p, h) l =
    let above : ltb b x ≡ true = ground arith in
    rw above (ap (λ t. x ∷ t) (filter_by_above b x xs h (omega arith)))

last_of_above : (y : ℕ) (xs ys : List ℕ) → IsAscending y (xs ++ ys) → y ≤ last_of y xs
last_of_above y [] ys h = omega arith
last_of_above y (x ∷ xs) ys (p, h) = omega (arith, p, last_of_above x xs ys h)

-- after a key, the keys behind it are left
filter_by_last :
    (x bound : ℕ) (xs ys : List ℕ)
    → IsAscending bound (x ∷ (xs ++ ys))
    → filter_by (λ z. ltb (last_of x xs) z) (x ∷ (xs ++ ys)) ≡ ys
filter_by_last x bound [] ys (p, h) =
    let same : ltb x x ≡ false = ground arith in rw same (filter_by_above x x ys h (omega arith))
filter_by_last x bound (y ∷ xs) ys (p, (q, h)) =
    let l = last_of_above y xs ys h in
    let behind : ltb (last_of y xs) x ≡ false = ground (arith, l) in
    rw behind (filter_by_last y x xs ys (q, h))

-- the rest of the keys ascends from the last of a chunk
rest-IsAscending :
    (x : ℕ) (xs ys : List ℕ) → IsAscending x (xs ++ ys) → IsAscending (last_of x xs) ys
rest-IsAscending x [] ys h = h
rest-IsAscending x (y ∷ xs) ys (p, h) = rest-IsAscending y xs ys h

filter_by_twice :
    (b c : ℕ) (xs : List ℕ)
    → b ≤ c
    → filter_by (λ x. ltb c x) (filter_by (λ x. ltb b x) xs) ≡ filter_by (λ x. ltb c x) xs
filter_by_twice b c [] l = refl
filter_by_twice b c (x ∷ xs) l = elim (Bool-cases (ltb b x)) [
  | inl q ↦ rw q (elim (Bool-cases (ltb c x)) [
    | inl k ↦ rw k (ap (λ t. x ∷ t) (filter_by_twice b c xs l))
    | inr k ↦ rw k (filter_by_twice b c xs l)
  ])
  | inr q ↦ let k : ltb c x ≡ false = ground (arith, l) in rw (q, k) (filter_by_twice b c xs l)
]

drop-length : (n : ℕ) (xs : List ℕ) → length (drop n xs) ≤ length xs
drop-length zero xs = omega arith
drop-length (suc n) [] = omega arith
drop-length (suc n) (x ∷ xs) = omega (arith, drop-length n xs)

module _ (n : ℕ) (pks : List ℕ) where
  -- what the walk returns for the keys that are left
  abbrev Walks : ℕ → ℕ → List ℕ → Type 0
  Walks fuel last_pk rest =
      (chunks : List (List ℕ)) × (chunks_from (suc n) pks fuel last_pk ≡ some chunks)
      × (concat chunks ≡ rest)

  walk :
      (fuel last_pk : ℕ) (rest : List ℕ)
      → filter_by (λ x. ltb last_pk x) pks ≡ rest
      → IsAscending last_pk rest
      → length rest < fuel
      → Walks fuel last_pk rest
  unfolding chunks_from
  walk zero last_pk rest e h l = absurd (omega (arith, l))
  walk (suc fuel) last_pk [] e h l = ([], rw e refl, refl)
  walk (suc fuel) last_pk (x ∷ xs) e (p, h) l =
      let chunk = take n xs in
      let left = drop n xs in
      let whole = take-drop n xs in
      let h' = subst (λ t. IsAscending x t) (sym whole) h in
      let next = last_of x chunk in
      let above = last_of_above x chunk left h' in
      let kept =
        sym (filter_by_twice last_pk next pks (omega (arith, p, above)))
        ∙ ap (filter_by (λ z. ltb next z)) (e ∙ ap (λ t. x ∷ t) (sym whole))
        ∙ filter_by_last x last_pk chunk left (p, h') in
      let (chunks, f, g) =
        walk fuel next left kept (rest-IsAscending x chunk left h')
          (omega (arith, drop-length n xs, l)) in
      ((x ∷ chunk) ∷ chunks, rw (e, f) refl, ap (λ t. x ∷ (chunk ++ t)) g ∙ ap (λ t. x ∷ t) whole)

-- If the keys of the roles ascend from above 0, then the walk with chunks of any positive size ends,
-- with one turn more than there are roles as its fuel, and its chunks one after the other are the
-- roles: each is visited exactly once.
pub chunks_from-concat :
    (n : ℕ) (pks : List ℕ)
    → IsAscending 0 pks
    → (chunks : List (List ℕ)) × (chunks_from (suc n) pks (suc (length pks)) 0 ≡ some chunks)
      × (concat chunks ≡ pks)
chunks_from-concat n pks h =
    walk n pks (suc (length pks)) 0 pks (filter_by_above 0 0 pks h (omega arith)) h (omega arith)
