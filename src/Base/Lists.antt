-- ===== src/Base/Lists.antt =====
-- Lists: Boolean search, and the predicate that all elements satisfy.
use Prim.Native.Nat.{ℕ, suc, ◌+◌}
use mathlib.Core.Path.{◌≡◌, refl}
use mathlib.Core.Logic.{inl, inr}
use mathlib.Core.Bool.{Bool, true, false, ◌&&◌, ◌||◌}
use mathlib.Core.List.{List, [], ◌∷◌, ◌++◌, map}
use native.Mathlib.Omega.{arith}
use django_ansible_base.Base.Tests.{if◌then◌else◌, Bool-cases}
use django_ansible_base.Base.Equality.{Eq, ◌==◌, beq_refl, beq→eq}

module _ {ℓ} {A : Type ℓ} where
  abbrev pub length : List A → ℕ
  length [] = 0
  length (x ∷ xs) = suc (length xs)

  pub length-append : (xs ys : List A) → length (xs ++ ys) ≡ length xs + length ys
  length-append [] ys = omega arith
  length-append (x ∷ xs) ys = omega (arith, length-append xs ys)

  -- Python's `any(p(x) for x in xs)` and `all(p(x) for x in xs)`.
  abbrev pub any : (A → Bool) → List A → Bool
  any p [] = false
  any p (x ∷ xs) = p x || any p xs

  abbrev pub all : (A → Bool) → List A → Bool
  all p [] = true
  all p (x ∷ xs) = p x && all p xs

  abbrev pub filter_by : (A → Bool) → List A → List A
  filter_by p [] = []
  filter_by p (x ∷ xs) = let rest = filter_by p xs in if p x then x ∷ rest else rest

  pub any-append : (p : A → Bool) (xs ys : List A) → any p (xs ++ ys) ≡ (any p xs || any p ys)
  any-append p [] ys = refl
  any-append p (x ∷ xs) ys = ground (arith, any-append p xs ys)

  pub any-filter_by :
      (p q : A → Bool) (xs : List A) → any p (filter_by q xs) ≡ any (λ x. p x && q x) xs
  any-filter_by p q [] = refl
  any-filter_by p q (x ∷ xs) = ground (arith, any-filter_by p q xs, Bool-cases (q x))

module _ {ℓ} {A : Type ℓ} ⦃e : Eq A⦄ where
  -- `x in xs`
  abbrev pub contains : A → List A → Bool
  contains a [] = false
  contains a (x ∷ xs) = x == a || contains a xs

  -- `set(xs) <= set(ys)`, and whether the two sets meet
  abbrev pub subset : List A → List A → Bool
  subset xs ys = all (λ x. contains x ys) xs

  abbrev pub intersects : List A → List A → Bool
  intersects xs ys = any (λ x. contains x ys) xs

  pub contains-append :
      (a : A) (xs ys : List A) → contains a (xs ++ ys) ≡ (contains a xs || contains a ys)
  contains-append a [] ys = refl
  contains-append a (x ∷ xs) ys = ground (arith, contains-append a xs ys)

  pub contains-filter_by :
      (p : A → Bool) (a : A) (xs : List A) → contains a (filter_by p xs) ≡ (contains a xs && p a)
  contains-filter_by p a [] = refl
  contains-filter_by p a (x ∷ xs) =
      ground (arith, contains-filter_by p a xs, e.eqb_iff x a, Bool-cases (p x))

  pub all-contains :
      (p : A → Bool) (xs : List A) → all p xs ≡ true → (a : A) → contains a xs ≡ true → p a ≡ true
  all-contains p [] h a m = cc
  all-contains p (x ∷ xs) h a m =
      ground (arith, all-contains p xs, all-contains p xs (ground arith) a, e.eqb_iff x a)

  pub all_of :
      (p : A → Bool) (xs : List A) → ((a : A) → contains a xs ≡ true → p a ≡ true) → all p xs ≡ true
  all_of p [] h = refl
  all_of p (x ∷ xs) h =
      ground (arith, h x (ground (arith, beq_refl x)), all_of p xs (λ a m. h a (ground arith)))

  pub any-witness :
      (p : A → Bool) (xs : List A)
      → any p xs ≡ true
      → (a : A) × (contains a xs ≡ true) × (p a ≡ true)
  any-witness p [] h = absurd (cc)
  any-witness p (x ∷ xs) h = elim (Bool-cases (p x)) [
    | inl q ↦ (x, ground (arith, beq_refl x), q)
    | inr q ↦ let (a, m, r) = any-witness p xs (ground arith) in (a, ground arith, r)
  ]

  pub any_of :
      (p : A → Bool) (xs : List A) (a : A) → contains a xs ≡ true → p a ≡ true → any p xs ≡ true
  any_of p [] a m h = m
  any_of p (x ∷ xs) a m h = ground (arith, any_of p xs a, e.eqb_iff x a)

-- An element of a mapped list comes from one of the list.
pub contains-map {ℓ κ} :
    {A : Type ℓ} {B : Type κ} ⦃e : Eq A⦄ ⦃k : Eq B⦄ (f : A → B) (xs : List A) (b : B)
    → contains b (map f xs) ≡ true
    → (a : A) × (contains a xs ≡ true) × (f a ≡ b)
contains-map f [] b m = absurd (cc)
contains-map ⦃e⦄ ⦃k⦄ f (x ∷ xs) b m = elim (Bool-cases (f x == b)) [
  | inl q ↦ (x, ground (arith, beq_refl x), beq→eq (f x) b q)
  | inr q ↦ let (a, n, r) = contains-map f xs b (ground arith) in (a, ground arith, r)
]

pub contains-map_of {ℓ κ} :
    {A : Type ℓ} {B : Type κ} ⦃e : Eq A⦄ ⦃k : Eq B⦄ (f : A → B) (xs : List A) (a : A)
    → contains a xs ≡ true
    → contains (f a) (map f xs) ≡ true
contains-map_of f [] a m = m
contains-map_of f (x ∷ xs) a m = elim (Bool-cases (x == a)) [
  | inl q ↦ rw (beq→eq x a q, beq_refl (f a)) refl
  | inr q ↦ ground (arith, contains-map_of f xs a (ground arith))
]
