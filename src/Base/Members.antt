-- ===== src/Base/Members.antt =====
-- Membership of lists of any type: the elements that satisfy a test, and the elements of a set.
use mathlib.Core.Path.{◌≡◌, refl, sym, ap, ◌∙◌}
use mathlib.Core.Logic.{◌↔◌, inl, inr}
use mathlib.Core.Bool.{Bool, true, not}
use mathlib.Core.List.{List, [], ◌∷◌, Memᴰ}
use mathlib.Core.List.Memᴰ as Memᴰ
use native.Mathlib.Omega.{arith}
use django_ansible_base.Base.Tests.{if◌then◌else◌, Bool-cases}
use django_ansible_base.Base.Equality.{Eq, ◌==◌, beq→eq}
use django_ansible_base.Base.Lists.{any, filter_by, contains}

module _ {ℓ} {A : Type ℓ} where
  pub any-Memᴰ : (p : A → Bool) (xs : List A) → any p xs ≡ true → (a : A) × Memᴰ a xs × (p a ≡ true)
  any-Memᴰ p [] h = absurd (cc)
  any-Memᴰ p (x ∷ xs) h = elim (Bool-cases (p x)) [
    | inl q ↦ (x, Memᴰ.head refl, q)
    | inr q ↦ let (a, m, e) = any-Memᴰ p xs (ground arith) in (a, Memᴰ.tail m, e)
  ]

  pub Memᴰ-any : (p : A → Bool) (xs : List A) (a : A) → Memᴰ a xs → p a ≡ true → any p xs ≡ true
  Memᴰ-any p [] a m h = elim m [ ]
  Memᴰ-any p (x ∷ xs) a (Memᴰ.head e) h = let q = rw e at h in ground arith
  Memᴰ-any p (x ∷ xs) a (Memᴰ.tail m) h = ground (arith, Memᴰ-any p xs a m h)

  pub Memᴰ-filter_by :
      (p : A → Bool) (xs : List A) (a : A) → Memᴰ a (filter_by p xs) ↔ (Memᴰ a xs × (p a ≡ true))
  Memᴰ-filter_by p [] a = (λ m. elim m [ ], λ (m, e). elim m [ ])
  Memᴰ-filter_by p (x ∷ xs) a = elim (Bool-cases (p x)) [
    | inl q ↦ rw q (
      λ m. elim (Memᴰ.cases_cons m) [
        | inl e ↦ (Memᴰ.head e, ap p e ∙ q)
        | inr n ↦ let (k, r) = (Memᴰ-filter_by p xs a).0 n in (Memᴰ.tail k, r)
      ],
      λ (m, e). elim (Memᴰ.cases_cons m) [
        | inl k ↦ Memᴰ.head k
        | inr n ↦ Memᴰ.tail ((Memᴰ-filter_by p xs a).1 (n, e))
      ],
    )
    | inr q ↦ rw q (
      λ m. let (k, r) = (Memᴰ-filter_by p xs a).0 m in (Memᴰ.tail k, r),
      λ (m, e). elim (Memᴰ.cases_cons m) [
        | inl k ↦ absurd (cc (ap p k))
        | inr n ↦ (Memᴰ-filter_by p xs a).1 (n, e)
      ],
    )
  ]

module _ {ℓ} {A : Type ℓ} ⦃e : Eq A⦄ where
  pub contains-Memᴰ : (a : A) (xs : List A) → contains a xs ≡ true → Memᴰ a xs
  contains-Memᴰ a [] h = absurd (cc)
  contains-Memᴰ a (x ∷ xs) h = elim (Bool-cases (x == a)) [
    | inl q ↦ Memᴰ.head (sym (beq→eq x a q))
    | inr q ↦ Memᴰ.tail (contains-Memᴰ a xs (ground arith))
  ]

  pub Memᴰ-contains : (a : A) (xs : List A) → Memᴰ a xs → contains a xs ≡ true
  Memᴰ-contains a [] m = elim m [ ]
  Memᴰ-contains a (x ∷ xs) (Memᴰ.head q) = ground (arith, e.eqb_iff x a)
  Memᴰ-contains a (x ∷ xs) (Memᴰ.tail m) = ground (arith, Memᴰ-contains a xs m)

  -- a set of the elements of a list
  abbrev pub distinct : List A → List A
  distinct [] = []
  distinct (x ∷ xs) = let rest = distinct xs in if contains x rest then rest else x ∷ rest

  pub contains-distinct : (a : A) (xs : List A) → contains a (distinct xs) ≡ contains a xs
  contains-distinct a [] = refl
  contains-distinct a (x ∷ xs) =
      ground (arith, contains-distinct a xs, contains-distinct x xs, e.eqb_iff x a)

  -- the difference of two sets
  abbrev pub difference : List A → List A → List A
  difference xs ys = filter_by (λ x. not (contains x ys)) (distinct xs)
