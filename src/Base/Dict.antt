-- ===== src/Base/Dict.antt =====
-- A Python dict: an association list in insertion order, over keys with decidable equality.
use mathlib.Core.Path.{◌≡◌, refl}
use mathlib.Core.Bool.{Bool, true, false, ◌||◌}
use mathlib.Core.Logic.{inl, inr}
use mathlib.Core.Option.{Option, none, some}
use mathlib.Core.List.{List, [], ◌∷◌}
use native.Mathlib.Omega.{arith}
use django_ansible_base.Base.Tests.{if◌then◌else◌, Bool-cases}
use django_ansible_base.Base.Equality.{Eq, ◌==◌}
use django_ansible_base.Base.Lists.{contains}

abbrev pub Dict {ℓ κ} : Type ℓ → Type κ → Type (ℓ ⊔ κ)
Dict K V = List (K × V)

abbrev pub keys {ℓ κ} : {K : Type ℓ} {V : Type κ} → Dict K V → List K
keys [] = []
keys ((k, v) ∷ d) = k ∷ keys d

abbrev pub values {ℓ κ} : {K : Type ℓ} {V : Type κ} → Dict K V → List V
values [] = []
values ((k, v) ∷ d) = v ∷ values d

module _ {ℓ κ} {K : Type ℓ} {V : Type κ} ⦃e : Eq K⦄ where
  -- `d.get(k)`
  abbrev pub get : K → Dict K V → Option V
  get k [] = none
  get k ((j, v) ∷ d) = if j == k then some v else get k d

  -- `k in d`
  abbrev pub has_key : K → Dict K V → Bool
  has_key k d = elim (get k d) [ none ↦ false | some _ ↦ true ]

  -- `d.get(k, default)`
  abbrev pub get_or : K → V → Dict K V → V
  get_or k v d = elim (get k d) [ none ↦ v | some w ↦ w ]

  -- `d[k] = v`: in place for a key that is there, at the end for a new one
  abbrev pub set : K → V → Dict K V → Dict K V
  set k v [] = (k, v) ∷ []
  set k v ((j, w) ∷ d) = if j == k then (j, v) ∷ d else (j, w) ∷ set k v d

  -- `d.pop(k, None)`, without the value
  abbrev pub pop : K → Dict K V → Dict K V
  pop k [] = []
  pop k ((j, w) ∷ d) = let rest = pop k d in if j == k then rest else (j, w) ∷ rest

  pub get-set :
      (k j : K) (v : V) (d : Dict K V) → get j (set k v d) ≡ (if k == j then some v else get j d)
  get-set k j v [] = refl
  get-set k j v ((i, w) ∷ d) =
      ground (arith, e.eqb_iff k j, e.eqb_iff i k, e.eqb_iff i j, get-set k j v d)

  pub get_or-set :
      (k j : K) (v w : V) (d : Dict K V)
      → get_or j w (set k v d) ≡ (if k == j then v else get_or j w d)
  get_or-set k j v w d = rw (get-set k j v d, get_or) (ground arith)

  pub get-pop : (k j : K) (d : Dict K V) → get j (pop k d) ≡ (if k == j then none else get j d)
  get-pop k j [] = ground arith
  get-pop k j ((i, w) ∷ d) =
      ground (arith, e.eqb_iff k j, e.eqb_iff i k, e.eqb_iff i j, get-pop k j d)

  pub get-set_self : (k : K) (v : V) (d : Dict K V) → get k (set k v d) ≡ some v
  get-set_self k v d = ground (arith, get-set k k v d, e.eqb_iff k k)

  pub has_key-contains : (k : K) (d : Dict K V) → has_key k d ≡ contains k (keys d)
  has_key-contains k [] = refl
  has_key-contains k ((j, v) ∷ d) = ground (arith, has_key-contains k d)

  -- Every key is listed once: what holds of each Python dict.
  abbrev pub IsDistinct : Dict K V → Type 0
  IsDistinct [] = Unit
  IsDistinct ((k, v) ∷ d) = (has_key k d ≡ false) × IsDistinct d

  pub has_key-set :
      (k j : K) (v : V) (d : Dict K V) → has_key j (set k v d) ≡ (k == j || has_key j d)
  has_key-set k j v d = ground (arith, get-set k j v d)

  pub set-IsDistinct : (k : K) (v : V) (d : Dict K V) → IsDistinct d → IsDistinct (set k v d)
  set-IsDistinct k v [] h = (refl, tt)
  set-IsDistinct k v ((j, w) ∷ d) (fresh, h) = elim (Bool-cases (j == k)) [
    | inl q ↦ rw q (fresh, h)
    | inr q ↦
        let other : (k == j) ≡ false = ground (arith, e.eqb_iff j k, e.eqb_iff k j) in
        rw q (ground (arith, has_key-set k j v d), set-IsDistinct k v d h)
  ]
