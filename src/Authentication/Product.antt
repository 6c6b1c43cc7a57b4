-- ===== src/Authentication/Product.antt =====
-- `dict_cartesian_product` of ansible_base/lib/utils/collection.py.
pub mod Laws
use django_ansible_base.Base.{
  ℕ, ◌*◌, Bool, true, false, List, [], ◌∷◌, ◌++◌, map, any, length, if◌then◌else◌,
}
use django_ansible_base.Base.Dict.{Dict, keys, values}

abbrev is_nil {ℓ} : {A : Type ℓ} → List A → Bool
is_nil [] = true
is_nil (x ∷ xs) = false

-- `itertools.product(*lists)`: the last list varies fastest
abbrev with_heads {ℓ} : {A : Type ℓ} → List A → List (List A) → List (List A)
with_heads [] rests = []
with_heads (x ∷ xs) rests = map (λ rest. x ∷ rest) rests ++ with_heads xs rests

abbrev product {ℓ} : {A : Type ℓ} → List (List A) → List (List A)
product [] = [] ∷ []
product (xs ∷ lists) = with_heads xs (product lists)

abbrev zip {ℓ κ} : {A : Type ℓ} {B : Type κ} → List A → List B → List (A × B)
zip (x ∷ xs) (y ∷ ys) = (x, y) ∷ zip xs ys
zip _ _ = []

module _ {ℓ κ} {K : Type ℓ} {A : Type κ} where
  unfoldable pub dict_cartesian_product : Dict K (List A) → List (Dict K A)
  dict_cartesian_product d =
      if is_nil d
      then []
      else if any is_nil (values d)
      then []
      else map (zip (keys d)) (product (values d))

  -- One dictionary for each choice of a value for each key.
  abbrev pub choices : Dict K (List A) → ℕ
  choices [] = 1
  choices ((k, xs) ∷ d) = length xs * choices d
