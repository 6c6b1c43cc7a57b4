-- ===== src/Authentication/Product/Laws.antt =====
-- `dict_cartesian_product` of ansible_base/lib/utils/collection.py against the choices of a value for
-- each key, by their number and one by one.
use Prim.Native.Nat.mul as mul
use mathlib.Core.List.{Memᴰ}
use mathlib.Core.List.Memᴰ as Memᴰ
use django_ansible_base.Base.{
  suc, ◌*◌, ◌≡◌, refl, sym, subst, ◌∙◌, ap, true, false, List, [], ◌∷◌, map, any, length,
  length-append, arith, Bool-cases, inl, inr, ◌↔◌,
}
use django_ansible_base.Base.Dict.{Dict, keys, values}
use django_ansible_base.Authentication.Product.{
  is_nil, with_heads, product, zip, dict_cartesian_product, choices,
}

length-map {ℓ κ} :
    {A : Type ℓ} {B : Type κ} (f : A → B) (xs : List A) → length (map f xs) ≡ length xs
length-map f [] = refl
length-map f (x ∷ xs) = omega (arith, length-map f xs)

length-with_heads {ℓ} :
    {A : Type ℓ} (xs : List A) (rests : List (List A))
    → length (with_heads xs rests) ≡ length xs * length rests
length-with_heads [] rests = ground arith
length-with_heads (x ∷ xs) rests =
    rw (length-append (map (λ rest. x ∷ rest) rests) (with_heads xs rests)) (
      rw (length-map (λ rest. x ∷ rest) rests)
        (rw (length-with_heads xs rests) (sym (mul.suc (length xs) (length rests)))))

with_heads-Memᴰ {ℓ} :
    {A : Type ℓ} (xs : List A) (rests : List (List A)) (c : List A)
    → Memᴰ c (with_heads xs rests)
    → (x : A) × (rest : List A) × Memᴰ x xs × Memᴰ rest rests × (c ≡ x ∷ rest)
with_heads-Memᴰ [] rests c m = absurd (Memᴰ.not-nil m)
with_heads-Memᴰ (y ∷ xs) rests c m = elim (Memᴰ.append_cases (map (λ rest. y ∷ rest) rests) m) [
  | inl n ↦
      let (rest, r, e) = Memᴰ.of_map (λ rest. y ∷ rest) rests n in
      (y, rest, Memᴰ.head refl, r, sym e)
  | inr n ↦ let (x, rest, k, r, e) = with_heads-Memᴰ xs rests c n in (x, rest, Memᴰ.tail k, r, e)
]

with_heads-of {ℓ} :
    {A : Type ℓ} (x : A) (xs rest : List A) (rests : List (List A))
    → Memᴰ x xs
    → Memᴰ rest rests
    → Memᴰ (x ∷ rest) (with_heads xs rests)
with_heads-of x [] rest rests m r = elim m [ ]
with_heads-of x (y ∷ xs) rest rests (Memᴰ.head e) r =
    Memᴰ.append_left (with_heads xs rests)
      (Memᴰ.cast (ap (λ z. z ∷ rest) e) (Memᴰ.map (λ tail. y ∷ tail) r))
with_heads-of x (y ∷ xs) rest rests (Memᴰ.tail m) r =
    Memᴰ.append_right (map (λ tail. y ∷ tail) rests) (with_heads-of x xs rest rests m r)

module _ {ℓ κ} {K : Type ℓ} {A : Type κ} where
  length-product : (d : Dict K (List A)) → length (product (values d)) ≡ choices d
  length-product [] = refl
  length-product ((k, xs) ∷ d) =
      length-with_heads xs (product (values d)) ∙ ap (λ n. length xs * n) (length-product d)

  choices-any : (d : Dict K (List A)) → any is_nil (values d) ≡ true → choices d ≡ 0
  choices-any [] h = absurd (cc)
  choices-any ((k, []) ∷ d) h = omega arith
  choices-any ((k, x ∷ xs) ∷ d) h =
      let zero_times : suc (length xs) * 0 ≡ 0 = omega arith in
      ap (λ n. suc (length xs) * n) (choices-any d h) ∙ zero_times

  -- A choice of one of the values for each key.
  pub data Chosen : Dict K (List A) → Dict K A → Type (ℓ ⊔ κ) where
    nothing : Chosen [] []
    choose :
        {k : K} {xs : List A} {x : A} {d : Dict K (List A)} {c : Dict K A}
        → Memᴰ x xs
        → Chosen d c
        → Chosen ((k, xs) ∷ d) ((k, x) ∷ c)

  product-Chosen :
      (d : Dict K (List A)) (c : List A) → Memᴰ c (product (values d)) → Chosen d (zip (keys d) c)
  product-Chosen [] [] m = nothing
  product-Chosen [] (x ∷ c) m = nothing
  product-Chosen ((k, xs) ∷ d) c m =
      let (x, rest, n, r, e) = with_heads-Memᴰ xs (product (values d)) c m in
      subst (λ v. Chosen ((k, xs) ∷ d) (zip (k ∷ keys d) v)) (sym e)
        (choose n (product-Chosen d rest r))

  Chosen-product :
      (d : Dict K (List A)) (c : Dict K A)
      → Chosen d c
      → (v : List A) × Memᴰ v (product (values d)) × (zip (keys d) v ≡ c)
  Chosen-product [] (_ ∷ c) h = elim h [ ]
  Chosen-product ((k, xs) ∷ d) [] h = elim h [ ]
  Chosen-product [] [] nothing = ([], Memᴰ.head refl, refl)
  Chosen-product ((k, xs) ∷ d) ((j, x) ∷ c) (choose m h) =
      let (v, n, e) = Chosen-product d c h in
      (x ∷ v, with_heads-of x xs v (product (values d)) m n, ap (λ t. (k, x) ∷ t) e)

  Chosen-any : (d : Dict K (List A)) (c : Dict K A) → Chosen d c → any is_nil (values d) ≡ false
  Chosen-any [] (_ ∷ c) h = elim h [ ]
  Chosen-any ((k, []) ∷ d) [] h = elim h [ ]
  Chosen-any ((k, y ∷ ys) ∷ d) [] h = elim h [ ]
  Chosen-any [] [] nothing = refl
  Chosen-any ((k, (y ∷ ys)) ∷ d) ((j, x) ∷ c) (choose m h) = Chosen-any d c h
  Chosen-any ((k, []) ∷ d) ((j, x) ∷ c) (choose m h) = absurd (Memᴰ.not-nil m)

  -- The product of a dictionary of lists that has a key holds as many dictionaries as there are
  -- ways to choose a value for each key, and holds exactly these choices.
  pub dict_cartesian_product-Chosen :
      (d : Dict K (List A))
      → is_nil d ≡ false
      → (length (dict_cartesian_product d) ≡ choices d)
        × ((c : Dict K A) → Memᴰ c (dict_cartesian_product d) ↔ Chosen d c)
  unfolding dict_cartesian_product
  dict_cartesian_product-Chosen d h = elim (Bool-cases (any is_nil (values d))) [
    | inl q ↦
        rw (h, q, dict_cartesian_product)
          (
            sym (choices-any d q),
            λ c. (λ m. absurd (Memᴰ.not-nil m), λ k. absurd (cc (Chosen-any d c k))),
          )
    | inr q ↦
        rw (h, q, dict_cartesian_product)
          (
            length-map (zip (keys d)) (product (values d)) ∙ length-product d,
            λ c. (
              λ m.
                  let (v, n, e) = Memᴰ.of_map (zip (keys d)) (product (values d)) m in
                  subst (Chosen d) e (product-Chosen d v n),
              λ k.
                  let (v, n, e) = Chosen-product d c k in
                  Memᴰ.cast (sym e) (Memᴰ.map (zip (keys d)) n),
            ),
          )
  ]
