-- ===== src/Rbac/Evaluations/Expected/Searches.antt =====
-- The two searches among the children of a model in `get_child_filters` of
-- ansible_base/rbac/models/role.py.
use mathlib.Core.List.{Memᴰ}
use mathlib.Core.List.Memᴰ as Memᴰ
use django_ansible_base.Base.{
  ℕ, String, ◌≡◌, refl, sym, ap, ◌∙◌, subst, true, false, Option, none, some, [], ◌∷◌, ◌==◌, ◌⊎◌,
  nat_eq, string_eq, contains, Bool-cases, inl, inr, beq→eq, beq_refl, arith,
}
use django_ansible_base.Rbac.Registry.{FieldPath, Children}
use django_ansible_base.Rbac.Registry.Laws.{models_of}
use django_ansible_base.Rbac.Evaluations.Keys.{by_id}
use django_ansible_base.Rbac.Evaluations.Expected.{
  World, Filters, through_parent, find_parent, find_child,
}

pub models_of-Memᴰ :
    (children : Children) (m : ℕ)
    → contains m (models_of children) ≡ true
    → (path : FieldPath) × Memᴰ (path, m) children
models_of-Memᴰ [] m h = absurd (cc h)
models_of-Memᴰ ((path, x) ∷ rest) m h = elim (Bool-cases (x == m)) [
  | inl q ↦ (path, Memᴰ.head (ap (λ (y : ℕ). (path, y)) (sym (beq→eq x m q))))
  | inr q ↦ let (other, n) = models_of-Memᴰ rest m (ground arith) in (other, Memᴰ.tail n)
]

module _ (w : World) (ct : ℕ) where
  abbrev pub IsNamed : ℕ → Type 0
  IsNamed model = w.model_name model ≡ w.model_name ct

  -- a child of the permission's type among some, or that there is none
  pub data FoundChild (children : Children) : Option Filters → Type 0 where
    found :
        (path : FieldPath) (model : ℕ)
        → Memᴰ (path, model) children
        → IsNamed model
        → FoundChild children (some (by_id ct, some (model, path)))
    no_child :
        ((path : FieldPath) (model : ℕ) → Memᴰ (path, model) children → ¬ IsNamed model)
        → FoundChild children none

  FoundChild-tail :
      (path : FieldPath) (model : ℕ) (rest : Children) (x : Option Filters)
      → ¬ IsNamed model
      → FoundChild rest x
      → FoundChild ((path, model) ∷ rest) x
  FoundChild-tail path model rest x other (found p m n e) = found p m (Memᴰ.tail n) e
  FoundChild-tail path model rest x other (no_child h) = no_child (λ p m n.
      elim (Memᴰ.cases_cons n) [
        | inl q ↦ λ e. other (ap (λ (t : FieldPath × ℕ). w.model_name t.1) (sym q) ∙ e)
        | inr k ↦ h p m k
      ])

  differs : (model : ℕ) → (w.model_name model == w.model_name ct) ≡ false → ¬ IsNamed model
  differs model q e =
      let same = ap (λ t. t == w.model_name ct) e ∙ beq_refl (w.model_name ct) in
      absurd (cc (sym q ∙ same))

  pub find_child-FoundChild : (children : Children) → FoundChild children (find_child w ct children)
  find_child-FoundChild [] = no_child (λ p m n. elim n [ ])
  find_child-FoundChild ((path, model) ∷ rest) =
      elim (Bool-cases (w.model_name model == w.model_name ct)) [
        | inl q ↦ rw q (found path model (Memᴰ.head refl) (beq→eq _ _ q))
        | inr q ↦ rw q (
            FoundChild-tail path model rest (find_child w ct rest) (differs model q)
              (find_child-FoundChild rest))
      ]

  -- a child of that type with a path of two fields or more, or that there is none
  pub data FoundParent (children : Children) : Option Filters → Type 0 where
    found :
        (field next : String) (path : FieldPath) (model : ℕ)
        → Memᴰ (field ∷ (next ∷ path), model) children
        → IsNamed model
        → FoundParent children
            (some (through_parent (w.registry.related_model ct field) (next ∷ path)))
    no_parent :
        ((field next : String) (path : FieldPath) (model : ℕ)
          → Memᴰ (field ∷ (next ∷ path), model) children
          → ¬ IsNamed model)
        → FoundParent children none

  abbrev IsShort : FieldPath → Type 0
  IsShort (field ∷ (next ∷ path)) = ⊥
  IsShort _ = Unit

  abbrev IsOther : FieldPath × ℕ → Type 0
  IsOther t = IsShort t.0 ⊎ (¬ IsNamed t.1)

  FoundParent-tail :
      (t : FieldPath × ℕ) (rest : Children) (x : Option Filters)
      → IsOther t
      → FoundParent rest x
      → FoundParent (t ∷ rest) x
  FoundParent-tail t rest x other (found f g p m n e) = found f g p m (Memᴰ.tail n) e
  FoundParent-tail t rest x other (no_parent h) = no_parent (λ f g p m n. elim (Memᴰ.cases_cons n) [
    | inl q ↦
        let same : IsOther (f ∷ (g ∷ p), m) = subst (λ y. IsOther y) (sym q) other in
        elim same [ inl k ↦ absurd k | inr k ↦ k ]
    | inr k ↦ h f g p m k
  ])

  pub find_parent-FoundParent :
      (children : Children) → FoundParent children (find_parent w ct children)
  find_parent-FoundParent [] = no_parent (λ f g p m n. elim n [ ])
  find_parent-FoundParent (([], model) ∷ rest) =
      FoundParent-tail ([], model) rest (find_parent w ct rest) (inl tt)
        (find_parent-FoundParent rest)
  find_parent-FoundParent ((field ∷ [], model) ∷ rest) =
      FoundParent-tail (field ∷ [], model) rest (find_parent w ct rest) (inl tt)
        (find_parent-FoundParent rest)
  find_parent-FoundParent ((field ∷ (next ∷ path), model) ∷ rest) =
      elim (Bool-cases (w.model_name model == w.model_name ct)) [
        | inl q ↦ rw q (found field next path model (Memᴰ.head refl) (beq→eq _ _ q))
        | inr q ↦ rw q (
            FoundParent-tail (field ∷ (next ∷ path), model) rest (find_parent w ct rest)
              (inr (differs model q)) (find_parent-FoundParent rest))
      ]
