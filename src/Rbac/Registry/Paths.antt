-- ===== src/Rbac/Registry/Paths.antt =====
-- The paths of fields that `get_child_models` of ansible_base/rbac/permission_registry.py returns.
use mathlib.Core.List.{Memᴰ}
use mathlib.Core.List.Memᴰ as Memᴰ
use django_ansible_base.Base.{
  ℕ, zero, suc, String, ◌≡◌, refl, sym, subst, not, ◌&&◌, Option, none, some, List, [], ◌∷◌, ◌++◌,
  nat_eq, contains, length, Bool-cases, inl, inr, beq→eq, arith,
}
use django_ansible_base.Rbac.Registry.{
  PermissionRegistry, FieldPath, Children, through, children_before, has_parent, visit_fields,
  visit_children, fst_of, get_child_models,
}
use django_ansible_base.Rbac.Registry.Laws.{visit_one, visit_fields_skip, visit_fields_take}

-- A path leads from a model to a parent: each of its fields is registered for the model that is
-- reached before it, and refers to the next one.
pub data Leads (r : PermissionRegistry) (parent : ℕ) : FieldPath → ℕ → Type 0 where
  direct :
      {model : ℕ} {field : String}
      → Memᴰ (model, some field) r.parent_fields
      → r.related_model model field ≡ parent
      → Leads r parent (field ∷ []) model
  further :
      {model mid : ℕ} {field : String} {path : FieldPath}
      → Memᴰ (model, some field) r.parent_fields
      → r.related_model model field ≡ mid
      → Leads r parent path mid
      → Leads r parent (field ∷ path) model

module _ (r : PermissionRegistry) where
  Leads-through :
      (parent mid : ℕ) (field : String) {path : FieldPath} {model : ℕ}
      → Memᴰ (mid, some field) r.parent_fields
      → r.related_model mid field ≡ parent
      → Leads r mid path model
      → Leads r parent (path ++ (field ∷ [])) model
  Leads-through parent mid field m e (direct n p) = further n p (direct m e)
  Leads-through parent mid field m e (further n p l) =
      further n p (Leads-through parent mid field m e l)

  abbrev pub AllLead : ℕ → Children → Type 0
  AllLead parent children =
      (path : FieldPath) (model : ℕ) → Memᴰ (path, model) children → Leads r parent path model

  abbrev SomeLead : ℕ → Option (Children × List ℕ) → Type 0
  SomeLead parent none = Unit
  SomeLead parent (some (children, seen)) = AllLead parent children

  through-AllLead :
      (parent mid : ℕ) (field : String) (below : Children)
      → Memᴰ (mid, some field) r.parent_fields
      → r.related_model mid field ≡ parent
      → AllLead mid below
      → AllLead parent (through field below)
  through-AllLead parent mid field [] m e h path model n = elim n [ ]
  through-AllLead parent mid field ((p, x) ∷ below) m e h path model (Memᴰ.head q) =
      let here = Leads-through parent mid field m e (h p x (Memᴰ.head refl)) in
      subst (λ (t : FieldPath × ℕ). Leads r parent t.0 t.1) (sym q) here
  through-AllLead parent mid field ((p, x) ∷ below) m e h path model (Memᴰ.tail n) =
      through-AllLead parent mid field below m e (λ a b k. h a b (Memᴰ.tail k)) path model n

  children_before-SomeLead :
      (parent mid : ℕ) (field : String) (below : Children) (rest : Option (Children × List ℕ))
      → Memᴰ (mid, some field) r.parent_fields
      → r.related_model mid field ≡ parent
      → AllLead mid below
      → SomeLead parent rest
      → SomeLead parent (children_before field mid below rest)
  children_before-SomeLead parent mid field below none m e h g = tt
  children_before-SomeLead parent mid field below (some (rest, seen)) m e h g = λ path model n.
      elim (Memᴰ.cases_cons n) [
        | inl q ↦ subst (λ (t : FieldPath × ℕ). Leads r parent t.0 t.1) (sym q) (direct m e)
        | inr k ↦ elim (Memᴰ.append_cases (through field below) k) [
          | inl l ↦ through-AllLead parent mid field below m e h path model l
          | inr l ↦ g path model l
        ]
      ]

  visit_one-SomeLead :
      (parent mid : ℕ) (field : String) (found : Option (Children × List ℕ))
      (next : List ℕ → Option (Children × List ℕ))
      → Memᴰ (mid, some field) r.parent_fields
      → r.related_model mid field ≡ parent
      → SomeLead mid found
      → ((seen : List ℕ) → SomeLead parent (next seen))
      → SomeLead parent (visit_one field mid found next)
  visit_one-SomeLead parent mid field none next m e h g = tt
  visit_one-SomeLead parent mid field (some (below, seen)) next m e h g =
      children_before-SomeLead parent mid field below (next seen) m e h (g seen)

  visit_fields-SomeLead :
      (visit : ℕ → List ℕ → Option (Children × List ℕ))
      → ((m : ℕ) (seen : List ℕ) → SomeLead m (visit m seen))
      → (parent : ℕ) (fields : List (ℕ × Option String))
      → ((f : ℕ × Option String) → Memᴰ f fields → Memᴰ f r.parent_fields)
      → (seen : List ℕ) → SomeLead parent (visit_fields r visit parent fields seen)
  visit_fields-SomeLead visit h parent [] sub seen = λ path model n. elim n [ ]
  visit_fields-SomeLead visit h parent ((m, none) ∷ fields) sub seen =
      visit_fields-SomeLead visit h parent fields (λ f k. sub f (Memᴰ.tail k)) seen
  visit_fields-SomeLead visit h parent ((m, some field) ∷ fields) sub seen =
      let rest = visit_fields-SomeLead visit h parent fields (λ f k. sub f (Memᴰ.tail k)) in
      elim (Bool-cases (has_parent r parent m field && not (contains m seen))) [
        | inr q ↦
            subst (λ x. SomeLead parent x)
              (sym (visit_fields_skip r visit parent m field fields seen q)) (rest seen)
        | inl q ↦
            subst (λ x. SomeLead parent x)
              (sym (visit_fields_take r visit parent m field fields seen q))
              (visit_one-SomeLead parent m field (visit m (m ∷ seen))
                (visit_fields r visit parent fields) (sub (m, some field) (Memᴰ.head refl))
                (beq→eq (r.related_model m field) parent (ground arith)) (h m (m ∷ seen)) rest)
      ]

  visit_children-SomeLead :
      (fuel parent : ℕ) (seen : List ℕ) → SomeLead parent (visit_children r fuel parent seen)
  unfolding visit_children
  visit_children-SomeLead zero parent seen = tt
  visit_children-SomeLead (suc fuel) parent seen =
      visit_fields-SomeLead (visit_children r fuel) (visit_children-SomeLead fuel) parent
        r.parent_fields (λ f k. k) seen

  fst_of-AllLead :
      (parent : ℕ) (x : Option (Children × List ℕ)) (children : Children)
      → SomeLead parent x
      → fst_of r x ≡ some children
      → AllLead parent children
  fst_of-AllLead parent none children h e = absurd (cc e)
  fst_of-AllLead parent (some (found, seen)) children h e =
      let same : found ≡ children = cc in subst (λ c. AllLead parent c) same h

  -- each child model that is returned comes with a path that leads from it to the parent
  pub get_child_models-AllLead :
      (parent : ℕ) (children : Children)
      → get_child_models r parent ≡ some children
      → AllLead parent children
  unfolding get_child_models
  get_child_models-AllLead parent children e =
      fst_of-AllLead parent (visit_children r (suc (length r.parent_fields)) parent []) children
        (visit_children-SomeLead (suc (length r.parent_fields)) parent []) e
