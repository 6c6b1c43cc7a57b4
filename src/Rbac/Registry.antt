-- ===== src/Rbac/Registry.antt =====
-- `get_child_models` of ansible_base/rbac/permission_registry.py. A model stands for its content type,
-- a number; a path of fields that the code joins by two underscores is the list of the fields. The
-- set `seen` that the calls share is passed along and returned, and the depth of the calls is the
-- fuel.
pub mod Laws
pub mod Paths
use django_ansible_base.Base.{
  ℕ, zero, suc, String, Bool, true, false, not, ◌&&◌, Option, none, some, List, [], ◌∷◌, ◌++◌, ◌==◌,
  nat_eq, contains, length, map,
}

-- `_parent_fields` in the order of registration, and the model that a field of a model refers to.
pub record PermissionRegistry : Type 0 where
  pub parent_fields : List (ℕ × Option String)
  pub related_model : ℕ → String → ℕ

abbrev pub FieldPath : Type 0
FieldPath = List String

-- the child models with their paths, and `seen` afterwards
abbrev pub Children : Type 0
Children = List (FieldPath × ℕ)

abbrev pub through : String → Children → Children
through field [] = []
through field ((path, model) ∷ rest) = (path ++ (field ∷ []), model) ∷ through field rest

abbrev pub children_before :
    String → ℕ → Children → Option (Children × List ℕ) → Option (Children × List ℕ)
children_before field model below none = none
children_before field model below (some (rest, seen)) =
    some ((field ∷ [], model) ∷ (through field below ++ rest), seen)

module _ (r : PermissionRegistry) where
  abbrev pub has_parent : ℕ → ℕ → String → Bool
  has_parent parent model field = r.related_model model field == parent

  -- the loop over `_parent_fields`, where `visit` is the recursive call
  abbrev pub visit_fields :
      (ℕ → List ℕ → Option (Children × List ℕ))
      → ℕ
      → List (ℕ × Option String)
      → List ℕ
      → Option (Children × List ℕ)
  visit_fields visit parent [] seen = some ([], seen)
  visit_fields visit parent ((model, none) ∷ fields) seen = visit_fields visit parent fields seen
  visit_fields visit parent ((model, some field) ∷ fields) seen =
      elim (has_parent parent model field && not (contains model seen)) [
        | false ↦ visit_fields visit parent fields seen
        | true ↦ elim (visit model (model ∷ seen)) [
          | none ↦ none
          | some (below, seen') ↦
              children_before field model below (visit_fields visit parent fields seen')
        ]
      ]

  unfoldable pub visit_children : ℕ → ℕ → List ℕ → Option (Children × List ℕ)
  visit_children zero parent seen = none
  visit_children (suc fuel) parent seen =
      visit_fields (visit_children fuel) parent r.parent_fields seen

  abbrev pub fst_of : Option (Children × List ℕ) → Option Children
  fst_of none = none
  fst_of (some (children, seen)) = some children

  -- The call without `seen`; each call that nests takes a model that was not seen.
  unfoldable pub get_child_models : ℕ → Option Children
  unfolding visit_children
  get_child_models parent = fst_of (visit_children (suc (length r.parent_fields)) parent [])
