-- ===== src/Rbac/Evaluations/Expected/Filters.antt =====
-- Which objects below the role's own a permission is about: `get_child_filters` of
-- ansible_base/rbac/models/role.py, against the parent fields that are registered.
use mathlib.Core.List.{Memᴰ}
use django_ansible_base.Base.{
  ℕ, String, ◌≡◌, ◌≢◌, refl, sym, ap, ◌∙◌, subst, true, false, Option, none, some, [], ◌∷◌, ◌==◌,
  ◌⊎◌, nat_eq, string_eq, contains, Bool-cases, inl, inr, beq→eq, beq_refl,
}
use django_ansible_base.Rbac.Graph.Laws.{Above}
use django_ansible_base.Rbac.Registry.{FieldPath, Children}
use django_ansible_base.Rbac.Registry.Laws.{models_of, child_graph, get_child_models-Above}
use django_ansible_base.Rbac.Registry.Paths.{Leads, AllLead, get_child_models-AllLead}
use django_ansible_base.Rbac.Evaluations.Keys.{by_id, by_object}
use django_ansible_base.Rbac.Evaluations.Expected.{
  Permission, World, Filters, is_add_perm, children_of, find_parent, find_child, remote_parent,
  get_child_filters,
}
use django_ansible_base.Rbac.Evaluations.Expected.Searches.{
  models_of-Memᴰ, FoundChild, find_child-FoundChild, FoundParent, find_parent-FoundParent,
}

-- What objects a permission of a role on an object of some type is about, where the permission's own
-- type is another.
pub data ChildFilters (w : World) (role_ct : ℕ) (p : Permission) : Option Filters → Type 0 where
  -- the objects of the permission's type that a registered path leads from
  below :
      (path : FieldPath) (model : ℕ)
      → is_add_perm p.codename ≡ false
      → w.is_remote p.content_type_id ≡ false
      → Leads w.registry role_ct path model
      → w.model_name model ≡ w.model_name p.content_type_id
      → ChildFilters w role_ct p (some (by_id p.content_type_id, some (model, path)))
  not_below :
      is_add_perm p.codename ≡ false
      → w.is_remote p.content_type_id ≡ false
      → ((model : ℕ)
          → Above (child_graph w.registry) role_ct model
          → w.model_name model ≢ w.model_name p.content_type_id)
      → ChildFilters w role_ct p none
  remote :
      is_add_perm p.codename ≡ false
      → w.is_remote p.content_type_id ≡ true
      → ChildFilters w role_ct p (some (by_id p.content_type_id, none))
  -- the parents of a new object, by the rest of a path from that object
  parents_of_new :
      (field next : String) (path : FieldPath) (model : ℕ)
      → is_add_perm p.codename ≡ true
      → w.is_remote p.content_type_id ≡ false
      → Leads w.registry role_ct (field ∷ (next ∷ path)) model
      → w.model_name model ≡ w.model_name p.content_type_id
      → ChildFilters w role_ct p (
          some (
            by_id (w.registry.related_model p.content_type_id field),
            some (w.registry.related_model p.content_type_id field, next ∷ path),
          ))
  -- each model of that type below the role's is directly below it
  only_direct :
      is_add_perm p.codename ≡ true
      → w.is_remote p.content_type_id ≡ false
      → ((model : ℕ)
          → Above (child_graph w.registry) role_ct model
          → w.model_name model ≡ w.model_name p.content_type_id
          → (field : String) × Leads w.registry role_ct (field ∷ []) model)
      → ChildFilters w role_ct p none
  remote_parents_of_new :
      (parent : ℕ)
      → is_add_perm p.codename ≡ true
      → w.is_remote p.content_type_id ≡ true
      → w.parent_content_type p.content_type_id ≡ some parent
      → parent ≢ role_ct
      → ChildFilters w role_ct p (some (by_object parent, none))
  remote_only_direct :
      is_add_perm p.codename ≡ true
      → w.is_remote p.content_type_id ≡ true
      → (w.parent_content_type p.content_type_id ≡ none)
        ⊎ (w.parent_content_type p.content_type_id ≡ some role_ct)
      → ChildFilters w role_ct p none

module _ (w : World) (role_ct : ℕ) (p : Permission) where
  find_child-ChildFilters :
      (children : Children) (x : Option Filters)
      → is_add_perm p.codename ≡ false
      → w.is_remote p.content_type_id ≡ false
      → AllLead w.registry role_ct children
      → ((m : ℕ)
          → Above (child_graph w.registry) role_ct m
          → contains m (models_of children) ≡ true)
      → FoundChild w p.content_type_id children x
      → ChildFilters w role_ct p x
  find_child-ChildFilters children x a r lead all_of_them (FoundChild.found path model m e) =
      below path model a r (lead path model m) e
  find_child-ChildFilters children x a r lead all_of_them (FoundChild.no_child h) =
      not_below a r (λ model above e.
        let (path, m) = models_of-Memᴰ children model (all_of_them model above) in h path model m e)

  single :
      (path : FieldPath) (model : ℕ)
      → Leads w.registry role_ct path model
      → ((field next : String) (rest : FieldPath) → path ≢ field ∷ (next ∷ rest))
      → (field : String) × Leads w.registry role_ct (field ∷ []) model
  single [] model lead short = empty_path [] model lead refl
    where
      empty_path :
          (path : FieldPath) (model : ℕ)
          → Leads w.registry role_ct path model
          → path ≡ []
          → (field : String) × Leads w.registry role_ct (field ∷ []) model
      empty_path path model (Leads.direct m e) q = absurd (cc q)
      empty_path path model (Leads.further m e l) q = absurd (cc q)
  single (field ∷ []) model lead short = (field, lead)
  single (field ∷ (next ∷ rest)) model lead short = absurd (short field next rest refl)

  find_parent-ChildFilters :
      (children : Children) (x : Option Filters)
      → is_add_perm p.codename ≡ true
      → w.is_remote p.content_type_id ≡ false
      → AllLead w.registry role_ct children
      → ((m : ℕ)
          → Above (child_graph w.registry) role_ct m
          → contains m (models_of children) ≡ true)
      → FoundParent w p.content_type_id children x
      → ChildFilters w role_ct p x
  find_parent-ChildFilters children x a r lead all_of_them
        (FoundParent.found field next path model m e) =
      parents_of_new field next path model a r (lead (field ∷ (next ∷ path)) model m) e
  find_parent-ChildFilters children x a r lead all_of_them (FoundParent.no_parent h) =
      only_direct a r (λ model above e.
        let (path, m) = models_of-Memᴰ children model (all_of_them model above) in
        single path model (lead path model m)
          (λ f g rest q. h f g rest model (subst (λ t. Memᴰ (t, model) children) q m) e))

  remote_parent-ChildFilters :
      (parent : Option ℕ)
      → is_add_perm p.codename ≡ true
      → w.is_remote p.content_type_id ≡ true
      → w.parent_content_type p.content_type_id ≡ parent
      → ChildFilters w role_ct p (remote_parent role_ct parent)
  remote_parent-ChildFilters none a r e = remote_only_direct a r (inl e)
  remote_parent-ChildFilters (some parent) a r e = elim (Bool-cases (parent == role_ct)) [
    | inl q ↦ rw q (remote_only_direct a r (inr (e ∙ ap some (beq→eq parent role_ct q))))
    | inr q ↦ rw q (
        remote_parents_of_new parent a r e (λ same.
          let again = ap (λ t. t == role_ct) same ∙ beq_refl role_ct in
          absurd (cc (sym q ∙ again))))
  ]

  -- A permission that is not one to add is about the objects of its own type: of a remote type all
  -- that roles name, and else those that a registered path of fields leads from to the role's object;
  -- it is passed over only if no chain of parent fields leads from its type to the role's. One to add
  -- is about the parents of a new object: for a local type those that the first field of a path of
  -- two or more fields names, and it is passed over only if each model of its type below the role's
  -- has a field for the role's type itself; for a remote type about the type's parent, and it is
  -- passed over only if there is none or it is the role's own type.
  pub get_child_filters-ChildFilters : ChildFilters w role_ct p (get_child_filters w role_ct p)
  unfolding get_child_filters
  get_child_filters-ChildFilters =
      let ct = p.content_type_id in
      let (children, e, h) = get_child_models-Above w.registry role_ct in
      let same : children_of w role_ct ≡ children = rw (children_of, e) refl in
      let lead = get_child_models-AllLead w.registry role_ct children e in
      elim (Bool-cases (is_add_perm p.codename)) [
        | inl a ↦ elim (Bool-cases (w.is_remote ct)) [
          | inl r ↦ rw (a, r) (remote_parent-ChildFilters (w.parent_content_type ct) a r refl)
          | inr r ↦
              rw (a, r, same)
                (find_parent-ChildFilters children (find_parent w ct children) a r lead
                  (λ m. (h m).1) (find_parent-FoundParent w ct children))
        ]
        | inr a ↦ elim (Bool-cases (w.is_remote ct)) [
          | inl r ↦ rw (a, r) (remote a r)
          | inr r ↦
              rw (a, r, same)
                (find_child-ChildFilters children (find_child w ct children) a r lead (λ m. (h m).1)
                  (find_child-FoundChild w ct children))
        ]
      ]
