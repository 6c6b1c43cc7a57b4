-- ===== src/Rbac/Registry/Laws.antt =====
-- `get_child_models` of ansible_base/rbac/permission_registry.py against chains of parent fields.
use django_ansible_base.Base.{
  ℕ, zero, suc, ◌≤◌, ◌≡◌, refl, ap, ◌∙◌, String, true, false, not, ◌&&◌, Option, none, some, List,
  [], ◌∷◌, ◌++◌, ◌==◌, nat_eq, contains, length, length-append, arith, Bool-cases, inl, inr, ◌↔◌,
  beq→eq,
}
use django_ansible_base.Base.Dict.{get_or, set, get_or-set}
use django_ansible_base.Rbac.Graph.{Graph, Found, visit_all, found_before, all_team_parents, listed}
use django_ansible_base.Rbac.Graph.Laws.{Above, all_team_parents-Above}
use django_ansible_base.Rbac.Registry.{
  PermissionRegistry, Children, through, children_before, has_parent, visit_fields, visit_children,
  fst_of, get_child_models,
}

abbrev pub models_of : Children → List ℕ
models_of [] = []
models_of ((path, model) ∷ rest) = model ∷ models_of rest

abbrev found_of : Option (Children × List ℕ) → Option Found
found_of none = none
found_of (some (children, seen)) = some (models_of children, seen)

models_of-append : (xs ys : Children) → models_of (xs ++ ys) ≡ models_of xs ++ models_of ys
models_of-append [] ys = refl
models_of-append ((p, m) ∷ xs) ys = ap (λ t. m ∷ t) (models_of-append xs ys)

models_of-through : (field : String) (xs : Children) → models_of (through field xs) ≡ models_of xs
models_of-through field [] = refl
models_of-through field ((p, m) ∷ xs) = ap (λ t. m ∷ t) (models_of-through field xs)

found_of-children_before :
    (field : String) (m : ℕ) (below : Children) (x : Option (Children × List ℕ))
    → found_of (children_before field m below x) ≡ found_before m (models_of below) (found_of x)
found_of-children_before field m below none = refl
found_of-children_before field m below (some (rest, seen)) =
    ap (λ t. some (m ∷ t, seen))
      (models_of-append (through field below) rest
        ∙ ap (λ t. t ++ models_of rest) (models_of-through field below))

abbrev pub visit_one :
    String
    → ℕ
    → Option (Children × List ℕ)
    → (List ℕ → Option (Children × List ℕ))
    → Option (Children × List ℕ)
visit_one field m v next = elim v [
  | none ↦ none
  | some (below, seen') ↦ children_before field m below (next seen')
]

found_of-visit_one :
    (field : String) (m : ℕ) (v : Option (Children × List ℕ)) (v' : Option Found)
    (next : List ℕ → Option (Children × List ℕ)) (next' : List ℕ → Option Found)
    → found_of v ≡ v'
    → ((seen : List ℕ) → found_of (next seen) ≡ next' seen)
    → found_of (visit_one field m v next)
      ≡ elim v' [ none ↦ none | some (above, seen') ↦ found_before m above (next' seen') ]
found_of-visit_one field m none v' next next' e h = rw (← e) refl
found_of-visit_one field m (some (below, seen')) v' next next' e h = rw (← e) (
    found_of-children_before field m below (next seen')
    ∙ ap (found_before m (models_of below)) (h seen'))

get_or_past :
    (k p : ℕ) (ms : List ℕ) (g : Graph)
    → (k == p) ≡ false
    → get_or p [] ((k, ms) ∷ g) ≡ get_or p [] g
get_or_past k p ms g q = rw (get_or, q) refl

listed-set_past :
    (k p : ℕ) (ms ns : List ℕ) (g : Graph)
    → (k == p) ≡ false
    → listed (set p ns ((k, ms) ∷ g)) ≡ ms ++ listed (set p ns g)
listed-set_past k p ms ns g q = rw (set, q) refl

listed-push :
    (p m : ℕ) (g : Graph) → length (listed (set p (m ∷ get_or p [] g) g)) ≡ suc (length (listed g))
listed-push p m [] = omega arith
listed-push p m ((k, ms) ∷ g) = elim (Bool-cases (k == p)) [
  | inl q ↦ rw (q, get_or) refl
  | inr q ↦
      let e = length-append ms (listed (set p (m ∷ get_or p [] g) g)) in
      let f = length-append ms (listed g) in
      ap (λ t. length (listed (set p (m ∷ t) ((k, ms) ∷ g)))) (get_or_past k p ms g q)
      ∙ ap length (listed-set_past k p ms (m ∷ get_or p [] g) g q)
      ∙ omega (arith, e, f, listed-push p m g)
]

visit_all_seen :
    (visit : ℕ → List ℕ → Option Found) (m : ℕ) (ms seen : List ℕ)
    → contains m seen ≡ true
    → visit_all visit (m ∷ ms) seen ≡ visit_all visit ms seen
visit_all_seen visit m ms seen q = rw (visit_all, q) refl

visit_all_new :
    (visit : ℕ → List ℕ → Option Found) (m : ℕ) (ms seen : List ℕ)
    → contains m seen ≡ false
    → visit_all visit (m ∷ ms) seen ≡ elim (visit m (m ∷ seen)) [
      | none ↦ none
      | some (above, seen') ↦ found_before m above (visit_all visit ms seen')
    ]
visit_all_new visit m ms seen q = rw (visit_all, q) refl

abbrev first_of : List ℕ → Option Found → List ℕ
first_of d none = d
first_of d (some (out, seen)) = out

module _ (r : PermissionRegistry) where
  -- the child models of each model, by the fields from `fields`
  abbrev graph_from : List (ℕ × Option String) → Graph
  graph_from [] = []
  graph_from ((m, none) ∷ fields) = graph_from fields
  graph_from ((m, some field) ∷ fields) =
      let g = graph_from fields in let p = r.related_model m field in set p (m ∷ get_or p [] g) g

  -- the mapping of each model to its child models
  abbrev pub child_graph : Graph
  child_graph = graph_from r.parent_fields

  pub visit_fields_skip :
      (visit : ℕ → List ℕ → Option (Children × List ℕ)) (parent m : ℕ) (field : String)
      (fields : List (ℕ × Option String)) (seen : List ℕ)
      → has_parent r parent m field && not (contains m seen) ≡ false
      → visit_fields r visit parent ((m, some field) ∷ fields) seen
        ≡ visit_fields r visit parent fields seen
  visit_fields_skip visit parent m field fields seen q = rw (visit_fields, q) refl

  pub visit_fields_take :
      (visit : ℕ → List ℕ → Option (Children × List ℕ)) (parent m : ℕ) (field : String)
      (fields : List (ℕ × Option String)) (seen : List ℕ)
      → has_parent r parent m field && not (contains m seen) ≡ true
      → visit_fields r visit parent ((m, some field) ∷ fields) seen
        ≡ visit_one field m (visit m (m ∷ seen)) (visit_fields r visit parent fields)
  visit_fields_take visit parent m field fields seen q = rw (visit_fields, q) refl

  get_or_other :
      (parent m : ℕ) (field : String) (fields : List (ℕ × Option String))
      → has_parent r parent m field ≡ false
      → get_or parent [] (graph_from ((m, some field) ∷ fields))
        ≡ get_or parent [] (graph_from fields)
  get_or_other parent m field fields q =
      let g = graph_from fields in
      let p = r.related_model m field in get_or-set p parent (m ∷ get_or p [] g) [] g ∙ rw q refl

  get_or_parent :
      (parent m : ℕ) (field : String) (fields : List (ℕ × Option String))
      → has_parent r parent m field ≡ true
      → get_or parent [] (graph_from ((m, some field) ∷ fields))
        ≡ m ∷ get_or parent [] (graph_from fields)
  get_or_parent parent m field fields q =
      let g = graph_from fields in
      let p = r.related_model m field in
      get_or-set p parent (m ∷ get_or p [] g) [] g ∙ rw q (rw (beq→eq p parent q) refl)

  visit_fields-visit_all :
      (visit : ℕ → List ℕ → Option (Children × List ℕ)) (visit' : ℕ → List ℕ → Option Found)
      → ((m : ℕ) (seen : List ℕ) → found_of (visit m seen) ≡ visit' m seen)
      → (parent : ℕ) (fields : List (ℕ × Option String)) (seen : List ℕ)
      → found_of (visit_fields r visit parent fields seen)
        ≡ visit_all visit' (get_or parent [] (graph_from fields)) seen
  visit_fields-visit_all visit visit' h parent [] seen = refl
  visit_fields-visit_all visit visit' h parent ((m, none) ∷ fields) seen =
      visit_fields-visit_all visit visit' h parent fields seen
  visit_fields-visit_all visit visit' h parent ((m, some field) ∷ fields) seen =
      let next = visit_fields-visit_all visit visit' h parent fields in
      let rest = get_or parent [] (graph_from fields) in
      elim (Bool-cases (has_parent r parent m field)) [
        | inr q ↦
            rw
              (
                visit_fields_skip visit parent m field fields seen (rw q refl),
                get_or_other parent m field fields q,
              )
              (next seen)
        | inl q ↦ rw (get_or_parent parent m field fields q) (elim (Bool-cases (contains m seen)) [
          | inl k ↦
              rw
                (
                  visit_fields_skip visit parent m field fields seen (rw (q, k) refl),
                  visit_all_seen visit' m rest seen k,
                )
                (next seen)
          | inr k ↦
              rw
                (
                  visit_fields_take visit parent m field fields seen (rw (q, k) refl),
                  visit_all_new visit' m rest seen k,
                )
                (found_of-visit_one field m (visit m (m ∷ seen)) (visit' m (m ∷ seen))
                  (visit_fields r visit parent fields) (visit_all visit' rest) (h m (m ∷ seen))
                  next)
        ])
      ]

  found_of-visit_children :
      (fuel parent : ℕ) (seen : List ℕ)
      → found_of (visit_children r fuel parent seen) ≡ all_team_parents child_graph fuel parent seen
  unfolding visit_children all_team_parents
  found_of-visit_children zero parent seen = refl
  found_of-visit_children (suc fuel) parent seen =
      visit_fields-visit_all (visit_children r fuel) (all_team_parents child_graph fuel)
        (found_of-visit_children fuel) parent r.parent_fields seen

  listed-graph_from :
      (fields : List (ℕ × Option String)) → length (listed (graph_from fields)) ≤ length fields
  listed-graph_from [] = omega arith
  listed-graph_from ((m, none) ∷ fields) = omega (arith, listed-graph_from fields)
  listed-graph_from ((m, some field) ∷ fields) =
      let g = graph_from fields in
      omega (arith, listed-push (r.related_model m field) m g, listed-graph_from fields)

  found_of-some :
      (x : Option (Children × List ℕ)) (out seen : List ℕ)
      → found_of x ≡ some (out, seen)
      → (children : Children) × (fst_of r x ≡ some children) × (models_of children ≡ out)
  found_of-some none out seen e = absurd (cc)
  found_of-some (some (children, later)) out seen e = (children, refl, ap (first_of out) e)

  -- For any registration of models, with loops of parent fields or without, the search comes to an
  -- end, and the models that it returns are exactly those that a chain of one or more parent fields
  -- leads down to.
  pub get_child_models-Above :
      (parent : ℕ)
      → (children : Children) × (get_child_models r parent ≡ some children)
        × ((m : ℕ) → (contains m (models_of children) ≡ true) ↔ Above child_graph parent m)
  unfolding get_child_models
  get_child_models-Above parent =
      let fuel = suc (length r.parent_fields) in
      let (out, seen, e, h) =
        all_team_parents-Above child_graph fuel parent
          (omega (arith, listed-graph_from r.parent_fields)) in
      let (children, f, g) =
        found_of-some (visit_children r fuel parent []) out seen
          (found_of-visit_children fuel parent [] ∙ e) in
      (children, f, λ m. rw g (h m))
