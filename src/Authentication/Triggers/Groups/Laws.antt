-- ===== src/Authentication/Triggers/Groups/Laws.antt =====
-- What `process_groups` decides, against a description by membership.
use django_ansible_base.Base.{
  String, ◌≡◌, refl, ◌≢◌, ◌↔◌, Bool, true, false, Option, none, some, List, [], ◌∷◌, map, ok, err,
  >>=-eq-ok, arith, subset, intersects, contains, contains-map, contains-map_of, any-witness,
  any_of, all-contains, all_of, string_eq, if◌then◌else◌, Bool-cases, inl, inr, eq_iff,
}
use django_ansible_base.Base.Dict.{Dict, get, set, IsDistinct, get-set}
use django_ansible_base.Authentication.Value.{Value, obj, Members, entries, Python, iterate}
use django_ansible_base.Authentication.Triggers.Join.{TriggerResult, allow, deny, skip}
use django_ansible_base.Authentication.Triggers.Groups.{
  process_groups, fold_value, lowercase_group_loop, decide_groups,
}

-- Each operator's value can be iterated over.
abbrev pub IsIterable : Dict String Value → Type 0
IsIterable [] = Unit
IsIterable ((k, v) ∷ d) = ((xs : List Value) × (iterate v ≡ ok xs)) × IsIterable d

module _ (py : Python) where
  -- the names that a value lists, lowercased
  abbrev pub group_names : Value → List String
  group_names v = elim (iterate v) [ ok xs ↦ map (fold_value py) xs | err _ ↦ [] ]

  abbrev named : Option Value → Option (List String) → Option (List String)
  named none before = before
  named (some v) before = some (group_names v)

  lowercase_group_loop_total :
      (d : Dict String Value) (acc : Dict String (List String))
      → IsIterable d
      → (r : Dict String (List String)) × (lowercase_group_loop py d acc ≡ ok r)
  lowercase_group_loop_total [] acc h = (acc, refl)
  lowercase_group_loop_total ((k, v) ∷ d) acc ((xs, e), h) =
      let (r, q) = lowercase_group_loop_total d (set k (map (fold_value py) xs) acc) h in
      (r, rw e q)

  get-lowercase_group_loop :
      (k : String) (d : Dict String Value) (acc r : Dict String (List String))
      → IsDistinct d
      → lowercase_group_loop py d acc ≡ ok r
      → get k r ≡ named (get k d) (get k acc)
  get-lowercase_group_loop k [] acc r h e = ground arith
  get-lowercase_group_loop k ((j, v) ∷ d) acc r h e =
      let (xs, p, q) =
        >>=-eq-ok (iterate v) (λ xs. lowercase_group_loop py d (set j (map (fold_value py) xs) acc))
          e in
      let names = map (fold_value py) xs in
      ground (
        arith,
        p,
        get-lowercase_group_loop k d (set j names acc) r h.1 q,
        get-set j k names acc,
        eq_iff j k,
      )

  -- What a trigger with these operators asks of a user's groups: the first operator decides.
  abbrev pub GroupRule : Option Value → Option Value → Option Value → List String → Type 0
  GroupRule (some v) has_and has_not groups =
      (g : String) × (contains g groups ≡ true) × (contains (py.casefold g) (group_names v) ≡ true)
  GroupRule none (some v) has_not groups =
      (n : String)
      → contains n (group_names v) ≡ true
      → (g : String) × (contains g groups ≡ true) × (py.casefold g ≡ n)
  GroupRule none none (some v) groups =
      (g : String) → contains g groups ≡ true → contains (py.casefold g) (group_names v) ≡ false
  GroupRule none none none groups = ⊥

  module _ (groups names : List String) where
    intersects_iff :
        (intersects (map py.casefold groups) names ≡ true)
        ↔ ((g : String) × (contains g groups ≡ true) × (contains (py.casefold g) names ≡ true))
    intersects_iff = (
      λ h.
          let (n, m, q) = any-witness (λ n. contains n names) (map py.casefold groups) h in
          let (g, i, e) = contains-map py.casefold groups n m in (g, i, rw e q),
      λ (g, i, q).
          any_of (λ n. contains n names) (map py.casefold groups) (py.casefold g)
            (contains-map_of py.casefold groups g i) q,
    )

    subset_iff : (subset names (map py.casefold groups) ≡ true) ↔ (
        (n : String)
        → contains n names ≡ true
        → (g : String) × (contains g groups ≡ true) × (py.casefold g ≡ n))
    subset_iff = (
      λ h n m.
          contains-map py.casefold groups n
            (all-contains (λ x. contains x (map py.casefold groups)) names h n m),
      λ h.
          all_of (λ x. contains x (map py.casefold groups)) names
            (λ n m. let (g, i, e) = h n m in rw (← e) (contains-map_of py.casefold groups g i)),
    )

    disjoint_iff :
        (intersects names (map py.casefold groups) ≡ false)
        ↔ ((g : String) → contains g groups ≡ true → contains (py.casefold g) names ≡ false)
    disjoint_iff = (
      λ h g i. elim (Bool-cases (contains (py.casefold g) names)) [
        | inl q ↦ absurd (
            cc (
              h,
              any_of (λ n. contains n (map py.casefold groups)) names (py.casefold g) q
                  (contains-map_of py.casefold groups g i),
            ))
        | inr q ↦ q
      ],
      λ h. elim (Bool-cases (intersects names (map py.casefold groups))) [
        | inl q ↦
            let (n, m, l) = any-witness (λ n. contains n (map py.casefold groups)) names q in
            let (g, i, e) = contains-map py.casefold groups n l in
            absurd (cc (h g i, rw (← e) at m))
        | inr q ↦ q
      ],
    )

  allow_if_iff : (b : Bool) → ((if b then allow else skip) ≡ allow) ↔ (b ≡ true)
  allow_if_iff b = ground arith

  skip_if_iff : (b : Bool) → ((if b then skip else allow) ≡ allow) ↔ (b ≡ false)
  skip_if_iff b = ground arith

  decide_groups_iff :
      (o a n : Option Value) (groups : List String)
      → (decide_groups py (named o none) (named a none) (named n none) (map py.casefold groups)
          ≡ allow)
        ↔ GroupRule o a n groups
  decide_groups_iff (some v) a n groups =
      let c = allow_if_iff (intersects (map py.casefold groups) (group_names v)) in
      let i = intersects_iff groups (group_names v) in (λ h. i.0 (c.0 h), λ h. c.1 (i.1 h))
  decide_groups_iff none (some v) n groups =
      let c = allow_if_iff (subset (group_names v) (map py.casefold groups)) in
      let i = subset_iff groups (group_names v) in (λ h. i.0 (c.0 h), λ h. c.1 (i.1 h))
  decide_groups_iff none none (some v) groups =
      let c = skip_if_iff (intersects (group_names v) (map py.casefold groups)) in
      let i = disjoint_iff groups (group_names v) in (λ h. i.0 (c.0 h), λ h. c.1 (i.1 h))
  decide_groups_iff none none none groups = (λ h. cc, λ h. absurd h)

  decide_groups-ne-deny :
      (o a n : Option (List String)) (groups : List String) → decide_groups py o a n groups ≢ deny
  decide_groups-ne-deny o a n groups = ground arith

  -- For a group trigger whose operators are listed once and can be iterated over,
  -- `process_groups` returns; it allows exactly when the user's groups meet the first operator
  -- that is there, compared by their lowercased names (has_or: one listed group; has_and: every
  -- listed group; has_not: none; no operator: never), and it never denies.
  pub process_groups-GroupRule :
      (fs : Members) (groups : List String)
      → IsDistinct (entries fs)
      → IsIterable (entries fs)
      → (r : TriggerResult) × (process_groups py (obj fs) groups ≡ ok r)
        × ((r ≡ allow)
            ↔ GroupRule
                (get "has_or" (entries fs))
                (get "has_and" (entries fs))
                (get "has_not" (entries fs))
                groups)
        × (r ≢ deny)
  unfolding process_groups
  process_groups-GroupRule fs groups distinct iterable =
      let d = entries fs in
      let (lowered, e) = lowercase_group_loop_total d [] iterable in
      let o = get-lowercase_group_loop "has_or" d [] lowered distinct e in
      let a = get-lowercase_group_loop "has_and" d [] lowered distinct e in
      let n = get-lowercase_group_loop "has_not" d [] lowered distinct e in
      let lower = map py.casefold groups in
      (
        decide_groups py (named (get "has_or" d) none) (named (get "has_and" d) none)
            (named (get "has_not" d) none) lower,
        rw (e, o, a, n),
        decide_groups_iff (get "has_or" d) (get "has_and" d) (get "has_not" d) groups,
        decide_groups-ne-deny _ _ _ lower,
      )
