-- ===== src/Authentication/Triggers/Attributes/Verdicts.antt =====
-- The attributes of a trigger: the loop of `process_user_attributes` against the verdicts that
-- its conditions give one by one.
use django_ansible_base.Base.{
  String, ◌≡◌, refl, sym, ◌≢◌, ◌↔◌, Bool, true, Option, none, List, [], ◌∷◌, ok, arith, inl, inr,
  ◌==◌, string_eq, Bool-cases, Option-cases, beq→eq,
}
use django_ansible_base.Base.Dict.{Dict, get, pop}
use django_ansible_base.Authentication.Value.{
  Value, obj, Members, entries, Python, as_dict, iterate, str,
}
use django_ansible_base.Authentication.Triggers.Join.{
  TriggerResult, allow, deny, has_access_with_join, check_early_exit,
}
use django_ansible_base.Authentication.Triggers.Join.Laws.{
  merge, merge_all, IsJoin, JoinRule, grants, merge_absorbs, merge_all_absorbs, merge_all-JoinRule,
}
use django_ansible_base.Authentication.Triggers.Attributes.{
  Operator, within, find_operator, operator_names, is_empty_list, present_value,
  normalize_user_value, apply_operator, process_in_operator, process_user_value, process_checks,
  process_attribute, process_attributes, process_user_attributes, prepare_case_insensitive_data,
  validate_join_condition, join_of, result_of,
}
use django_ansible_base.Authentication.Triggers.Attributes.Values.{
  then_merge, then_merge-bind, process_scalar_operator-merge,
}

module _ (py : Python) (join : String) where
  -- The verdicts of the conditions, each weighed alone.
  abbrev pub Verdicts : Dict String Value → Dict String Value → List (Option Bool) → Type 0
  Verdicts attributes [] [] = Unit
  Verdicts attributes (entry ∷ rest) (w ∷ ws) =
      (process_attribute py attributes join entry none ≡ ok w) × Verdicts attributes rest ws
  Verdicts attributes _ _ = ⊥

module _ (py : Python) (join : String) (j : IsJoin join) where
  apply_operator-merge :
      (op : Operator) (trigger : Value) (vs : List Value) (a : Option Bool)
      → apply_operator py op trigger join vs a
        ≡ then_merge join a (apply_operator py op trigger join vs none)
  unfolding process_in_operator has_access_with_join
  apply_operator-merge within trigger vs a =
      then_merge-bind join a (iterate trigger) _ _ (λ b. refl)
  apply_operator-merge op trigger vs a = process_scalar_operator-merge py op trigger join vs a j

  process_user_value-merge :
      (checks : Dict String Value) (vs : List Value) (a : Option Bool)
      → process_user_value py checks vs join a
        ≡ then_merge join a (process_user_value py checks vs join none)
  unfolding process_user_value
  process_user_value-merge checks vs a = elim (Option-cases (find_operator operator_names checks)) [
    | inl e ↦ rw (e, process_user_value) refl
    | inr ((op, trigger), e) ↦
        rw (e, process_user_value)
          (elim (Bool-cases (is_empty_list vs)) [
            | inl q ↦ rw q refl
            | inr q ↦ rw q (apply_operator-merge op trigger vs a)
          ])
  ]

  process_checks-merge :
      (attributes : Dict String Value) (attribute : String) (checks : Dict String Value)
      (a : Option Bool)
      → process_checks py attributes join attribute checks a
        ≡ then_merge join a (process_checks py attributes join attribute checks none)
  unfolding process_checks has_access_with_join
  process_checks-merge attributes attribute checks a =
      elim (Option-cases (present_value py (get attribute attributes))) [
        | inl e ↦ ground arith
        | inr (v, e) ↦ ground (arith, process_user_value-merge checks (normalize_user_value v) a)
      ]

  -- A condition weighed from any verdict is the condition weighed alone, and then joined.
  process_attribute-merge :
      (attributes : Dict String Value) (entry : String × Value) (a : Option Bool)
      → process_attribute py attributes join entry a
        ≡ then_merge join a (process_attribute py attributes join entry none)
  unfolding process_attribute
  process_attribute-merge attributes (attribute, condition) a =
      then_merge-bind join a (as_dict condition) _ _
        (λ checks. process_checks-merge attributes attribute checks a)

  process_attributes-merge_all :
      (attributes d : Dict String Value) (ws : List (Option Bool)) (a : Option Bool)
      → Verdicts py join attributes d ws
      → process_attributes py attributes join d a ≡ ok (merge_all join a ws)
  unfolding process_attributes
  process_attributes-merge_all attributes [] [] a h = refl
  process_attributes-merge_all attributes [] (w ∷ ws) a h = absurd h
  process_attributes-merge_all attributes (entry ∷ rest) [] a h = absurd h
  process_attributes-merge_all attributes (entry ∷ rest) (w ∷ ws) a (e, h) =
      elim (Bool-cases (check_early_exit a join)) [
        | inl q ↦ rw q (rw (merge_absorbs join a w j q) (rw (merge_all_absorbs join a ws j q)))
        | inr q ↦ rw q (
            rw (process_attribute-merge attributes entry a)
              (rw e (process_attributes-merge_all attributes rest ws (merge join a w) h)))
      ]

  grants_iff : (w : Option Bool) → (result_of py w ≡ allow) ↔ (grants w ≡ true)
  grants_iff w = ground arith

  result_of-ne-deny : (w : Option Bool) → result_of py w ≢ deny
  result_of-ne-deny w = ground arith

validate_join_condition-IsJoin : (v : Value) → IsJoin (validate_join_condition v)
unfolding validate_join_condition
validate_join_condition-IsJoin (str join) = elim (Bool-cases ("or" == join)) [
  | inl q ↦ inl (rw q (sym (beq→eq "or" join q)))
  | inr q ↦ elim (Bool-cases ("and" == join)) [
    | inl r ↦ inr (rw (q, r) (sym (beq→eq "and" join r)))
    | inr r ↦ inl (rw (q, r) refl)
  ]
]
validate_join_condition-IsJoin _ = inl refl

join_of-IsJoin : (py : Python) (condition : Dict String Value) → IsJoin (join_of py condition)
join_of-IsJoin py condition = validate_join_condition-IsJoin _

module _ (py : Python) (fs : Members) (raw_attributes : Dict String Value) where
  -- the lowercased trigger and attributes, and the join that the trigger asks for
  abbrev condition : Dict String Value
  condition = (prepare_case_insensitive_data py (entries fs) raw_attributes).0

  abbrev attributes : Dict String Value
  attributes = (prepare_case_insensitive_data py (entries fs) raw_attributes).1

  -- For an attribute trigger each of whose conditions, weighed alone, returns a verdict,
  -- `process_user_attributes` returns: under `and` it allows exactly when a condition grants and
  -- none refuses, and under any other join exactly when a condition grants; it never denies.
  -- Weighing the conditions in one loop that stops early is the same as weighing each alone.
  pub process_user_attributes-JoinRule :
      (ws : List (Option Bool))
      → Verdicts py (join_of py condition) attributes (pop "join_condition" condition) ws
      → (r : TriggerResult) × (process_user_attributes py (obj fs) raw_attributes ≡ ok r)
        × ((r ≡ allow) ↔ JoinRule (join_of py condition) ws)
        × (r ≢ deny)
  unfolding process_user_attributes
  process_user_attributes-JoinRule ws h =
      let join = join_of py condition in
      let j = join_of-IsJoin py condition in
      let w = merge_all join none ws in
      let rule = merge_all-JoinRule join ws j in
      let iff = grants_iff py join j w in
      (
        result_of py w,
        rw (
            process_attributes-merge_all py join j attributes (pop "join_condition" condition) ws
              none h),
        (λ e. rule.0 (iff.0 e), λ e. iff.1 (rule.1 e)),
        result_of-ne-deny py join j w,
      )
