-- ===== src/Authentication/Triggers/Attributes.antt =====
-- Attribute triggers: `process_user_attributes` of claims.py and the functions that it calls.
pub mod Values
pub mod Verdicts
use django_ansible_base.Base.{
  String, ◌≡◌, Bool, true, false, not, ◌&&◌, ◌||◌, Option, none, some, List, [], ◌∷◌, map, Outcome,
  ok, err, ◌>>=◌, type_error, key_error, regex_error, subset, intersects, contains, ◌==◌, string_eq,
  if◌then◌else◌,
}
use django_ansible_base.Base.Dict.{Dict, get, get_or, set, pop, has_key}
use django_ansible_base.Base.Text.{has_infix, ends_with}
use django_ansible_base.Authentication.Value.{
  Value, null, str, arr, obj, Python, text_of, items, of_items, entries, of_entries, as_dict,
  iterate,
}
use django_ansible_base.Authentication.Triggers.Join.{
  TriggerResult, allow, skip, has_access_with_join, check_early_exit, join_choices,
}

abbrev is_list : Value → Bool
is_list (arr vs) = true
is_list _ = false

-- `if not condition`, on a list
abbrev is_empty_list {ℓ} : {A : Type ℓ} → List A → Bool
is_empty_list [] = true
is_empty_list (x ∷ xs) = false

pub validate_join_condition : Value → String
validate_join_condition (str join) = if contains join join_choices then join else "or"
validate_join_condition _ = "or"

-- false: the condition is ignored, since its `in` is no list
pub validate_attribute_conditions : Dict String Value → Bool
validate_attribute_conditions condition = elim (get "in" condition) [
  | none ↦ true
  | some v ↦ is_list v
]

pub normalize_user_value : Value → List Value
normalize_user_value (arr vs) = items vs
normalize_user_value v = v ∷ []

-- the five operators, in the order in which `_process_user_value` looks for them
pub data Operator : Type 0 where
  equals matches containing ending within : Operator

abbrev pub operator_names : List (String × Operator)
operator_names =
    ("equals", equals)
    ∷ ("matches", matches)
    ∷ ("contains", containing)
    ∷ ("ends_with", ending)
    ∷ ("in", within)
    ∷ []

abbrev find_operator : List (String × Operator) → Dict String Value → Option (Operator × Value)
find_operator [] condition = none
find_operator ((name, op) ∷ rest) condition = elim (get name condition) [
  | some v ↦ some (op, v)
  | none ↦ find_operator rest condition
]

module _ (py : Python) where
  abbrev fold_each : List Value → List String
  fold_each = map (λ v. py.casefold (text_of py v))

  abbrev str_each : List String → List Value
  str_each = map str

  lowercase_value : Value → Value
  lowercase_value (str s) = str (py.casefold s)
  lowercase_value (arr vs) = arr (of_items (str_each (fold_each (items vs))))
  lowercase_value v = v

  abbrev lowercase_dict_loop : Dict String Value → Dict String Value → Dict String Value
  lowercase_dict_loop [] acc = acc
  lowercase_dict_loop ((key, value) ∷ rest) acc =
      lowercase_dict_loop rest (set key (lowercase_value value) acc)

  lowercase_dict : Dict String Value → Dict String Value
  lowercase_dict condition = lowercase_dict_loop condition []

  abbrev lowercase_condition : Value → Value
  lowercase_condition (str s) = str (py.casefold s)
  lowercase_condition (obj fs) = obj (of_entries (lowercase_dict (entries fs)))
  lowercase_condition v = v

  abbrev lowercase_attr_loop : Dict String Value → Dict String Value → Dict String Value
  lowercase_attr_loop [] acc = acc
  lowercase_attr_loop ((attr, condition) ∷ rest) acc =
      lowercase_attr_loop rest (set (py.casefold attr) (lowercase_condition condition) acc)

  pub lowercase_attr_triggers : Dict String Value → Dict String Value
  unfolding lowercase_dict lowercase_value
  lowercase_attr_triggers condition = lowercase_attr_loop condition []

  abbrev fold_keys : Dict String Value → Dict String Value → Dict String Value
  fold_keys [] acc = acc
  fold_keys ((k, v) ∷ rest) acc = fold_keys rest (set (py.casefold k) v acc)

  pub prepare_case_insensitive_data :
      Dict String Value → Dict String Value → Dict String Value × Dict String Value
  unfolding lowercase_attr_triggers
  prepare_case_insensitive_data condition attributes =
      (lowercase_attr_triggers condition, fold_keys attributes [])

  abbrev with_text : Value → (String → Outcome Bool) → Outcome Bool
  with_text (str t) f = f t
  with_text _ f = err type_error

  abbrev match_text : String → String → Outcome Bool
  match_text user pattern_text = elim (py.re_match pattern_text user) [
    | none ↦ err regex_error
    | some b ↦ ok b
  ]

  -- `_OPERATOR_DISPATCH` and the functions `_evaluate_…`; `in` is not in the dispatch
  unfoldable pub evaluate : Operator → String → Value → Outcome Bool
  evaluate equals user (str t) = ok (user == t)
  evaluate equals user _ = ok false
  evaluate matches user v = with_text v (match_text user)
  evaluate containing user v = with_text v (λ t. ok (has_infix user t))
  evaluate ending user v = with_text v (λ t. ok (ends_with user t))
  evaluate within user v = err key_error

  unfoldable pub process_scalar_operator :
      Operator → Value → String → List Value → Option Bool → Outcome (Option Bool)
  process_scalar_operator op trigger join [] has_access = ok has_access
  process_scalar_operator op trigger join (v ∷ rest) has_access =
      evaluate op (py.casefold (text_of py v)) trigger >>= λ result.
      let joined = has_access_with_join has_access result join in
      let more = process_scalar_operator op trigger join rest joined in
      if result && join == "or"
      then ok joined
      else if not result && join == "and"
      then ok joined
      else more

  unfoldable pub process_in_operator :
      Value → String → List Value → Option Bool → Outcome (Option Bool)
  process_in_operator trigger join user has_access = do
    wanted ← iterate trigger
    let trigger_set = fold_each wanted
    let user_set = fold_each user
    let result =
        if join == "or" then intersects user_set trigger_set else subset user_set trigger_set
    ok (has_access_with_join has_access result join)

  abbrev pub apply_operator :
      Operator → Value → String → List Value → Option Bool → Outcome (Option Bool)
  apply_operator within trigger join user has_access =
      process_in_operator trigger join user has_access
  apply_operator op trigger join user has_access =
      process_scalar_operator op trigger join user has_access

  unfoldable pub process_user_value :
      Dict String Value → List Value → String → Option Bool → Outcome (Option Bool)
  process_user_value condition user join has_access =
      elim (find_operator operator_names condition) [
        | none ↦ ok has_access
        | some (op, trigger) ↦
            if is_empty_list user
            then ok has_access
            else apply_operator op trigger join user has_access
      ]

  -- `user_value is None` holds for a missing attribute and for a null one
  abbrev present_value : Option Value → Option Value
  present_value (some null) = none
  present_value found = found

  unfoldable pub process_checks :
      Dict String Value → String → String → Dict String Value → Option Bool → Outcome (Option Bool)
  unfolding validate_attribute_conditions normalize_user_value
  process_checks attributes join attribute checks has_access =
      if not (validate_attribute_conditions checks)
      then ok has_access
      else if is_empty_list checks
      then ok (has_access_with_join has_access (has_key attribute attributes) join)
      else elim (present_value (get attribute attributes)) [
        | none ↦
            ok (if join == "and" then has_access_with_join has_access false join else has_access)
        | some v ↦ process_user_value checks (normalize_user_value v) join has_access
      ]

  -- the body of the loop of `process_user_attributes`, below its test for the early exit
  unfoldable pub process_attribute :
      Dict String Value → String → String × Value → Option Bool → Outcome (Option Bool)
  process_attribute attributes join (attribute, condition) has_access = do
    checks ← as_dict condition
    process_checks attributes join attribute checks has_access

  unfoldable pub process_attributes :
      Dict String Value → String → Dict String Value → Option Bool → Outcome (Option Bool)
  process_attributes attributes join [] has_access = ok has_access
  process_attributes attributes join (entry ∷ rest) has_access =
      if check_early_exit has_access join
      then ok has_access
      else process_attribute attributes join entry has_access >>= λ joined.
          process_attributes attributes join rest joined

  abbrev result_of : Option Bool → TriggerResult
  result_of (some true) = allow
  result_of _ = skip

  abbrev join_of : Dict String Value → String
  join_of condition = validate_join_condition (get_or "join_condition" (str "or") condition)

  unfoldable pub process_user_attributes : Value → Dict String Value → Outcome TriggerResult
  unfolding prepare_case_insensitive_data validate_join_condition
  process_user_attributes trigger raw_attributes = do
    raw ← as_dict trigger
    let (condition, attributes) = prepare_case_insensitive_data raw raw_attributes
    has_access ←
        process_attributes attributes (join_of condition) (pop "join_condition" condition) none
    ok (result_of has_access)
