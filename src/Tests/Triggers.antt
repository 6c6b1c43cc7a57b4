-- ===== src/Tests/Triggers.antt =====
-- Triggers at concrete inputs.
use django_ansible_base.Base.{
  String, ◌≡◌, ◌≢◌, ◌↔◌, refl, true, false, none, some, [], ◌∷◌, ok, inl, ◌==◌, string_eq,
}
use django_ansible_base.Base.Dict.{Dict}
use django_ansible_base.Authentication.Value.{
  Value, Members, Python, str, arr, obj, of_items, of_entries,
}
use django_ansible_base.Authentication.Triggers.Join.{
  TriggerResult, allow, deny, has_access_with_join, check_early_exit,
}
use django_ansible_base.Authentication.Triggers.Groups.{process_groups}
use django_ansible_base.Authentication.Triggers.Attributes.{
  process_user_attributes, process_attributes, process_attribute, process_checks,
  process_user_value, process_scalar_operator, process_in_operator, evaluate,
}
use django_ansible_base.Authentication.Triggers.Join.Laws.{JoinRule}
use django_ansible_base.Authentication.Triggers.Groups.Laws.{GroupRule, process_groups-GroupRule}
use django_ansible_base.Authentication.Triggers.Attributes.{equals}
use django_ansible_base.Authentication.Triggers.Attributes.Values.{process_user_value-any-all}
use django_ansible_base.Authentication.Triggers.Attributes.Verdicts.{
  process_user_attributes-JoinRule,
}

-- texts that are lower case already, and patterns that match everything
abbrev plain : Python
plain = record { casefold = λ s. s; re_match = λ p s. some true; repr = λ v. "" }

abbrev texts : Dict String Value → Value
texts d = obj (of_entries d)

abbrev group_trigger : Value
group_trigger = texts (("has_and", arr (of_items (str "a" ∷ str "b" ∷ []))) ∷ [])

groups_run : process_groups plain group_trigger ("b" ∷ "c" ∷ "a" ∷ []) ≡ ok allow
unfolding process_groups
groups_run = refl

abbrev attr_trigger : Value
attr_trigger = texts (
    ("join_condition", str "and")
    ∷ ("mail", texts (("ends_with", str "@x.org") ∷ []))
    ∷ ("dept", texts (("in", arr (of_items (str "it" ∷ str "hr" ∷ []))) ∷ []))
    ∷ [])

attributes_run :
    process_user_attributes plain attr_trigger (("mail", str "me@x.org") ∷ ("dept", str "hr") ∷ [])
    ≡ ok allow
unfolding process_user_attributes process_attributes process_attribute process_checks
    process_user_value process_scalar_operator process_in_operator evaluate has_access_with_join
    check_early_exit
attributes_run = refl

abbrev group_fields : Members
group_fields = of_entries (("has_and", arr (of_items (str "a" ∷ str "b" ∷ []))) ∷ [])

process_groups-GroupRule_example :
    (r : TriggerResult) × (process_groups plain (obj group_fields) ("b" ∷ "a" ∷ []) ≡ ok r)
    × ((r ≡ allow)
        ↔ GroupRule plain none
            (some (arr (of_items (str "a" ∷ str "b" ∷ []))))
            none
            ("b" ∷ "a" ∷ []))
    × (r ≢ deny)
process_groups-GroupRule_example =
    process_groups-GroupRule plain group_fields ("b" ∷ "a" ∷ []) (refl, tt)
      ((str "a" ∷ str "b" ∷ [], refl), tt)

abbrev attr_fields : Members
attr_fields = of_entries (
    ("join_condition", str "and")
    ∷ ("mail", texts (("ends_with", str "@x.org") ∷ []))
    ∷ ("dept", texts [])
    ∷ [])

abbrev user : Dict String Value
user = ("Mail", str "me@x.org") ∷ ("mail", str "me@y.org") ∷ []

process_user_attributes-JoinRule_example :
    (r : TriggerResult) × (process_user_attributes plain (obj attr_fields) user ≡ ok r)
    × ((r ≡ allow) ↔ JoinRule "and" (some false ∷ some false ∷ []))
    × (r ≢ deny)
unfolding process_attribute process_checks process_user_value process_scalar_operator evaluate
    has_access_with_join process_user_attributes
process_user_attributes-JoinRule_example =
    process_user_attributes-JoinRule plain attr_fields user (some false ∷ some false ∷ [])
      (refl, (refl, tt))

process_user_value-any-all_example :
    process_user_value plain (("equals", str "x") ∷ []) (str "y" ∷ str "x" ∷ []) "or" none
    ≡ ok (some true)
unfolding evaluate
process_user_value-any-all_example =
    process_user_value-any-all plain equals (str "x") (λ u. u == "x") (λ u. refl)
      (("equals", str "x") ∷ []) "or" (str "y" ∷ str "x" ∷ []) refl (λ h. cc) (inl refl)
