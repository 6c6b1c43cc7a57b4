-- ===== src/Tests/Expansion.antt =====
-- Expansion of the fields of a map at concrete inputs.
use mathlib.Core.List.{Memᴰ}
use django_ansible_base.Authentication.Product.{dict_cartesian_product, choices}
use django_ansible_base.Authentication.Product.Laws.{Chosen, dict_cartesian_product-Chosen}
use django_ansible_base.Base.Dict.{Dict}
use django_ansible_base.Base.{
  ℕ, String, List, length, ◌↔◌, ◌≡◌, refl, none, some, true, [], ◌∷◌, ok,
}
use django_ansible_base.Authentication.Value.{str, arr, of_items}
use django_ansible_base.Authentication.Expansion.{Templates, expand_syntax}

abbrev no_templates : Templates
no_templates = record { fill = λ t m g. some t; compiles = λ t. true }

expand_run :
    expand_syntax no_templates
      (("dept", arr (of_items (str "a" ∷ str "b" ∷ []))) ∷ [])
      (some "Org {% for_attr_value(dept) %}!")
      (some "Member")
      none
    ≡ ok (
        (("organization", "Org a!") ∷ ("role", "Member") ∷ [])
        ∷ (("organization", "Org b!") ∷ ("role", "Member") ∷ [])
        ∷ [])
unfolding expand_syntax
expand_run = refl

expand_bad_tag :
    expand_syntax no_templates [] (some "Org {% other %}") (some "Member") none
    ≡ ok ((("role", "Member") ∷ []) ∷ [])
unfolding expand_syntax
expand_bad_tag = refl

abbrev fields : Dict String (List ℕ)
fields = ("role", 1 ∷ 2 ∷ []) ∷ ("team", 3 ∷ []) ∷ []

dict_cartesian_product-Chosen_example :
    (length (dict_cartesian_product fields) ≡ choices fields)
    × ((c : Dict String ℕ) → Memᴰ c (dict_cartesian_product fields) ↔ Chosen fields c)
dict_cartesian_product-Chosen_example = dict_cartesian_product-Chosen fields refl
