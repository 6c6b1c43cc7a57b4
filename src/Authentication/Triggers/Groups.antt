-- ===== src/Authentication/Triggers/Groups.antt =====
-- Group triggers: `_lowercase_group_triggers` and `process_groups` of claims.py.
pub mod Laws
use django_ansible_base.Base.{
  String, Bool, true, false, not, Option, none, some, List, [], ◌∷◌, map, Outcome, ok, err, ◌>>=◌,
  subset, intersects, string_eq, if◌then◌else◌,
}
use django_ansible_base.Base.Dict.{Dict, get, set}
use django_ansible_base.Authentication.Value.{Value, Python, text_of, as_dict, iterate}
use django_ansible_base.Authentication.Triggers.Join.{TriggerResult, allow, skip}

module _ (py : Python) where
  abbrev fold_value : Value → String
  fold_value v = py.casefold (text_of py v)

  abbrev lowercase_group_loop :
      Dict String Value → Dict String (List String) → Outcome (Dict String (List String))
  lowercase_group_loop [] acc = ok acc
  lowercase_group_loop ((operator, grouplist) ∷ rest) acc = iterate grouplist >>= λ groups.
      lowercase_group_loop rest (set operator (map fold_value groups) acc)

  lowercase_group_triggers : Dict String Value → Outcome (Dict String (List String))
  lowercase_group_triggers condition = lowercase_group_loop condition []

  -- the chain of `if "has_or" in … elif …` on the lowercased names under the three operators
  abbrev decide_groups :
      Option (List String)
      → Option (List String)
      → Option (List String)
      → List String
      → TriggerResult
  decide_groups (some wanted) has_and has_not groups =
      if intersects groups wanted then allow else skip
  decide_groups none (some wanted) has_not groups = if subset wanted groups then allow else skip
  decide_groups none none (some unwanted) groups =
      if intersects unwanted groups then skip else allow
  decide_groups none none none groups = skip

  unfoldable pub process_groups : Value → List String → Outcome TriggerResult
  unfolding lowercase_group_triggers
  process_groups trigger groups = do
    condition ← as_dict trigger
    lowered ← lowercase_group_triggers condition
    ok (
        decide_groups (get "has_or" lowered) (get "has_and" lowered) (get "has_not" lowered)
          (map py.casefold groups))
