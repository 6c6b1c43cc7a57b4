-- ===== src/Authentication/Triggers/Join.antt =====
-- What a trigger decides, and the join of the verdicts of several conditions:
-- `TriggerResult`, `has_access_with_join` and `_check_early_exit` of claims.py.
pub mod Laws
use django_ansible_base.Base.{
  String, Bool, true, false, ◌&&◌, ◌||◌, Option, none, some, List, [], ◌∷◌, ◌==◌, string_eq,
  contains, if◌then◌else◌,
}

pub data TriggerResult : Type 0 where
  allow deny skip : TriggerResult

unfoldable pub has_access_with_join : Option Bool → Bool → String → Option Bool
has_access_with_join none new_access condition = some new_access
has_access_with_join (some current) new_access condition =
    if condition == "or"
    then some (current || new_access)
    else if condition == "and"
    then some (current && new_access)
    else none

-- the `choices` of `join_condition` in TRIGGER_DEFINITION
abbrev pub join_choices : List String
join_choices = "or" ∷ "and" ∷ []

unfoldable pub check_early_exit : Option Bool → String → Bool
check_early_exit none join = false
check_early_exit (some true) join = join == "or"
check_early_exit (some false) join = join == "and"
