-- ===== src/Authentication/Triggers/Join/Laws.antt =====
-- The join of verdicts as an operation on optional verdicts, and its fold.
use django_ansible_base.Base.{
  String, ◌≡◌, refl, ◌↔◌, Bool, true, false, not, ◌&&◌, ◌||◌, Option, none, some, List, [], ◌∷◌,
  arith, any, ◌⊎◌, inl, inr, if◌then◌else◌, ◌==◌, string_eq,
}
use django_ansible_base.Authentication.Triggers.Join.{has_access_with_join, check_early_exit}

-- a condition without an opinion changes nothing
abbrev pub merge : String → Option Bool → Option Bool → Option Bool
merge join current none = current
merge join current (some b) = has_access_with_join current b join

-- the two values that `_validate_join_condition` lets through
abbrev pub IsJoin : String → Type 0
IsJoin join = (join ≡ "or") ⊎ (join ≡ "and")

pub merge_assoc :
    (join : String) (a b c : Option Bool)
    → IsJoin join
    → merge join (merge join a b) c ≡ merge join a (merge join b c)
unfolding has_access_with_join
merge_assoc join a b c (inl h) = rw h (ground arith)
merge_assoc join a b c (inr h) = rw h (ground arith)

pub merge-none : (join : String) (a : Option Bool) → merge join none a ≡ a
unfolding has_access_with_join
merge-none join none = refl
merge-none join (some b) = refl

-- After the test for the early exit passes, no verdict changes the result.
pub merge_absorbs :
    (join : String) (a w : Option Bool)
    → IsJoin join
    → check_early_exit a join ≡ true
    → merge join a w ≡ a
unfolding has_access_with_join check_early_exit
merge_absorbs join a w (inl h) = rw h (λ e. ground arith)
merge_absorbs join a w (inr h) = rw h (λ e. ground arith)

abbrev pub merge_all : String → Option Bool → List (Option Bool) → Option Bool
merge_all join a [] = a
merge_all join a (w ∷ ws) = merge_all join (merge join a w) ws

pub merge_all_absorbs :
    (join : String) (a : Option Bool) (ws : List (Option Bool))
    → IsJoin join
    → check_early_exit a join ≡ true
    → merge_all join a ws ≡ a
merge_all_absorbs join a [] j h = refl
merge_all_absorbs join a (w ∷ ws) j h =
    rw (merge_absorbs join a w j h) (merge_all_absorbs join a ws j h)

-- What the verdicts decide: under `or` one that grants, under `and` one that grants and none that
-- refuses.
abbrev pub grants : Option Bool → Bool
grants (some true) = true
grants _ = false

abbrev pub refuses : Option Bool → Bool
refuses (some false) = true
refuses _ = false

abbrev pub JoinRule : String → List (Option Bool) → Type 0
JoinRule join ws =
    if join == "or" then any grants ws ≡ true else (any grants ws ≡ true) × (any refuses ws ≡ false)

merge_all-or :
    (a : Option Bool) (ws : List (Option Bool))
    → grants (merge_all "or" a ws) ≡ (grants a || any grants ws)
unfolding has_access_with_join
merge_all-or a [] = ground arith
merge_all-or a (none ∷ ws) = merge_all-or a ws
merge_all-or none (some b ∷ ws) = ground (arith, merge_all-or (some b) ws)
merge_all-or (some c) (some b ∷ ws) = ground (arith, merge_all-or (some (c || b)) ws)

merge_all-and :
    (a : Option Bool) (ws : List (Option Bool))
    → grants (merge_all "and" a ws)
      ≡ ((grants a || any grants ws) && not (refuses a || any refuses ws))
unfolding has_access_with_join
merge_all-and a [] = ground arith
merge_all-and a (none ∷ ws) = merge_all-and a ws
merge_all-and none (some b ∷ ws) = ground (arith, merge_all-and (some b) ws)
merge_all-and (some c) (some b ∷ ws) = ground (arith, merge_all-and (some (c && b)) ws)

pub merge_all-JoinRule :
    (join : String) (ws : List (Option Bool))
    → IsJoin join
    → (grants (merge_all join none ws) ≡ true) ↔ JoinRule join ws
merge_all-JoinRule join ws (inl h) = rw h (ground (arith, merge_all-or none ws))
merge_all-JoinRule join ws (inr h) = rw h (ground (arith, merge_all-and none ws))
