-- ===== src/Authentication/Triggers/Attributes/Values.antt =====
-- The values of one attribute: the loops of `_process_scalar_operator` and
-- `_process_in_operator` against `any` and `all`.
use django_ansible_base.Base.{
  String, ◌≡◌, refl, ◌≢◌, Bool, ◌&&◌, ◌||◌, Option, none, some, List, [], ◌∷◌, Outcome, ok, err,
  ◌>>=◌, arith, any, all, inl, inr, if◌then◌else◌, ◌==◌, string_eq,
}
use django_ansible_base.Base.Dict.{Dict}
use django_ansible_base.Authentication.Value.{Value, Python, text_of}
use django_ansible_base.Authentication.Triggers.Join.{has_access_with_join}
use django_ansible_base.Authentication.Triggers.Join.Laws.{merge, IsJoin, merge_assoc}
use django_ansible_base.Authentication.Triggers.Attributes.{
  Operator, within, find_operator, operator_names, evaluate, process_scalar_operator,
  process_user_value, apply_operator, fold_each,
}

-- The verdict of the values of an attribute: no value has no opinion.
abbrev pub value_verdict : (String → Bool) → String → List String → Option Bool
value_verdict f join [] = none
value_verdict f join (t ∷ ts) = some (if join == "or" then any f (t ∷ ts) else all f (t ∷ ts))

abbrev pub then_merge : String → Option Bool → Outcome (Option Bool) → Outcome (Option Bool)
then_merge join a m = m >>= λ w. ok (merge join a w)

module _ (join : String) (a : Option Bool) where
  pub then_merge-bind {ℓ} :
      {A : Type ℓ} (r : Outcome A) (f g : A → Outcome (Option Bool))
      → ((b : A) → f b ≡ then_merge join a (g b))
      → (r >>= f) ≡ then_merge join a (r >>= g)
  then_merge-bind (ok b) f g h = h b
  then_merge-bind (err x) f g h = refl

  pub then_merge_assoc :
      (b : Bool) (m : Outcome (Option Bool))
      → IsJoin join
      → then_merge join (merge join a (some b)) m ≡ then_merge join a (then_merge join (some b) m)
  then_merge_assoc b (ok w) j = ground (arith, merge_assoc join a (some b) w j)
  then_merge_assoc b (err x) j = refl

module _ (f : String → Bool) (b : Bool) where
  verdict-or :
      (ts : List String) → merge "or" (some b) (value_verdict f "or" ts) ≡ some (b || any f ts)
  unfolding has_access_with_join
  verdict-or [] = ground arith
  verdict-or (t ∷ ts) = refl

  verdict-and :
      (ts : List String) → merge "and" (some b) (value_verdict f "and" ts) ≡ some (b && all f ts)
  unfolding has_access_with_join
  verdict-and [] = ground arith
  verdict-and (t ∷ ts) = refl

module _ (py : Python) where
  -- The loop over the values starts from any verdict as it does from none.
  pub process_scalar_operator-merge :
      (op : Operator) (trigger : Value) (join : String) (vs : List Value) (a : Option Bool)
      → IsJoin join
      → process_scalar_operator py op trigger join vs a
        ≡ then_merge join a (process_scalar_operator py op trigger join vs none)
  unfolding process_scalar_operator has_access_with_join
  process_scalar_operator-merge op trigger join [] a j = refl
  process_scalar_operator-merge op trigger join (v ∷ vs) a j =
      then_merge-bind join a (evaluate py op (py.casefold (text_of py v)) trigger) _ _ λ b. ground (
        arith,
        process_scalar_operator-merge op trigger join vs (has_access_with_join a b join) j,
        process_scalar_operator-merge op trigger join vs (some b) j,
        then_merge_assoc join a b (process_scalar_operator py op trigger join vs none) j,
      )

  apply_operator_scalar :
      (op : Operator) (trigger : Value) (join : String) (vs : List Value) (a : Option Bool)
      → op ≢ within
      → apply_operator py op trigger join vs a ≡ process_scalar_operator py op trigger join vs a
  apply_operator_scalar within trigger join vs a h = absurd (h refl)
  apply_operator_scalar op trigger join vs a h = refl

  module _ (op : Operator) (trigger : Value) (f : String → Bool)
      (total : (u : String) → evaluate py op u trigger ≡ ok (f u)) where
    scalar-or :
        (vs : List Value)
        → process_scalar_operator py op trigger "or" vs none
          ≡ ok (value_verdict f "or" (fold_each py vs))
    unfolding process_scalar_operator has_access_with_join
    scalar-or [] = refl
    scalar-or (v ∷ vs) =
        let u = py.casefold (text_of py v) in
        ground (
          arith,
          total u,
          scalar-or vs,
          process_scalar_operator-merge op trigger "or" vs (some (f u)) (inl refl),
          verdict-or f (f u) (fold_each py vs),
        )

    scalar-and :
        (vs : List Value)
        → process_scalar_operator py op trigger "and" vs none
          ≡ ok (value_verdict f "and" (fold_each py vs))
    unfolding process_scalar_operator has_access_with_join
    scalar-and [] = refl
    scalar-and (v ∷ vs) =
        let u = py.casefold (text_of py v) in
        ground (
          arith,
          total u,
          scalar-and vs,
          process_scalar_operator-merge op trigger "and" vs (some (f u)) (inr refl),
          verdict-and f (f u) (fold_each py vs),
        )

    scalar_verdict :
        (join : String) (vs : List Value)
        → IsJoin join
        → process_scalar_operator py op trigger join vs none
          ≡ ok (value_verdict f join (fold_each py vs))
    scalar_verdict join vs (inl h) = rw h (scalar-or vs)
    scalar_verdict join vs (inr h) = rw h (scalar-and vs)

    -- An attribute whose condition has one of the scalar operators first, on a trigger value for
    -- which the operator raises at no text, and which is not vacuous: under `or` the verdict is
    -- whether any of the user's values passes, under `and` whether all of them do, and with no
    -- value there is no verdict. Each value is compared by its lowercased text.
    pub process_user_value-any-all :
        (condition : Dict String Value) (join : String) (vs : List Value)
        → find_operator operator_names condition ≡ some (op, trigger)
        → op ≢ within
        → IsJoin join
        → process_user_value py condition vs join none ≡ ok (value_verdict f join (fold_each py vs))
    unfolding process_user_value
    process_user_value-any-all condition join [] found scalar j =
        rw (found, process_user_value) refl
    process_user_value-any-all condition join (v ∷ vs) found scalar j =
        rw (found, process_user_value)
          (rw (apply_operator_scalar op trigger join (v ∷ vs) none scalar)
            (scalar_verdict join (v ∷ vs) j))
