-- ===== src/Base/Raises.antt =====
-- A call that may raise a Python exception.
use mathlib.Core.Path.{◌≡◌, refl, ap}
use mathlib.Core.Bool.{Bool, true, false}

pub data Raised : Type 0 where
  attribute_error type_error value_error key_error : Raised
  regex_error validation_error runtime_error integrity_error does_not_exist : Raised

pub data Outcome {ℓ} (A : Type ℓ) : Type ℓ where
  ok : A → Outcome A
  err : Raised → Outcome A

infixl 6 ◌>>◌ ◌>>=◌
abbrev pub ◌>>=◌ {ℓ κ} : {A : Type ℓ} {B : Type κ} → Outcome A → (A → Outcome B) → Outcome B
err raised >>= rest = err raised
ok value >>= rest = rest value

abbrev pub ◌>>◌ {κ} : {B : Type κ} → Outcome (Unit {0}) → Outcome B → Outcome B
check >> rest = check >>= λ _. rest

abbrev pub raise_if : Bool → Raised → Outcome (Unit {0})
raise_if true x = err x
raise_if false x = ok tt

-- If the whole returned, the first call did, and the rest returned from its value.
pub >>=-eq-ok {ℓ κ} :
    {A : Type ℓ} {B : Type κ} (first : Outcome A) (rest : A → Outcome B) {result : B}
    → (first >>= rest) ≡ ok result
    → (value : A) × (first ≡ ok value) × (rest value ≡ ok result)
>>=-eq-ok (err raised) rest e = absurd (cc)
>>=-eq-ok (ok value) rest e = (value, refl, e)

pub ok_injective {ℓ} : {A : Type ℓ} {a b : A} → ok a ≡ ok b → a ≡ b
ok_injective {A} {a} p = ap (λ m. elim m [ ok x ↦ x | err _ ↦ a ]) p
