-- ===== src/Rbac/Evaluations/Keys.antt =====
-- What a row of `RoleEvaluation` or `RoleEvaluationUUID` of ansible_base/rbac/models/role.py says: a
-- codename, a content type and a primary key.
use django_ansible_base.Base.{
  ℕ, ◌≡◌, String, Bool, true, false, ◌↔◌, ◌==◌, Eq, nat_eq, string_eq, pair_eq, arith,
}

-- `Union[int, UUID]`; the table of a row goes with the type of its `object_id`
pub data Pk : Type 0 where
  int : ℕ → Pk
  uuid : String → Pk

abbrev pub pk_beq : Pk → Pk → Bool
pk_beq (int m) (int n) = m == n
pk_beq (uuid s) (uuid t) = s == t
pk_beq _ _ = false

pub pk_beq_iff : (a b : Pk) → (pk_beq a b ≡ true) ↔ (a ≡ b)
pk_beq_iff (int m) (int n) = ground (arith, nat_eq.eqb_iff m n)
pk_beq_iff (int m) (uuid t) = (λ h. cc, λ h. cc)
pk_beq_iff (uuid s) (int n) = (λ h. cc, λ h. cc)
pk_beq_iff (uuid s) (uuid t) = ground (arith, string_eq.eqb_iff s t)

instance abbrev pub pk_eq : Eq Pk
pk_eq = record { eqb = pk_beq; eqb_iff = pk_beq_iff }

-- A content type as the code puts it into a key: its id, or the object itself, which no id equals.
pub data TypeRef : Type 0 where
  by_id : ℕ → TypeRef
  by_object : ℕ → TypeRef

abbrev pub type_ref_beq : TypeRef → TypeRef → Bool
type_ref_beq (by_id m) (by_id n) = m == n
type_ref_beq (by_object m) (by_object n) = m == n
type_ref_beq _ _ = false

pub type_ref_beq_iff : (a b : TypeRef) → (type_ref_beq a b ≡ true) ↔ (a ≡ b)
type_ref_beq_iff (by_id m) (by_id n) = ground (arith, nat_eq.eqb_iff m n)
type_ref_beq_iff (by_id m) (by_object n) = (λ h. cc, λ h. cc)
type_ref_beq_iff (by_object m) (by_id n) = (λ h. cc, λ h. cc)
type_ref_beq_iff (by_object m) (by_object n) = ground (arith, nat_eq.eqb_iff m n)

instance abbrev pub type_ref_eq : Eq TypeRef
type_ref_eq = record { eqb = type_ref_beq; eqb_iff = type_ref_beq_iff }

-- `(codename, content type, object primary key)`
abbrev pub Key : Type 0
Key = String × (TypeRef × Pk)

instance abbrev pub key_eq : Eq Key
key_eq = pair_eq

-- `isinstance(object_id, int)`
abbrev pub is_int : Pk → Bool
is_int (int n) = true
is_int (uuid s) = false
