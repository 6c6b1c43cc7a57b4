-- ===== src/Authentication/Claims/Verdicts.antt =====
-- What the triggers of a map decide in `create_claims` of
-- ansible_base/authentication/utils/claims.py, in terms of the map alone.
use django_ansible_base.Base.{
  String, ◌≡◌, refl, sym, ap, ◌∙◌, Bool, true, false, List, [], ◌∷◌, ◌++◌, ok, >>=-eq-ok,
  ok_injective, ◌==◌, string_eq, subset, contains, all, arith, Bool-cases, inl, inr, ◌⊎◌, beq→eq,
  beq_refl, all-contains, subst,
}
use django_ansible_base.Base.Dict.{Dict, keys}
use django_ansible_base.Authentication.Value.{Value, Python}
use django_ansible_base.Authentication.Triggers.Join.{TriggerResult, allow, deny, skip}
use django_ansible_base.Authentication.Triggers.Groups.{process_groups}
use django_ansible_base.Authentication.Triggers.Attributes.{process_user_attributes}
use django_ansible_base.Authentication.RoleType.{Roles}
use django_ansible_base.Authentication.Expansion.{Templates}
use django_ansible_base.Authentication.Claims.{
  AuthenticatorMap, Verdict, skipped, invalid, applied, allowed_keys, verdict_of, run_trigger,
  run_triggers, decide_map,
}

-- the types of triggers that there are
abbrev pub IsTrigger : String → Type 0
IsTrigger k = (k ≡ "always") ⊎ (k ≡ "never") ⊎ (k ≡ "groups") ⊎ (k ≡ "attributes")

-- What becomes of a map: a trigger that allows grants, one that denies refuses, and where none
-- fires the map refuses if it revokes, and is left out otherwise.
pub data Weighs : Bool → TriggerResult → Verdict → Type 0 where
  grants : (revoke : Bool) → Weighs revoke allow (applied true)
  refuses : (revoke : Bool) → Weighs revoke deny (applied false)
  revokes : {revoke : Bool} → revoke ≡ true → Weighs revoke skip (applied false)
  leaves : {revoke : Bool} → revoke ≡ false → Weighs revoke skip skipped

verdict_of-Weighs : (revoke : Bool) (r : TriggerResult) → Weighs revoke r (verdict_of revoke r)
verdict_of-Weighs revoke allow = grants revoke
verdict_of-Weighs revoke deny = refuses revoke
verdict_of-Weighs true skip = revokes refl
verdict_of-Weighs false skip = leaves refl

all-outside :
    (p : String → Bool) (xs : List String)
    → all p xs ≡ false
    → (k : String) × (contains k xs ≡ true) × (p k ≡ false)
all-outside p [] h = absurd (cc h)
all-outside p (x ∷ xs) h = elim (Bool-cases (p x)) [
  | inl q ↦ let (k, m, n) = all-outside p xs (ground arith) in (k, ground arith, n)
  | inr q ↦ (x, ground (arith, beq_refl x), q)
]

allowed-IsTrigger : (k : String) → contains k allowed_keys ≡ true → IsTrigger k
allowed-IsTrigger k h = elim (Bool-cases ("always" == k)) [
  | inl q ↦ inl (sym (beq→eq "always" k q))
  | inr q ↦ elim (Bool-cases ("never" == k)) [
    | inl r ↦ inr (inl (sym (beq→eq "never" k r)))
    | inr r ↦ elim (Bool-cases ("groups" == k)) [
      | inl s ↦ inr (inr (inl (sym (beq→eq "groups" k s))))
      | inr s ↦ inr (inr (inr (sym (beq→eq "attributes" k (ground arith)))))
    ]
  ]
]

IsTrigger-allowed : (k : String) → IsTrigger k → contains k allowed_keys ≡ true
IsTrigger-allowed k (inl e) = rw e refl
IsTrigger-allowed k (inr (inl e)) = rw e refl
IsTrigger-allowed k (inr (inr (inl e))) = rw e refl
IsTrigger-allowed k (inr (inr (inr e))) = rw e refl

module _ (py : Python) (re : Templates) (roles : Roles) (attrs : Dict String Value)
    (groups : List String) where
  -- What one trigger says for itself.
  pub data Judges (trigger_type : String) (trigger : Value) : TriggerResult → Type 0 where
    always : trigger_type ≡ "always" → Judges trigger_type trigger allow
    never : trigger_type ≡ "never" → Judges trigger_type trigger deny
    by_groups :
        {r : TriggerResult}
        → trigger_type ≡ "groups"
        → process_groups py trigger groups ≡ ok r
        → Judges trigger_type trigger r
    by_attributes :
        {r : TriggerResult}
        → trigger_type ≡ "attributes"
        → process_user_attributes py trigger attrs ≡ ok r
        → Judges trigger_type trigger r

  -- The last trigger of a map decides; none fires where there is none.
  pub data LastJudges : Dict String Value → TriggerResult → Type 0 where
    no_trigger : LastJudges [] skip
    last :
        {triggers : Dict String Value} {r : TriggerResult} (earlier : Dict String Value)
        (trigger_type : String) (trigger : Value)
        → triggers ≡ earlier ++ (trigger_type, trigger) ∷ []
        → Judges trigger_type trigger r
        → LastJudges triggers r

  -- What is decided of a map: it is skipped if it is not enabled, invalid if it has a trigger of
  -- another type, and else weighed by its last trigger.
  pub data Decides (m : AuthenticatorMap) : Verdict → Type 0 where
    off : m.enabled ≡ false → Decides m skipped
    unknown :
        m.enabled ≡ true
        → (k : String) → contains k (keys m.triggers) ≡ true
        → ¬ IsTrigger k
        → Decides m invalid
    weighed :
        {r : TriggerResult} {v : Verdict}
        → m.enabled ≡ true
        → ((k : String) → contains k (keys m.triggers) ≡ true → IsTrigger k)
        → LastJudges m.triggers r
        → Weighs m.revoke r v
        → Decides m v

  run_trigger-Judges :
      (k : String) (trigger : Value) (before r : TriggerResult)
      → IsTrigger k
      → run_trigger py re roles attrs groups k trigger before ≡ ok r
      → Judges k trigger r
  run_trigger-Judges k trigger before r (inl p) e =
      let e2 = rw p at e in subst (λ x. Judges k trigger x) (ok_injective e2) (always p)
  run_trigger-Judges k trigger before r (inr (inl p)) e =
      let e2 = rw p at e in subst (λ x. Judges k trigger x) (ok_injective e2) (never p)
  run_trigger-Judges k trigger before r (inr (inr (inl p))) e = let e2 = rw p at e in by_groups p e2
  run_trigger-Judges k trigger before r (inr (inr (inr p))) e =
      let e2 = rw p at e in by_attributes p e2

  run_triggers-last :
      (k : String) (trigger : Value) (rest : Dict String Value) (before r : TriggerResult)
      → ((j : String) → contains j (keys ((k, trigger) ∷ rest)) ≡ true → IsTrigger j)
      → run_triggers py re roles attrs groups ((k, trigger) ∷ rest) before ≡ ok r
      → LastJudges ((k, trigger) ∷ rest) r
  unfolding run_triggers
  run_triggers-last k trigger [] before r known e =
      let (s, p, q) =
        >>=-eq-ok (run_trigger py re roles attrs groups k trigger before)
          (run_triggers py re roles attrs groups []) e in
      last [] k trigger refl
        (run_trigger-Judges k trigger before r (known k (ground (arith, beq_refl k))) (p ∙ q))
  run_triggers-last k trigger ((j, next) ∷ rest) before r known e =
      let (s, p, q) =
        >>=-eq-ok (run_trigger py re roles attrs groups k trigger before)
          (run_triggers py re roles attrs groups ((j, next) ∷ rest)) e in
      later (run_triggers-last j next rest s r (λ i h. known i (ground arith)) q)
    where
      later : LastJudges ((j, next) ∷ rest) r → LastJudges ((k, trigger) ∷ (j, next) ∷ rest) r
      later (last earlier i t same judged) =
          last ((k, trigger) ∷ earlier) i t (ap (λ x. (k, trigger) ∷ x) same) judged

  run_triggers-LastJudges :
      (triggers : Dict String Value) (r : TriggerResult)
      → ((k : String) → contains k (keys triggers) ≡ true → IsTrigger k)
      → run_triggers py re roles attrs groups triggers skip ≡ ok r
      → LastJudges triggers r
  unfolding run_triggers
  run_triggers-LastJudges [] r known e = subst (λ x. LastJudges [] x) (ok_injective e) no_trigger
  run_triggers-LastJudges ((k, trigger) ∷ rest) r known e =
      run_triggers-last k trigger rest skip r known e

  pub decide_map-Decides :
      (m : AuthenticatorMap) (v : Verdict)
      → decide_map py re roles attrs groups m ≡ ok v
      → Decides m v
  unfolding decide_map
  decide_map-Decides m v e = elim (Bool-cases m.enabled) [
    | inr q ↦ let e2 = rw q at e in subst (λ x. Decides m x) (ok_injective e2) (off q)
    | inl q ↦ elim (Bool-cases (subset (keys m.triggers) allowed_keys)) [
      | inr k ↦
          let e2 = rw (q, k) at e in
          let (j, n, outside) = all-outside (λ x. contains x allowed_keys) (keys m.triggers) k in
          subst (λ x. Decides m x) (ok_injective e2)
            (unknown q j n (λ t. absurd (cc (IsTrigger-allowed j t))))
      | inl k ↦
          let e2 = rw (q, k) at e in
          let (r, f, g) =
            >>=-eq-ok (run_triggers py re roles attrs groups m.triggers skip)
              (λ result. ok (verdict_of m.revoke result)) e2 in
          let known = λ (j : String) (n : contains j (keys m.triggers) ≡ true).
            allowed-IsTrigger j
              (all-contains (λ x. contains x allowed_keys) (keys m.triggers) k j n) in
          weighed q known (run_triggers-LastJudges m.triggers r known f)
            (subst (λ x. Weighs m.revoke r x) (ok_injective g) (verdict_of-Weighs m.revoke r))
    ]
  ]
