-- ===== src/Authentication/Claims/Decisions.antt =====
-- The flags of the claims and the responses, over the loop of `create_claims`.
use django_ansible_base.Base.{
  String, ◌≡◌, refl, sym, ◌∙◌, Bool, true, false, Option, none, some, List, [], ◌∷◌, ◌++◌, ok,
  >>=-eq-ok, ◌==◌, string_eq, if◌then◌else◌, arith, Bool-cases, beq→eq, subst, ap, ok_injective,
  inl, inr, contains,
}
use mathlib.Core.List.{append_assoc, append-nil}
use django_ansible_base.Base.Dict.{Dict}
use django_ansible_base.Authentication.Value.{Value, Python}
use django_ansible_base.Authentication.RoleType.{Roles}
use django_ansible_base.Authentication.Expansion.{Templates, expand_syntax}
use django_ansible_base.Authentication.Claims.Verdicts.{Decides, decide_map-Decides}
use django_ansible_base.Authentication.Claims.{
  AuthenticatorMap, Verdict, skipped, invalid, applied, Response, Claims, Target, nothing,
  apply_target, initial, decide_map, apply_expansion, apply_expansions, expand_map, apply_map,
  respond, act, process_map, process_maps, create_claims,
}

abbrev pub permission : Verdict → Option Bool
permission (applied b) = some b
permission _ = none

abbrev pub or_else : Option Bool → Option Bool → Option Bool
or_else before none = before
or_else before (some b) = some b

or_else-none : (p : Option Bool) → or_else none p ≡ p
or_else-none none = refl
or_else-none (some b) = refl

abbrev pub or_default : Bool → Option Bool → Bool
or_default before none = before
or_default before (some b) = b

-- the permission of the last map of a type that applied
abbrev pub last_permission : String → List AuthenticatorMap → List Response → Option Bool
last_permission map_type (m ∷ maps) (r ∷ rs) =
    or_else (if m.map_type == map_type then permission r.verdict else none)
      (last_permission map_type maps rs)
last_permission map_type _ _ = none

-- the fields that the expansions of a map do not touch
record SameFlags (c d : Claims) : Type 0 where
  access : d.access_allowed ≡ c.access_allowed
  superuser : d.is_superuser ≡ c.is_superuser
  results : d.last_login_map_results ≡ c.last_login_map_results

apply_target-SameFlags : (b : Bool) (t : Target) (c : Claims) → SameFlags c (apply_target b t c)
apply_target-SameFlags b nothing c = record { access = refl; superuser = refl; results = refl }
apply_target-SameFlags b _ c = record { access = refl; superuser = refl; results = refl }

not_superuser : (t : String) → (t == "allow") ≡ true → (t == "is_superuser") ≡ false
not_superuser t q = rw (beq→eq t "allow" q) refl

ok_flags : (c d : Claims) {x : Claims} → SameFlags c x → ok x ≡ ok d → SameFlags c d
ok_flags c d {x} flags e = subst (λ y. SameFlags c y) (ok_injective e) flags

module _ (py : Python) (re : Templates) (roles : Roles) (attrs : Dict String Value)
    (groups : List String) where
  -- One response for each map, in their order, each with what is decided of the map.
  abbrev pub Answers : List AuthenticatorMap → List Response → Type 0
  Answers [] [] = Unit
  Answers (m ∷ maps) (r ∷ rs) =
      (r.pk ≡ m.pk)
      × (r.enabled ≡ m.enabled)
      × Decides py re roles attrs groups m r.verdict
      × Answers maps rs
  Answers _ _ = ⊥

  apply_expansion-SameFlags :
      (map_type : String) (b : Bool) (expanded : Dict String String) (c : Claims)
      → SameFlags c (apply_expansion py re roles map_type b expanded c)
  unfolding apply_expansion
  apply_expansion-SameFlags map_type b expanded c = apply_target-SameFlags b _ c

  apply_expansions-SameFlags :
      (map_type : String) (b : Bool) (expansions : List (Dict String String)) (c : Claims)
      → SameFlags c (apply_expansions py re roles map_type b expansions c)
  unfolding apply_expansions
  apply_expansions-SameFlags map_type b [] c = record {
    access = refl;
    superuser = refl;
    results = refl;
  }
  apply_expansions-SameFlags map_type b (x ∷ rest) c =
      let one = apply_expansion-SameFlags map_type b x c in
      let more =
        apply_expansions-SameFlags map_type b rest (apply_expansion py re roles map_type b x c) in
      record {
        access = more.access ∙ one.access;
        superuser = more.superuser ∙ one.superuser;
        results = more.results ∙ one.results;
      }

  expand_map-SameFlags :
      (m : AuthenticatorMap) (b : Bool) (c d : Claims)
      → expand_map py re roles attrs m b c ≡ ok d
      → SameFlags c d
  expand_map-SameFlags m b c d e =
      elim (Bool-cases (contains m.map_type ("team" ∷ "organization" ∷ "role" ∷ []))) [
        | inl q ↦
            let (xs, p, h) =
              >>=-eq-ok (expand_syntax re attrs m.organization m.role m.team)
                (λ xs. ok (apply_expansions py re roles m.map_type b xs c)) (rw q at e) in
            ok_flags c d (apply_expansions-SameFlags m.map_type b xs c) h
        | inr q ↦
            ok_flags c d (record { access = refl; superuser = refl; results = refl }) (rw q at e)
      ]

  -- what a map that applies does to the flags
  abbrev AppliedTo : AuthenticatorMap → Option Bool → Claims → Claims → Type 0
  AppliedTo m p c d =
      (d.access_allowed ≡ or_default c.access_allowed (if m.map_type == "allow" then p else none))
      × (d.is_superuser ≡ or_else c.is_superuser (if m.map_type == "is_superuser" then p else none))

  apply_map-AppliedTo :
      (m : AuthenticatorMap) (b : Bool) (c d : Claims)
      → apply_map py re roles attrs m b c ≡ ok d
      → AppliedTo m (some b) c d × (d.last_login_map_results ≡ c.last_login_map_results)
  unfolding apply_map
  apply_map-AppliedTo m b c d e = elim (Bool-cases (m.map_type == "allow")) [
    | inl q ↦
        let p = ok_injective (rw (q, apply_map) at e) in
        rw (q, not_superuser m.map_type q)
          (
            (
              sym (ap (λ (x : Claims). x.access_allowed) p),
              sym (ap (λ (x : Claims). x.is_superuser) p),
            ),
            sym (ap (λ (x : Claims). x.last_login_map_results) p),
          )
    | inr q ↦ elim (Bool-cases (m.map_type == "is_superuser")) [
      | inl r ↦
          let p = ok_injective (rw (q, r, apply_map) at e) in
          rw (q, r)
            (
              (
                sym (ap (λ (x : Claims). x.access_allowed) p),
                sym (ap (λ (x : Claims). x.is_superuser) p),
              ),
              sym (ap (λ (x : Claims). x.last_login_map_results) p),
            )
      | inr r ↦
          let flags = expand_map-SameFlags m b c d (rw (q, r, apply_map) at e) in
          rw (q, r) ((flags.access, flags.superuser), flags.results)
    ]
  ]

  act-AppliedTo :
      (m : AuthenticatorMap) (v : Verdict) (c d : Claims)
      → act py re roles attrs m v (respond py re roles m v c) ≡ ok d
      → AppliedTo m (permission v) c d
        × (d.last_login_map_results ≡ (respond py re roles m v c).last_login_map_results)
  act-AppliedTo m (applied b) c d e =
      apply_map-AppliedTo m b (respond py re roles m (applied b) c) d e
  act-AppliedTo m skipped c d e = ground arith
  act-AppliedTo m invalid c d e = ground arith

  process_map-Answers :
      (m : AuthenticatorMap) (c d : Claims)
      → process_map py re roles attrs groups m c ≡ ok d
      → (v : Verdict) × (decide_map py re roles attrs groups m ≡ ok v)
        × AppliedTo m (permission v) c d
        × (d.last_login_map_results
            ≡ c.last_login_map_results
              ++ record { pk = m.pk; verdict = v; enabled = m.enabled } ∷ [])
  unfolding process_map
  process_map-Answers m c d e =
      let (v, p, h) =
        >>=-eq-ok (decide_map py re roles attrs groups m)
          (λ v. act py re roles attrs m v (respond py re roles m v c)) e in
      let (a, r) = act-AppliedTo m v c d h in (v, p, a, r)

  -- the flags after the rest of the maps, and the responses that they add
  process_maps-Answers :
      (maps : List AuthenticatorMap) (c d : Claims)
      → process_maps py re roles attrs groups maps c ≡ ok d
      → (rs : List Response) × (d.last_login_map_results ≡ c.last_login_map_results ++ rs)
        × Answers maps rs
        × (d.access_allowed ≡ or_default c.access_allowed (last_permission "allow" maps rs))
        × (d.is_superuser ≡ or_else c.is_superuser (last_permission "is_superuser" maps rs))
  unfolding process_maps
  process_maps-Answers [] c d e =
      let p = ok_injective e in
      (
        [],
        rw (append-nil) (ap (λ (x : Claims). x.last_login_map_results) (sym p)),
        tt,
        ap (λ (x : Claims). x.access_allowed) (sym p),
        ap (λ (x : Claims). x.is_superuser) (sym p),
      )
  process_maps-Answers (m ∷ maps) c d e =
      let (b, p, h) =
        >>=-eq-ok (process_map py re roles attrs groups m c)
          (process_maps py re roles attrs groups maps) e in
      let (v, decided, (access, superuser), results) = process_map-Answers m c b p in
      let (rs, more, answers, access', superuser') = process_maps-Answers maps b d h in
      let r : Response = record { pk = m.pk; verdict = v; enabled = m.enabled } in
      (
        r ∷ rs,
        more ∙ ap (λ xs. xs ++ rs) results ∙ append_assoc c.last_login_map_results (r ∷ []) rs,
        (refl, refl, decide_map-Decides py re roles attrs groups m v decided, answers),
        ground (arith, access, access'),
        ground (arith, superuser, superuser'),
      )

  -- Claims that `create_claims` returns hold one response for each map, in the order of the
  -- maps, with the map's key, its flag and a verdict: skipped for a map that is not
  -- enabled, invalid for one with a trigger of an unknown type, and else what its last trigger says
  -- for itself, where a map with no trigger that fires refuses if it revokes and is skipped if not.
  -- Access is what the last map of type `allow` that applied says, and is allowed where none did; the
  -- superuser flag is what the last map of type `is_superuser` that applied says, and is left alone
  -- where none did; maps of other types play no part in the two.
  pub create_claims-Answers :
      (maps : List AuthenticatorMap) (c : Claims)
      → create_claims py re roles maps attrs groups ≡ ok c
      → Answers maps c.last_login_map_results
        × (c.access_allowed
            ≡ or_default true (last_permission "allow" maps c.last_login_map_results))
        × (c.is_superuser ≡ last_permission "is_superuser" maps c.last_login_map_results)
  unfolding create_claims
  create_claims-Answers maps c e =
      let (rs, results, answers, access, superuser) = process_maps-Answers maps initial c e in
      rw results (answers, access, superuser ∙ or_else-none _)
