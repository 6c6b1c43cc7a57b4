-- ===== src/Rbac/Evaluations/Expected/Laws.antt =====
-- The keys that `expected_direct_permissions` of ansible_base/rbac/models/role.py collects: the
-- cache of id lists, and the look-ahead object.
use django_ansible_base.Base.{
  ℕ, ◌≡◌, refl, sym, ap, ◌∙◌, String, Bool, false, ◌&&◌, ◌||◌, Option, none, some, List, [], ◌∷◌,
  ◌++◌, ◌==◌, nat_eq, string_eq, Bool-cases, inl, inr, contains, contains-append, if◌then◌else◌, ok,
  arith, beq→eq,
}
use django_ansible_base.Base.Dict.{get, set, get-set}
use django_ansible_base.Rbac.Evaluations.Keys.{Pk, pk_eq, TypeRef, by_id, type_ref_eq, Key, key_eq}
use django_ansible_base.Rbac.Evaluations.Expected.{
  Permission, ObjectRole, World, Filters, Cache, is_add_perm, get_child_filters, id_list,
  cached_ids, matches_pk, matches_ct, keys_for, own_key, parent_key, before, child_keys,
  permission_keys, all_keys, half_given, expected_direct_permissions,
}

module _ (w : World) (role : ObjectRole) where
  -- The id list is the same for all permissions of one type: what the cache takes for granted.
  abbrev pub SameLists : Type 0
  SameLists =
      (p q : Permission) (ct : TypeRef) (via other : Option (ℕ × List String))
      → get_child_filters w role.content_type_id p ≡ some (ct, via)
      → get_child_filters w role.content_type_id q ≡ some (ct, other)
      → id_list w role (ct, via) ≡ id_list w role (ct, other)

  -- the keys of one permission by a query of its own
  abbrev pub fresh_below : Permission → Option Filters → List Key
  fresh_below p none = []
  fresh_below p (some (ct, via)) = keys_for p.codename ct none (id_list w role (ct, via))

  abbrev pub fresh_keys : Permission → List Key
  fresh_keys p =
      if p.content_type_id == role.content_type_id
      then (p.codename, (by_id role.content_type_id, role.object_id)) ∷ []
      else (if is_add_perm p.codename || w.cache_parent_permissions
          then (p.codename, (by_id role.content_type_id, role.object_id)) ∷ []
          else [])
        ++ fresh_below p (get_child_filters w role.content_type_id p)

  abbrev pub fresh_all : List Permission → List Key
  fresh_all [] = []
  fresh_all (p ∷ ps) = fresh_keys p ++ fresh_all ps

  -- each list of the cache is what the query of a permission of that type returns
  abbrev pub IsCache : Cache → Type 0
  IsCache cache =
      (ct : TypeRef) (ids : List Pk)
      → get ct cache ≡ some ids
      → (p : Permission) × (via : Option (ℕ × List String)) × (get_child_filters w
            role.content_type_id p
          ≡ some (ct, via))
        × (ids ≡ id_list w role (ct, via))

  empty-IsCache : IsCache []
  empty-IsCache ct ids e = absurd (cc)

  set-IsCache :
      (cache : Cache) (p : Permission) (ct : TypeRef) (via : Option (ℕ × List String))
      → IsCache cache
      → get_child_filters w role.content_type_id p ≡ some (ct, via)
      → IsCache (set ct (id_list w role (ct, via)) cache)
  set-IsCache cache p ct via h f other ids e = elim (Bool-cases (ct == other)) [
    | inl q ↦
        let found = rw (get-set ct other (id_list w role (ct, via)) cache, q) at e in
        let same = beq→eq ct other q in
        (p, via, rw (← same) f, cc found ∙ ap (λ t. id_list w role (t, via)) same)
    | inr q ↦ h other ids (rw (get-set ct other (id_list w role (ct, via)) cache, q) at e)
  ]

  cached_ids-IsCache :
      (cache : Cache) (p : Permission) (ct : TypeRef) (via : Option (ℕ × List String))
      → SameLists
      → IsCache cache
      → get_child_filters w role.content_type_id p ≡ some (ct, via)
      → ((cached_ids w role (ct, via) cache).0 ≡ id_list w role (ct, via))
        × IsCache (cached_ids w role (ct, via) cache).1
  cached_ids-IsCache cache p ct via same h f = go (get ct cache) refl
    where
      go :
          (x : Option (List Pk))
          → get ct cache ≡ x
          → ((cached_ids w role (ct, via) cache).0 ≡ id_list w role (ct, via))
            × IsCache (cached_ids w role (ct, via) cache).1
      go none e = rw (e, cached_ids) (refl, set-IsCache cache p ct via h f)
      go (some ids) e =
          let (q, other, g, s) = h ct ids e in rw (e, cached_ids) (s ∙ same q p ct other via g f, h)

-- whether a key is about the look-ahead object, where one is given
abbrev pub in_scope : Option Pk → Option ℕ → Key → Bool
in_scope object_pk object_ct_id (codename, (ct, id)) =
    matches_ct object_ct_id ct && matches_pk object_pk id

keys_for-scope :
    (codename : String) (ct : TypeRef) (pk : Option Pk) (object_ct : Option ℕ) (ids : List Pk)
    (k : Key)
    → contains k (keys_for codename ct pk ids) && in_scope pk object_ct k
      ≡ contains k (keys_for codename ct none ids) && in_scope pk object_ct k
keys_for-scope codename ct pk object_ct [] k = refl
keys_for-scope codename ct pk object_ct (id ∷ ids) (c, (t, i)) = ground (
  arith,
  keys_for-scope codename ct pk object_ct ids (c, (t, i)),
  pk_eq.eqb_iff id i,
  Bool-cases (matches_pk pk id),
)

out_of_scope :
    (codename : String) (ct : TypeRef) (pk : Option Pk) (object_ct : Option ℕ) (ids : List Pk)
    (k : Key)
    → matches_ct object_ct ct ≡ false
    → contains k (keys_for codename ct none ids) && in_scope pk object_ct k ≡ false
out_of_scope codename ct pk object_ct [] k h = refl
out_of_scope codename ct pk object_ct (id ∷ ids) (c, (t, i)) h =
    ground
      (arith, out_of_scope codename ct pk object_ct ids (c, (t, i)) h, type_ref_eq.eqb_iff ct t)

module _ (w : World) (role : ObjectRole) (pk : Option Pk) (object_ct : Option ℕ) where
  -- two lists of keys that agree on the look-ahead object
  abbrev Agree : List Key → List Key → Type 0
  Agree xs ys =
      (k : Key)
      → contains k xs && in_scope pk object_ct k ≡ contains k ys && in_scope pk object_ct k

  append-Agree : (us vs xs ys : List Key) → Agree us xs → Agree vs ys → Agree (us ++ vs) (xs ++ ys)
  append-Agree us vs xs ys f g k =
      ground (arith, contains-append k us vs, contains-append k xs ys, f k, g k)

  own_key-Agree :
      (c : String)
      → Agree
          (own_key w pk object_ct role c)
          ((c, (by_id role.content_type_id, role.object_id)) ∷ [])
  own_key-Agree c (d, (t, i)) =
      elim (Bool-cases (matches_ct object_ct (by_id role.content_type_id))) [
        | inl q ↦ rw q refl
        | inr q ↦ rw q (
            sym (
              out_of_scope c (by_id role.content_type_id) pk object_ct (role.object_id ∷ [])
                (d, (t, i)) q))
      ]

  child_keys-Agree :
      (p : Permission) (filters : Option Filters) (cache : Cache)
      → SameLists w role
      → IsCache w role cache
      → get_child_filters w role.content_type_id p ≡ filters
      → Agree (child_keys w pk object_ct role p filters cache).0 (fresh_below w role p filters)
        × IsCache w role (child_keys w pk object_ct role p filters cache).1
  child_keys-Agree p none cache same h f = (λ k. refl, h)
  child_keys-Agree p (some (ct, via)) cache same h f = elim (Bool-cases (matches_ct object_ct ct)) [
    | inl q ↦
        let (ids, later) = cached_ids-IsCache w role cache p ct via same h f in
        rw q (
          λ k. rw ids (keys_for-scope p.codename ct pk object_ct (id_list w role (ct, via)) k),
          later,
        )
    | inr q ↦
        rw q (λ k. sym (out_of_scope p.codename ct pk object_ct (id_list w role (ct, via)) k q), h)
  ]

  parent_key-Agree :
      (c : String)
      → Agree (parent_key w pk object_ct role c) (
          if is_add_perm c || w.cache_parent_permissions
          then (c, (by_id role.content_type_id, role.object_id)) ∷ []
          else [])
  parent_key-Agree c = elim (Bool-cases (is_add_perm c || w.cache_parent_permissions)) [
    | inl q ↦ rw q (own_key-Agree c)
    | inr q ↦ rw q (λ k. refl)
  ]

  before-Agree :
      (us xs below : List Key) (found : List Key × Cache)
      → Agree us xs
      → Agree found.0 below × IsCache w role found.1
      → Agree (before us found).0 (xs ++ below) × IsCache w role (before us found).1
  before-Agree us xs below (found, cache) f (g, h) = (append-Agree us found xs below f g, h)

  permission_keys-Agree :
      (p : Permission) (cache : Cache)
      → SameLists w role
      → IsCache w role cache
      → Agree (permission_keys w pk object_ct role p cache).0 (fresh_keys w role p)
        × IsCache w role (permission_keys w pk object_ct role p cache).1
  permission_keys-Agree p cache same h =
      elim (Bool-cases (p.content_type_id == role.content_type_id)) [
        | inl q ↦ rw q (own_key-Agree p.codename, h)
        | inr q ↦
            let filters = get_child_filters w role.content_type_id p in
            rw q (
              before-Agree (parent_key w pk object_ct role p.codename)
                (if is_add_perm p.codename || w.cache_parent_permissions
                  then (p.codename, (by_id role.content_type_id, role.object_id)) ∷ []
                  else [])
                (fresh_below w role p filters) (child_keys w pk object_ct role p filters cache)
                (parent_key-Agree p.codename) (child_keys-Agree p filters cache same h refl))
      ]

  all_keys-Agree :
      (ps : List Permission) (cache : Cache)
      → SameLists w role
      → IsCache w role cache
      → Agree (all_keys w pk object_ct role ps cache) (fresh_all w role ps)
  all_keys-Agree [] cache same h = λ k. refl
  all_keys-Agree (p ∷ ps) cache same h =
      let (f, h') = permission_keys-Agree p cache same h in
      let step = permission_keys w pk object_ct role p cache in
      append-Agree step.0 (all_keys w pk object_ct role ps step.1) (fresh_keys w role p)
        (fresh_all w role ps) f (all_keys-Agree ps step.1 same h')

  -- If the id lists of one content type do not depend on the permission that asks for them, then for
  -- both parts or no part of a look-ahead object the call returns keys, and of the keys about that
  -- object, or of all keys where none is given, they are those that each permission gives by a
  -- query of its own, without the cache of id lists.
  pub expected_direct_permissions-in_scope :
      half_given pk object_ct ≡ false
      → SameLists w role
      → (keys : List Key) × (expected_direct_permissions w pk object_ct role ≡ ok keys)
        × ((k : Key)
            → contains k keys && in_scope pk object_ct k
              ≡ contains k (fresh_all w role role.permissions) && in_scope pk object_ct k)
  unfolding expected_direct_permissions
  expected_direct_permissions-in_scope q same = rw q (
    all_keys w pk object_ct role role.permissions [],
    refl,
    all_keys-Agree role.permissions [] same (empty-IsCache w role),
  )
