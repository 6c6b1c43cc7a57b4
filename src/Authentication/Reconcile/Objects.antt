-- ===== src/Authentication/Reconcile/Objects.antt =====
-- The objects on which the reconciliation of ansible_base/authentication/utils/claims.py acts.
use mathlib.Core.List.{Memᴰ}
use mathlib.Core.List.Memᴰ as Memᴰ
use django_ansible_base.Base.{
  ℕ, String, ◌≡◌, refl, sym, ◌∙◌, ap, Bool, true, false, Option, none, some, List, [], ◌∷◌, ◌⊎◌,
  string_eq, nat_eq, option_eq, if◌then◌else◌, arith, eq_iff, Bool-cases, inl, inr, beq→eq, subst,
}
use django_ansible_base.Base.Dict.{get_or, set, get_or-set, get-set}
use django_ansible_base.Authentication.RoleMapping.{RoleMapping}
use django_ansible_base.Authentication.Reconcile.{
  Subject, Status, noop, existing, add, remove, Entry, RoleDefinition, uncastable, number,
  ContentType, Assignment, Cache, State, init, Types, init_cache_key, put_entry, current_status,
  get_content_type_id, get_object_id, add_status, remove_status, write_status, add_or_remove,
  rd_by_id, type_id, is_local, existing_entry, cache_role_assignment, known_role, cache_assignment,
  cache_existing,
}
use django_ansible_base.Authentication.Reconcile.User.{
  Action, give, take, apply_permission, Directory, Mention, mentions, record_mentions,
}
use django_ansible_base.Authentication.Reconcile.Statuses.{same_key}
use django_ansible_base.Authentication.Reconcile.Laws.{final_cache}
use django_ansible_base.Authentication.Reconcile.Outcome.{entry_of}

module _ (r : String) (c o : Option ℕ) where
  entry_of-init :
      (role : String) (ct : Option ℕ) (cache : Cache)
      → entry_of r c o (init_cache_key role ct cache) ≡ entry_of r c o cache
  unfolding init_cache_key
  entry_of-init role ct cache =
      let by_type = get_or role [] cache in
      let fresh = get_or ct [] by_type in
      ground (
        arith,
        get_or-set role r (set ct fresh by_type) [] cache,
        get_or-set ct c fresh [] by_type,
        eq_iff role r,
        (option_eq {A = ℕ}).eqb_iff ct c,
      )

  entry_of-put :
      (role : String) (ct oid : Option ℕ) (e : Entry) (cache : Cache)
      → entry_of r c o (put_entry role ct oid e cache)
        ≡ (if same_key role ct oid r c o then some e else entry_of r c o cache)
  unfolding put_entry
  entry_of-put role ct oid e cache =
      let by_type = get_or role [] cache in
      let by_id = get_or ct [] by_type in
      ground (
        arith,
        get_or-set role r (set ct (set oid e by_id) by_type) [] cache,
        get_or-set ct c (set oid e by_id) [] by_type,
        get-set oid o e by_id,
        eq_iff role r,
        (option_eq {A = ℕ}).eqb_iff ct c,
      )

some_injective : (a b : Entry) → some a ≡ some b → a ≡ b
some_injective a b p = ap (λ m. elim m [ some x ↦ x | none ↦ a ]) p

module _ (types : Types) where
  -- an object is the one of a place
  abbrev pub IsAt : Option Subject → Option ℕ → Option ℕ → Type 0
  IsAt object c o = (get_content_type_id types object ≡ c) × (get_object_id object ≡ o)

  -- A row's object is the one that its content type and its object id name. It is so unless the
  -- object is gone; a row whose id is no number is left out.
  pub data Fits (a : Assignment) : Type 0 where
    global : a.content_type ≡ none → Fits a
    left_out : (t : ContentType) → a.content_type ≡ some t → a.object_id ≡ uncastable → Fits a
    on_object :
        (t : ContentType) (n : ℕ)
        → a.content_type ≡ some t
        → a.object_id ≡ number n
        → IsAt a.content_object (some t.id) (some n)
        → Fits a

  abbrev IsPlaced : Cache → Type 0
  IsPlaced cache =
      (r : String) (c o : Option ℕ) (e : Entry) → entry_of r c o cache ≡ some e → IsAt e.object c o

  init-IsPlaced :
      (role : String) (ct : Option ℕ) (cache : Cache)
      → IsPlaced cache
      → IsPlaced (init_cache_key role ct cache)
  init-IsPlaced role ct cache h r c o e p = h r c o e (sym (entry_of-init r c o role ct cache) ∙ p)

  put-IsPlaced :
      (role : String) (ct oid : Option ℕ) (new : Entry) (cache : Cache)
      → IsAt new.object ct oid
      → IsPlaced cache
      → IsPlaced (put_entry role ct oid new cache)
  put-IsPlaced role ct oid new cache (f, g) h r c o e p =
      let q = sym (entry_of-put r c o role ct oid new cache) ∙ p in
      elim (Bool-cases (same_key role ct oid r c o)) [
        | inr k ↦ let q2 = rw k at q in h r c o e q2
        | inl k ↦
            let q2 = rw k at q in
            let same : new ≡ e = some_injective new e q2 in
            subst (λ (x : Entry). IsAt x.object c o) same
              (f ∙ beq→eq ct c (ground arith), g ∙ beq→eq oid o (ground arith))
      ]

  write-IsPlaced :
      (role : String) (object : Option Subject) (new : Option Status) (cache : Cache)
      → IsPlaced cache
      → IsPlaced (
          write_status role
            (get_content_type_id types object)
            (get_object_id object)
            object
            new
            cache)
  write-IsPlaced role object none cache h = h
  write-IsPlaced role object (some status) cache h =
      put-IsPlaced role (get_content_type_id types object) (get_object_id object)
        (record { object = object; status = status }) cache (refl, refl) h

  add_or_remove-IsPlaced :
      (role : String) (b : Bool) (object : Option Subject) (cache : Cache)
      → IsPlaced cache
      → IsPlaced (add_or_remove types role b object cache)
  unfolding add_or_remove
  add_or_remove-IsPlaced role b object cache h =
      let ct = get_content_type_id types object in
      let ready = init_cache_key role ct cache in
      let current = current_status role ct (get_object_id object) ready in
      write-IsPlaced role object (if b then add_status current else remove_status current) ready
        (init-IsPlaced role ct cache h)

  record_mentions-IsPlaced :
      (xs : List Mention) (cache : Cache)
      → IsPlaced cache
      → IsPlaced (record_mentions types xs cache)
  unfolding record_mentions
  record_mentions-IsPlaced [] cache h = h
  record_mentions-IsPlaced (x ∷ rest) cache h =
      record_mentions-IsPlaced rest (add_or_remove types x.role x.has_permission x.object cache)
        (add_or_remove-IsPlaced x.role x.has_permission x.object cache h)

  cache_role_assignment-IsPlaced :
      (name : String) (a : Assignment) (cache : Cache)
      → Fits a
      → IsPlaced cache
      → IsPlaced (cache_role_assignment name a cache)
  unfolding cache_role_assignment get_content_type_id get_object_id
  cache_role_assignment-IsPlaced name a cache (global e) h =
      rw e (put-IsPlaced name none none (existing_entry none) cache (refl, refl) h)
  cache_role_assignment-IsPlaced name a cache (left_out t e i) h = rw (e, i) h
  cache_role_assignment-IsPlaced name a cache (on_object t n e i at_place) h =
      rw (e, i)
        (put-IsPlaced name (some t.id) (some n) (existing_entry a.content_object) cache at_place h)

  cache_assignment-IsPlaced :
      (prefixes : List String) (a : Assignment) (s : State)
      → Fits a
      → IsPlaced s.cache
      → IsPlaced (cache_assignment prefixes a s).cache
  unfolding cache_assignment
  cache_assignment-IsPlaced prefixes a s fits h =
      let name = (known_role a.role (rd_by_id a.role.id s.role_definitions)).name in
      let ready = init_cache_key name (type_id a.content_type) s.cache in
      elim (Bool-cases (is_local prefixes a.content_type)) [
        | inl q ↦ rw q (
            cache_role_assignment-IsPlaced name a ready fits
              (init-IsPlaced name (type_id a.content_type) s.cache h))
        | inr q ↦ rw q h
      ]

  abbrev pub AllFit : List Assignment → Type 0
  AllFit [] = Unit
  AllFit (a ∷ rows) = Fits a × AllFit rows

  cache_existing-IsPlaced :
      (prefixes : List String) (rows : List Assignment) (s : State)
      → AllFit rows
      → IsPlaced s.cache
      → IsPlaced (cache_existing prefixes rows s).cache
  unfolding cache_existing
  cache_existing-IsPlaced prefixes [] s fits h = h
  cache_existing-IsPlaced prefixes (a ∷ rows) s (f, fits) h =
      cache_existing-IsPlaced prefixes rows (cache_assignment prefixes a s) fits
        (cache_assignment-IsPlaced prefixes a s f h)

-- An action gives or takes the role on an object that is at the place.
abbrev pub ActsAt : Types → RoleDefinition → Option ℕ → Option ℕ → Action → Type 0
ActsAt types rd c o action =
    (object : Option Subject) × ((action ≡ give rd object) ⊎ (action ≡ take rd object))
    × IsAt types object c o

acts_at :
    (types : Types) (remove_users : Bool) (rd : RoleDefinition) (c o : Option ℕ)
    (object : Option Subject) (status : Status) (action : Action)
    → IsAt types object c o
    → Memᴰ action (apply_permission remove_users rd (record { object = object; status = status }))
    → ActsAt types rd c o action
acts_at types remove_users rd c o object noop action h m = elim m [ ]
acts_at types remove_users rd c o object add action h m = (object, inl (Memᴰ.eq_of_singleton m), h)
acts_at types remove_users rd c o object remove action h m =
    (object, inr (Memᴰ.eq_of_singleton m), h)
acts_at types true rd c o object existing action h m = (object, inr (Memᴰ.eq_of_singleton m), h)
acts_at types false rd c o object existing action h m = elim m [ ]

-- Where the object of each row on an object is the one that the row's content type and object id
-- name, the same holds of the actions: what `apply_permission` does to the entry of a place, after
-- the rows and the claims are weighed, gives or takes the entry's role on an object with the content
-- type and the id of the place, or on all for the place without them.
pub apply_permission-ActsAt :
    (types : Types) (prefixes : List String) (dir : Directory) (remove_users : Bool)
    (rows : List Assignment) (claims : RoleMapping) (r : String) (c o : Option ℕ)
    (rd : RoleDefinition) (entry : Entry) (action : Action)
    → AllFit types rows
    → entry_of r c o (final_cache types prefixes dir remove_users rows claims) ≡ some entry
    → Memᴰ action (apply_permission remove_users rd entry)
    → ActsAt types rd c o action
apply_permission-ActsAt types prefixes dir remove_users rows claims r c o rd entry action fits e m =
    let placed =
      record_mentions-IsPlaced types (mentions dir claims) (cache_existing prefixes rows init).cache
        (cache_existing-IsPlaced types prefixes rows init fits (λ s d p x q. absurd (cc q))) in
    acts_at types remove_users rd c o entry.object entry.status action (placed r c o entry e) m
