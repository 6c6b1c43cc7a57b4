-- ===== src/Authentication/Reconcile/Outcome.antt =====
-- What the reconciliation of ansible_base/authentication/utils/claims.py does at each place: a role,
-- a content type and an object id.
use mathlib.Core.List.{Memᴰ}
use django_ansible_base.Base.{
  ℕ, String, ◌≡◌, refl, sym, Bool, true, false, ◌&&◌, Option, none, some, List, [], ◌∷◌, ◌↔◌, ◌≢◌,
  string_eq, nat_eq, option_eq, arith, beq→eq, beq_refl, any-Memᴰ, Memᴰ-any, contains-Memᴰ,
  Memᴰ-contains,
}
use django_ansible_base.Base.Dict.{get, get_or}
use django_ansible_base.Authentication.RoleMapping.{RoleMapping}
use django_ansible_base.Authentication.Reconcile.{
  Subject, Entry, RoleDefinition, ObjectId, no_id, uncastable, number, ContentType, Assignment,
  Cache, Types, get_content_type_id, get_object_id, type_id, is_local, row_entry,
}
use django_ansible_base.Authentication.Reconcile.User.{
  Action, give, take, apply_permission, Directory,
}
use django_ansible_base.Authentication.Reconcile.Statuses.{same_key}
use django_ansible_base.Authentication.Reconcile.Stated.{States}
use django_ansible_base.Authentication.Reconcile.Laws.{entry_at, row_at, held, final_cache}

-- A row counts for a place: one for all objects everywhere; one about a type of this service or a
-- shared one, if its object id is a number or missing, at that type and id.
pub data Counts (prefixes : List String) (ct : Option ContentType) (id : ObjectId) (c o : Option ℕ)
    : Type 0 where
  everywhere : ct ≡ none → c ≡ none → o ≡ none → Counts prefixes ct id c o
  on_type :
      (t : ContentType)
      → ct ≡ some t
      → Memᴰ t.service prefixes
      → id ≡ no_id
      → c ≡ some t.id
      → o ≡ none
      → Counts prefixes ct id c o
  on_object :
      (t : ContentType) (n : ℕ)
      → ct ≡ some t
      → Memᴰ t.service prefixes
      → id ≡ number n
      → c ≡ some t.id
      → o ≡ some n
      → Counts prefixes ct id c o

-- The user holds a role at a place: by a row with the role's name that counts there.
abbrev pub IsHeld : List String → List Assignment → String → Option ℕ → Option ℕ → Type 0
IsHeld prefixes rows r c o =
    (a : Assignment) × Memᴰ a rows
    × (a.role.name ≡ r)
    × Counts prefixes a.content_type a.object_id c o

abbrev row_test :
    List String
    → Option ContentType
    → ObjectId
    → Option Subject
    → String
    → String
    → Option ℕ
    → Option ℕ
    → Bool
row_test prefixes ct id object name r c o =
    is_local prefixes ct && entry_at (row_entry ct id object) name (type_id ct) r c o

module _ (prefixes : List String) (object : Option Subject) (name r : String) (c o : Option ℕ) where
  same_key-parts :
      (ct oid : Option ℕ) → same_key name ct oid r c o ≡ true → (name ≡ r) × (c ≡ ct) × (o ≡ oid)
  same_key-parts ct oid h = (
    beq→eq name r (ground arith),
    sym (beq→eq ct c (ground arith)),
    sym (beq→eq oid o (ground arith)),
  )

  row-Counts :
      (ct : Option ContentType) (id : ObjectId)
      → row_test prefixes ct id object name r c o ≡ true
      → (name ≡ r) × Counts prefixes ct id c o
  row-Counts none id h = let (p, q, s) = same_key-parts none none h in (p, everywhere refl q s)
  row-Counts (some t) uncastable h = absurd (ground arith)
  row-Counts (some t) no_id h =
      let (p, q, s) = same_key-parts (some t.id) none (ground arith) in
      (p, on_type t refl (contains-Memᴰ t.service prefixes (ground arith)) refl q s)
  row-Counts (some t) (number n) h =
      let (p, q, s) = same_key-parts (some t.id) (some n) (ground arith) in
      (p, on_object t n refl (contains-Memᴰ t.service prefixes (ground arith)) refl q s)

  Counts-row :
      (ct : Option ContentType) (id : ObjectId)
      → name ≡ r
      → Counts prefixes ct id c o
      → row_test prefixes ct id object name r c o ≡ true
  Counts-row ct id e (everywhere p q s) = rw (p, q, s, e, beq_refl r) refl
  Counts-row ct id e (on_type t p m i q s) =
      rw (p, i, q, s, e, beq_refl r, beq_refl t.id, Memᴰ-contains t.service prefixes m) refl
  Counts-row ct id e (on_object t n p m i q s) =
      rw (p, i, q, s, e, beq_refl r, beq_refl t.id, beq_refl n, Memᴰ-contains t.service prefixes m)
        refl

pub held-IsHeld :
    (prefixes : List String) (rows : List Assignment) (r : String) (c o : Option ℕ)
    → (held prefixes rows r c o ≡ true) ↔ IsHeld prefixes rows r c o
held-IsHeld prefixes rows r c o = (
  λ h.
      let (a, m, e) = any-Memᴰ (λ a. row_at prefixes a r c o) rows h in
      let (p, q) =
        row-Counts prefixes a.content_object a.role.name r c o a.content_type a.object_id e in
      (a, m, p, q),
  λ (a, m, p, q).
      Memᴰ-any (λ a. row_at prefixes a r c o) rows a m
        (Counts-row prefixes a.content_object a.role.name r c o a.content_type a.object_id p q),
)

module _ (types : Types) where
  abbrev ct_of : Option Subject → Option ℕ
  ct_of = get_content_type_id types

-- Whether the user holds the role after some actions on one place.
abbrev pub after : Bool → List Action → Bool
after before [] = before
after before (give rd object ∷ rest) = after true rest
after before (take rd object ∷ rest) = after false rest

-- The entry of a place in the cache, and what `apply_permission` makes of it.
abbrev pub entry_of : String → Option ℕ → Option ℕ → Cache → Option Entry
entry_of r c o cache = get o (get_or c [] (get_or r [] cache))

abbrev pub outcome : Bool → RoleDefinition → Bool → Option Entry → Bool
outcome remove_users rd before none = before
outcome remove_users rd before (some entry) = after before (apply_permission remove_users rd entry)

module _ (types : Types) (prefixes : List String) (dir : Directory) (remove_users : Bool)
    (rows : List Assignment) (claims : RoleMapping) where
  -- The outcome at a place, from whether the user held the role there before.
  abbrev pub Settles : String → Option ℕ → Option ℕ → Bool → Bool → Type 0
  Settles r c o before result =
      (rd : RoleDefinition)
      → outcome remove_users rd before
          (entry_of r c o (final_cache types prefixes dir remove_users rows claims))
        ≡ result

  -- no object at that content type and id has the role stated, in either way
  abbrev pub IsUnstated : String → Option ℕ → Option ℕ → Type 0
  IsUnstated r c o =
      (object : Option Subject) (b : Bool)
      → States dir claims r object b
      → get_content_type_id types object ≡ c
      → get_object_id object ≢ o
