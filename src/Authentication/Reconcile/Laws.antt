-- ===== src/Authentication/Reconcile/Laws.antt =====
-- What the reconciliation decides for each place, from the rows and the claims.
use django_ansible_base.Base.{
  ℕ, String, ◌≡◌, refl, sym, ap, ◌∙◌, Bool, true, false, not, ◌&&◌, Option, none, some, List, [],
  ◌∷◌, ◌==◌, string_eq, nat_eq, option_eq, if◌then◌else◌, arith, any, Bool-cases, inl, inr, beq→eq,
}
use django_ansible_base.Base.Dict.{Dict, set}
use django_ansible_base.Authentication.RoleMapping.{RoleMapping}
use django_ansible_base.Authentication.Reconcile.{
  Subject, Status, noop, existing, add, remove, RoleDefinition, Assignment, Cache, State, init,
  Types, init_cache_key, current_status, rd_by_id, type_id, is_local, existing_entry, row_entry,
  put_row, cache_role_assignment, known_role, remember, cache_assignment, cache_existing,
}
use django_ansible_base.Authentication.Reconcile.User.{Directory, mentions, record_mentions}
use django_ansible_base.Authentication.Reconcile.Statuses.{
  same_key, settled, mentioned, IsMentionedOnce, current_status-init, current_status-put,
  current_status-record_mentions,
}

abbrev pub entry_at :
    Option (Option ℕ × Option Subject) → String → Option ℕ → String → Option ℕ → Option ℕ → Bool
entry_at none role ct r c o = false
entry_at (some (oid, object)) role ct r c o = same_key role ct oid r c o

-- Whether a row counts at a place: it is local, and its id is a number or it has none.
abbrev pub row_at : List String → Assignment → String → Option ℕ → Option ℕ → Bool
row_at prefixes a r c o =
    is_local prefixes a.content_type
    && entry_at (row_entry a.content_type a.object_id a.content_object) a.role.name
        (type_id a.content_type) r c o

-- the user holds a role at a place, by the rows that count
abbrev pub held : List String → List Assignment → String → Option ℕ → Option ℕ → Bool
held prefixes rows r c o = any (λ a. row_at prefixes a r c o) rows

-- A role's name is determined by its id.
abbrev pub HasNames : (ℕ → String) → List Assignment → Type 0
HasNames name [] = Unit
HasNames name (a ∷ rest) = (a.role.name ≡ name a.role.id) × HasNames name rest

abbrev KnowsNames : (ℕ → String) → Dict String (Option RoleDefinition) → Type 0
KnowsNames name [] = Unit
KnowsNames name ((k, none) ∷ rest) = KnowsNames name rest
KnowsNames name ((k, some rd) ∷ rest) = (rd.name ≡ name rd.id) × KnowsNames name rest

module _ (name : ℕ → String) where
  KnowsNames-set :
      (k : String) (rd : RoleDefinition) (rds : Dict String (Option RoleDefinition))
      → rd.name ≡ name rd.id
      → KnowsNames name rds
      → KnowsNames name (set k (some rd) rds)
  KnowsNames-set k rd [] e h = (e, tt)
  KnowsNames-set k rd ((j, none) ∷ rest) e h = elim (Bool-cases (j == k)) [
    | inl q ↦ rw q (e, h)
    | inr q ↦ rw q (KnowsNames-set k rd rest e h)
  ]
  KnowsNames-set k rd ((j, some x) ∷ rest) e h = elim (Bool-cases (j == k)) [
    | inl q ↦ rw q (e, h.1)
    | inr q ↦ rw q (h.0, KnowsNames-set k rd rest e h.1)
  ]

  rd_by_id-name :
      (rd : RoleDefinition) (rds : Dict String (Option RoleDefinition))
      → rd.name ≡ name rd.id
      → KnowsNames name rds
      → (known_role rd (rd_by_id rd.id rds)).name ≡ rd.name
  unfolding rd_by_id
  rd_by_id-name rd [] e h = refl
  rd_by_id-name rd ((j, none) ∷ rest) e h = rd_by_id-name rd rest e h
  rd_by_id-name rd ((j, some x) ∷ rest) e h = elim (Bool-cases (x.id == rd.id)) [
    | inl q ↦ rw q (h.0 ∙ ap name (beq→eq x.id rd.id q) ∙ sym e)
    | inr q ↦ rw q (rd_by_id-name rd rest e h.1)
  ]

module _ (r : String) (c o : Option ℕ) where
  current_status-put_row :
      (role : String) (ct : Option ℕ) (row : Option (Option ℕ × Option Subject)) (cache : Cache)
      → current_status r c o (put_row role ct row cache)
        ≡ (if entry_at row role ct r c o then some existing else current_status r c o cache)
  current_status-put_row role ct none cache = refl
  current_status-put_row role ct (some (oid, object)) cache =
      current_status-put r c o role ct oid (existing_entry object) cache

  abbrev status_if : Bool → Option Status → Option Status
  status_if b before = if b then some existing else before

  current_status-cache_assignment :
      (name : ℕ → String) (prefixes : List String) (a : Assignment) (s : State)
      → a.role.name ≡ name a.role.id
      → KnowsNames name s.role_definitions
      → current_status r c o (cache_assignment prefixes a s).cache
        ≡ status_if (row_at prefixes a r c o) (current_status r c o s.cache)
  unfolding cache_assignment cache_role_assignment
  current_status-cache_assignment name prefixes a s e h =
      let row = row_entry a.content_type a.object_id a.content_object in
      elim (Bool-cases (is_local prefixes a.content_type)) [
        | inl q ↦
            rw (q, rd_by_id-name name a.role s.role_definitions e h)
              (current_status-put_row a.role.name (type_id a.content_type) row
                  (init_cache_key a.role.name (type_id a.content_type) s.cache)
                ∙ ap (λ x. status_if (entry_at row a.role.name (type_id a.content_type) r c o) x)
                    (current_status-init r c o a.role.name (type_id a.content_type) s.cache))
        | inr q ↦ rw q refl
      ]

  remember-KnowsNames :
      (name : ℕ → String) (rd : RoleDefinition) (found : Option RoleDefinition)
      (rds : Dict String (Option RoleDefinition))
      → rd.name ≡ name rd.id
      → KnowsNames name rds
      → KnowsNames name (remember rd found rds)
  remember-KnowsNames name rd none rds e h = KnowsNames-set name rd.name rd rds e h
  remember-KnowsNames name rd (some known) rds e h = h

  current_status-cache_existing :
      (name : ℕ → String) (prefixes : List String) (rows : List Assignment) (s : State)
      → HasNames name rows
      → KnowsNames name s.role_definitions
      → current_status r c o (cache_existing prefixes rows s).cache
        ≡ status_if (held prefixes rows r c o) (current_status r c o s.cache)
  unfolding cache_existing
  current_status-cache_existing name prefixes [] s e h = refl
  current_status-cache_existing name prefixes (a ∷ rest) s e h =
      let next = cache_assignment prefixes a s in
      let k : KnowsNames name next.role_definitions =
        unfold cache_assignment in remember-KnowsNames name a.role _ s.role_definitions e.0 h in
      rw (current_status-cache_existing name prefixes rest next e.1 k)
        (rw (current_status-cache_assignment name prefixes a s e.0 h) (ground arith))

-- What a status asks for: whether the user holds the role once its action is carried out.
abbrev pub holds_after : Bool → Bool → Option Status → Bool
holds_after remove_users before (some add) = true
holds_after remove_users before (some remove) = false
holds_after remove_users before (some existing) = before && not remove_users
holds_after remove_users before (some noop) = before
holds_after remove_users before none = before

holds_after-settled :
    (remove_users before : Bool) (m : Option Bool)
    → holds_after remove_users before (settled m (if before then some existing else none))
      ≡ elim m [ some b ↦ b | none ↦ before && not remove_users ]
holds_after-settled remove_users before m = ground arith

init_empty : (r : String) (c o : Option ℕ) → current_status r c o init.cache ≡ none
unfolding current_status
init_empty r c o = refl

module _ (types : Types) (prefixes : List String) (dir : Directory) (remove_users : Bool) where
  -- the cache on which `apply_permissions` acts
  abbrev pub final_cache : List Assignment → RoleMapping → Cache
  final_cache rows claims =
      record_mentions types (mentions dir claims) (cache_existing prefixes rows init).cache

  -- the status of each place, by the rows and the mentions of the claims
  pub holds_after-mentioned :
      (name : ℕ → String) (rows : List Assignment) (claims : RoleMapping)
      → HasNames name rows
      → IsMentionedOnce types (mentions dir claims)
      → (r : String) (c o : Option ℕ)
      → holds_after remove_users
          (held prefixes rows r c o)
          (current_status r c o (final_cache rows claims))
        ≡ elim (mentioned types (mentions dir claims) r c o) [
          | some b ↦ b
          | none ↦ held prefixes rows r c o && not remove_users
        ]
  holds_after-mentioned name rows claims names once r c o =
      rw
        (current_status-record_mentions types (mentions dir claims)
          (cache_existing prefixes rows init).cache r c o once)
        (rw (current_status-cache_existing r c o name prefixes rows init names tt) (
          rw (init_empty r c o) (
            holds_after-settled remove_users (held prefixes rows r c o)
              (mentioned types (mentions dir claims) r c o))))
