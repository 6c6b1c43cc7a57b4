-- ===== src/Authentication/Reconcile/Statuses.antt =====
-- The cache of role assignments as a table of statuses, and what a mention does to it.
use django_ansible_base.Base.{
  ℕ, String, ◌≡◌, refl, sym, ◌∙◌, Bool, true, ◌&&◌, Option, none, some, List, [], ◌∷◌, ◌==◌,
  string_eq, nat_eq, option_eq, if◌then◌else◌, arith, eq_iff, Bool-cases, inl, inr, beq→eq,
}
use django_ansible_base.Base.Dict.{get_or, set, get_or-set, get-set}
use django_ansible_base.Authentication.Reconcile.{
  Subject, Status, Entry, Cache, Types, init_cache_key, put_entry, current_status,
  get_content_type_id, get_object_id, add_status, remove_status, write_status, add_or_remove,
}
use django_ansible_base.Authentication.Reconcile.User.{Mention, record_mentions}

-- A place in the cache: role, content type, object.
abbrev pub same_key : String → Option ℕ → Option ℕ → String → Option ℕ → Option ℕ → Bool
same_key role ct oid r c o = role == r && (ct == c && oid == o)

abbrev pub written : Option Status → Option Status → Option Status
written before none = before
written before (some status) = some status

-- what a mention does to the status of its place
abbrev pub settle : Bool → Option Status → Option Status
settle b before = written before (if b then add_status before else remove_status before)

abbrev pub settled : Option Bool → Option Status → Option Status
settled none before = before
settled (some b) before = settle b before

module _ (r : String) (c o : Option ℕ) where
  pub current_status-init :
      (role : String) (ct : Option ℕ) (cache : Cache)
      → current_status r c o (init_cache_key role ct cache) ≡ current_status r c o cache
  unfolding current_status init_cache_key
  current_status-init role ct cache =
      let by_type = get_or role [] cache in
      let fresh = get_or ct [] by_type in
      ground (
        arith,
        get_or-set role r (set ct fresh by_type) [] cache,
        get_or-set ct c fresh [] by_type,
        eq_iff role r,
        (option_eq {A = ℕ}).eqb_iff ct c,
      )

  pub current_status-put :
      (role : String) (ct oid : Option ℕ) (e : Entry) (cache : Cache)
      → current_status r c o (put_entry role ct oid e cache)
        ≡ (if same_key role ct oid r c o then some e.status else current_status r c o cache)
  unfolding current_status put_entry
  current_status-put role ct oid e cache =
      let by_type = get_or role [] cache in
      let by_id = get_or ct [] by_type in
      ground (
        arith,
        get_or-set role r (set ct (set oid e by_id) by_type) [] cache,
        get_or-set ct c (set oid e by_id) [] by_type,
        get-set oid o e by_id,
        eq_iff role r,
        (option_eq {A = ℕ}).eqb_iff ct c,
      )

  current_status-write :
      (role : String) (ct oid : Option ℕ) (object : Option Subject) (new : Option Status)
      (cache : Cache)
      → current_status r c o (write_status role ct oid object new cache) ≡ (
          if same_key role ct oid r c o
          then written (current_status r c o cache) new
          else current_status r c o cache)
  current_status-write role ct oid object none cache = ground arith
  current_status-write role ct oid object (some status) cache =
      rw (current_status-put role ct oid (record { object = object; status = status }) cache)
        (ground arith)

same_key-eq :
    (role r : String) (ct oid c o : Option ℕ) (cache : Cache)
    → same_key role ct oid r c o ≡ true
    → current_status role ct oid cache ≡ current_status r c o cache
same_key-eq role r ct oid c o cache h =
    let e₁ : role ≡ r = beq→eq role r (ground arith) in
    let e₂ : ct ≡ c = beq→eq ct c (ground arith) in
    let e₃ : oid ≡ o = beq→eq oid o (ground arith) in cc

module _ (types : Types) where
  abbrev pub mention_key : Mention → String → Option ℕ → Option ℕ → Bool
  mention_key x = same_key x.role (get_content_type_id types x.object) (get_object_id x.object)

  current_status-add_or_remove :
      (x : Mention) (cache : Cache) (r : String) (c o : Option ℕ)
      → current_status r c o (add_or_remove types x.role x.has_permission x.object cache) ≡ (
          if mention_key x r c o
          then settle x.has_permission (current_status r c o cache)
          else current_status r c o cache)
  unfolding add_or_remove
  current_status-add_or_remove x cache r c o =
      let ct = get_content_type_id types x.object in
      let oid = get_object_id x.object in
      let ready = init_cache_key x.role ct cache in
      let before = current_status x.role ct oid ready in
      let new = if x.has_permission then add_status before else remove_status before in
      let same = current_status-init r c o x.role ct cache in
      rw (current_status-write r c o x.role ct oid x.object new ready)
        (elim (Bool-cases (mention_key x r c o)) [
          | inl q ↦ let at = same_key-eq x.role r ct oid c o ready q ∙ same in rw (q, same, at) refl
          | inr q ↦ rw (q, same) refl
        ])

  -- the permission that the mentions state for a place
  abbrev pub mentioned : List Mention → String → Option ℕ → Option ℕ → Option Bool
  mentioned [] r c o = none
  mentioned (x ∷ rest) r c o =
      if mention_key x r c o then some x.has_permission else mentioned rest r c o

  -- no place is mentioned twice
  abbrev pub IsMentionedOnce : List Mention → Type 0
  IsMentionedOnce [] = Unit
  IsMentionedOnce (x ∷ rest) =
      (mentioned rest x.role (get_content_type_id types x.object) (get_object_id x.object) ≡ none)
      × IsMentionedOnce rest

  pub mentioned-same_key :
      (rest : List Mention) (role r : String) (ct oid c o : Option ℕ)
      → same_key role ct oid r c o ≡ true
      → mentioned rest role ct oid ≡ mentioned rest r c o
  mentioned-same_key rest role r ct oid c o h =
      let e₁ : role ≡ r = beq→eq role r (ground arith) in
      let e₂ : ct ≡ c = beq→eq ct c (ground arith) in
      let e₃ : oid ≡ o = beq→eq oid o (ground arith) in cc

  pub current_status-record_mentions :
      (xs : List Mention) (cache : Cache) (r : String) (c o : Option ℕ)
      → IsMentionedOnce xs
      → current_status r c o (record_mentions types xs cache)
        ≡ settled (mentioned xs r c o) (current_status r c o cache)
  unfolding record_mentions
  current_status-record_mentions [] cache r c o h = refl
  current_status-record_mentions (x ∷ rest) cache r c o (once, h) =
      let next = add_or_remove types x.role x.has_permission x.object cache in
      rw (current_status-record_mentions rest next r c o h) (
        rw (current_status-add_or_remove x cache r c o) (elim (Bool-cases (mention_key x r c o)) [
          | inl q ↦ rw (q, sym (mentioned-same_key rest x.role r _ _ c o q) ∙ once) refl
          | inr q ↦ rw q refl
        ]))
