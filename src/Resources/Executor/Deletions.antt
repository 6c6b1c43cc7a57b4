-- ===== src/Resources/Executor/Deletions.antt =====
-- The resources that a run of `SyncExecutor` of ansible_base/resource_registry/tasks/sync.py deletes
-- as orphans.
use mathlib.Core.List.{Memᴰ}
use django_ansible_base.Base.{
  ℕ, ◌≡◌, refl, sym, ap, ◌∙◌, ◌==◌, ◌≢◌, beq_refl, String, some, true, false, List, [], ◌∷◌,
  string_eq, Bool-cases, inl, inr, ◌⊎◌, Memᴰ-filter_by, contains, contains-append, length, beq→eq,
  arith,
}
use django_ansible_base.Resources.Attempts.{
  returned, Call, and_then, ◌>>=◌, return, ManifestItem, ResourceStore, delete_found,
}
use django_ansible_base.Resources.Executor.{
  number, ManifestResponse, Manifest, not_found, failed, fetched, fetch_manifest, Resource, Site,
  is_orphan, ids_of, is_system_user, get_orphan_resources, Progress, process_manifest_list,
  handle_retries, deleted_or_not, delete_each, with_deleted, cleanup_orphans, run_fetched, run_type,
}
use django_ansible_base.Resources.Executor.Laws.{
  fetch_manifest-Counted, process-returned, and_then-returned, return-returned,
  handle_retries-Retried,
}

orphans-Memᴰ :
    (site : Site) (type_name : String) (items : List ManifestItem) (resources : List Resource)
    (r : Resource)
    → Memᴰ r (get_orphan_resources site type_name items resources)
    → Memᴰ r resources × (is_orphan site type_name items r ≡ true)
unfolding get_orphan_resources
orphans-Memᴰ site type_name items resources r =
    (Memᴰ-filter_by (is_orphan site type_name items) resources r).0

-- A resource of the type that the manifest does not list, that another service has or that is only
-- partially migrated, and that is not the system user.
pub record IsOrphan (site : Site) (type_name : String) (items : List ManifestItem) (r : Resource)
    : Type 0 where
  pub of_type : r.type_name ≡ type_name
  pub unlisted : (item : ManifestItem) → Memᴰ item items → item.ansible_id ≢ r.ansible_id
  pub foreign : (r.service_id ≢ site.service_id) ⊎ (r.is_partially_migrated ≡ true)
  pub not_system : type_name ≡ site.user_type → site.system_user ≢ some r.object_id

ids_of-Memᴰ :
    (items : List ManifestItem) (item : ManifestItem)
    → Memᴰ item items
    → contains item.ansible_id (ids_of items) ≡ true
ids_of-Memᴰ [] item m = elim m [ ]
ids_of-Memᴰ (x ∷ items) item (Memᴰ.head e) = rw e (rw (beq_refl x.ansible_id) refl)
ids_of-Memᴰ (x ∷ items) item (Memᴰ.tail m) = ground (arith, ids_of-Memᴰ items item m)

is_system_user_of :
    (site : Site) (type_name object_id : String)
    → type_name ≡ site.user_type
    → site.system_user ≡ some object_id
    → is_system_user site type_name object_id ≡ true
is_system_user_of site type_name object_id p q =
    rw (p, q, beq_refl site.user_type, beq_refl object_id) refl

is_orphan-IsOrphan :
    (site : Site) (type_name : String) (items : List ManifestItem) (r : Resource)
    → is_orphan site type_name items r ≡ true
    → IsOrphan site type_name items r
is_orphan-IsOrphan site type_name items r h =
    let listed = contains r.ansible_id (ids_of items) in
    let own = r.service_id == site.service_id in
    let system = is_system_user site type_name r.object_id in
    let unlisted : listed ≡ false = ground arith in
    let not_system : system ≡ false = ground arith in
    record {
      of_type = beq→eq r.type_name type_name (ground arith);
      unlisted = λ item m q.
          let there = ap (λ x. contains x (ids_of items)) (sym q) ∙ ids_of-Memᴰ items item m in
          absurd (cc (sym unlisted ∙ there));
      foreign = elim (Bool-cases r.is_partially_migrated) [
        | inl k ↦ inr k
        | inr k ↦ inl (λ q.
            let same = ap (λ x. x == site.service_id) q ∙ beq_refl site.service_id in
            absurd (ground arith))
      ];
      not_system = λ p q.
          let there = is_system_user_of site type_name r.object_id p q in
          absurd (cc (sym not_system ∙ there));
    }

module _ {ℓ} {S : Type ℓ} (store : ResourceStore S) where
  delete_each-Memᴰ :
      (rs : List Resource) (s : S) (x : String)
      → contains x (delete_each store rs s).0 ≡ true
      → (r : Resource) × Memᴰ r rs × (r.ansible_id ≡ x)
  delete_each-Memᴰ [] s x m = absurd (cc)
  delete_each-Memᴰ (r ∷ rs) s x m =
      let step = deleted_or_not store s (delete_found store r.ansible_id s) in
      elim (Bool-cases (contains x (delete_each store rs step.1).0)) [
        | inl q ↦ let (other, n, e) = delete_each-Memᴰ rs step.1 x q in (other, Memᴰ.tail n, e)
        | inr q ↦ elim (Bool-cases step.0) [
          | inl k ↦ let m2 = rw k at m in (r, Memᴰ.head refl, beq→eq r.ansible_id x (ground arith))
          | inr k ↦ let m2 = rw k at m in absurd (cc)
        ]
      ]

  -- what a step on a type deletes stands among its orphans
  abbrev Deletes : List Resource → Progress → Progress → Type 0
  Deletes orphans p q =
      (x : String)
      → contains x q.deleted ≡ true
      → (contains x p.deleted ≡ true) ⊎ ((r : Resource) × Memᴰ r orphans × (r.ansible_id ≡ x))

  cleanup-Deletes :
      (orphans : List Resource) (p q : Progress) (s s' : S)
      → cleanup_orphans store orphans p s ≡ (returned q, s')
      → Deletes orphans p q
  cleanup-Deletes orphans p q s s' e x m =
      let ids = (delete_each store orphans s).0 in
      let same = (return-returned (with_deleted p ids) q (delete_each store orphans s).1 s' e).0 in
      let m2 = ap (λ y. contains x y.deleted) same ∙ m in
      elim (Bool-cases (contains x p.deleted)) [
        | inl k ↦ inl k
        | inr k ↦
            inr (delete_each-Memᴰ orphans s x (ground (arith, contains-append x p.deleted ids)))
      ]

  -- the items are processed after the orphans are deleted
  processed-deleted :
      (items : List ManifestItem) (retries : ℕ) (first : Call S Progress) (q : Progress) (s s' : S)
      → (first >>= process_manifest_list store items >>= handle_retries store retries) s
        ≡ (returned q, s')
      → (p : Progress) × (s1 : S) × (first s ≡ (returned p, s1)) × (q.deleted ≡ p.deleted)
  processed-deleted items retries first q s s' e =
      let (p2, s2, f, g) =
        and_then-returned (and_then (process_manifest_list store items) (first s))
          (handle_retries store retries) q s' e in
      let (p1, s1, f1, g1) =
        and_then-returned (first s) (process_manifest_list store items) p2 s2 f in
      let (a, low, high, kept) = handle_retries-Retried store retries p2 q s2 s' g in
      let (b, kept1) = process-returned store items p1 p2 s1 s2 g1 in (p1, s1, f1, kept ∙ kept1)

  -- a resource that was deleted before, or an orphan of a complete manifest
  abbrev pub MayDelete : Site → String → List Resource → Manifest → Progress → String → Type 0
  MayDelete site type_name resources manifest p x =
      (contains x p.deleted ≡ true)
      ⊎ ((items : List ManifestItem) × (manifest ≡ fetched items false)
          × (r : Resource) × Memᴰ r resources
          × (r.ansible_id ≡ x)
          × (is_orphan site type_name items r ≡ true))

  run_fetched-MayDelete :
      (site : Site) (type_name : String) (retries : ℕ) (resources : S → List Resource)
      (manifest : Manifest) (p q : Progress) (s s' : S) (x : String)
      → run_fetched store site type_name retries resources manifest p s ≡ (returned q, s')
      → contains x q.deleted ≡ true
      → MayDelete site type_name (resources s) manifest p x
  run_fetched-MayDelete site type_name retries resources not_found p q s s' x e m =
      let (same, t) = return-returned p q s s' e in inl (ap (λ y. contains x y.deleted) same ∙ m)
  run_fetched-MayDelete site type_name retries resources failed p q s s' x e m =
      let wrong = ap (λ y. y.0) e in absurd (cc wrong)
  run_fetched-MayDelete site type_name retries resources (fetched items true) p q s s' x e m =
      let (p1, s1, f, kept) =
        processed-deleted items retries (return (record p { deleted_count = 0 })) q s s' e in
      let (same, t) = return-returned (record p { deleted_count = 0 }) p1 s s1 f in
      inl (ap (λ y. contains x y.deleted) same ∙ ap (contains x) (sym kept) ∙ m)
  run_fetched-MayDelete site type_name retries resources (fetched items false) p q s s' x e m =
      let orphans = get_orphan_resources site type_name items (resources s) in
      let (p1, s1, f, kept) =
        processed-deleted items retries
          (λ z. cleanup_orphans store (get_orphan_resources site type_name items (resources z)) p z)
          q s s' e in
      elim (cleanup-Deletes orphans p p1 s s1 f x (ap (contains x) (sym kept) ∙ m)) [
        | inl k ↦ inl k
        | inr (r, n, i) ↦
            let (there, orphan) = orphans-Memᴰ site type_name items (resources s) r n in
            inr (items, refl, r, there, i, orphan)
      ]

  -- What the run of a type deletes as orphans, if it returns: a resource of that type that is not
  -- listed in the manifest, is not the system user, and is of another service or only partially
  -- migrated; and only if the manifest was read whole and has as many rows as the server announced.
  pub run_type-MayDelete :
      (site : Site) (type_name : String) (retries : ℕ) (resources : S → List Resource)
      (response : ManifestResponse) (p q : Progress) (s s' : S) (x : String)
      → run_type store site type_name retries resources response p s ≡ (returned q, s')
      → contains x q.deleted ≡ true
      → (contains x p.deleted ≡ true)
        ⊎ ((items : List ManifestItem) × (response.rows ≡ some items)
            × (response.count ≡ number (length items))
            × (r : Resource) × Memᴰ r (resources s)
            × (r.ansible_id ≡ x)
            × IsOrphan site type_name items r)
  unfolding run_type
  run_type-MayDelete site type_name retries resources response p q s s' x e m =
      elim (run_fetched-MayDelete site type_name retries resources (fetch_manifest response) p q s
        s' x e m) [
          | inl k ↦ inl k
          | inr (items, f, r, n, i, orphan) ↦
              let (rows, count) = fetch_manifest-Counted response items f in
              inr (items, rows, count, r, n, i, is_orphan-IsOrphan site type_name items r orphan)
        ]
