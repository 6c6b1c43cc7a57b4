-- ===== src/Resources/Attempts/Laws.antt =====
-- Which exceptions leave `resource_sync` of ansible_base/resource_registry/tasks/sync.py.
use django_ansible_base.Base.{
  ◌≡◌, refl, sym, ap, ◌∙◌, ◌⊎◌, String, true, false, not, ◌&&◌, Option, none, some, ◌==◌, nat_eq,
  string_eq, Bool-cases, inl, inr, leb, if◌then◌else◌,
}
use django_ansible_base.Resources.Attempts.{
  SyncError, integrity, deletion, database, skip, validation, invalid, http, other, Result,
  returned, raised, Call, and_then, ◌>>=◌, return, raise, handle, attempt, SyncStatus, created,
  updated, noop, conflict, unavailable, error, ManifestItem, Details, Answer, ResourceStore,
  is_caught, handle_conflict, in_conflict, again, update_failed, create_failed,
  attempt_create_resource, checked, update_or_give_up, create_or_give_up, sync_with, resource_sync,
}

raised_injective :
    {A : Type 0} (x : Result A) (e d : SyncError) → x ≡ raised e → x ≡ raised d → e ≡ d
raised_injective x e d p q = ap (λ m. elim m [ raised y ↦ y | returned _ ↦ e ]) (sym p ∙ q)

uncaught : (e : SyncError) → is_caught e ≡ false → (e ≡ invalid) ⊎ (e ≡ http) ⊎ (e ≡ other)
uncaught invalid h = inl refl
uncaught http h = inr (inl refl)
uncaught other h = inr (inr refl)
uncaught _ h = absurd (cc h)

module _ {ℓ} {S : Type ℓ} where
  -- No exception that the code catches leaves the call.
  abbrev pub IsGuarded : {A : Type 0} → Call S A → Type ℓ
  IsGuarded call = (s : S) (e : SyncError) → (call s).0 ≡ raised e → is_caught e ≡ false

  -- The exceptions that leave the call are among those that the code does not catch.
  abbrev pub Leaves : {A : Type 0} → Call S A → Type ℓ
  Leaves call =
      (s : S) (e : SyncError) → (call s).0 ≡ raised e → (e ≡ invalid) ⊎ (e ≡ http) ⊎ (e ≡ other)

  Leaves-IsGuarded : {A : Type 0} (call : Call S A) → Leaves call → IsGuarded call
  Leaves-IsGuarded call h s e p = elim (h s e p) [
    | inl q ↦ rw q refl
    | inr r ↦ elim r [ inl q ↦ rw q refl | inr q ↦ rw q refl ]
  ]

  IsGuarded-Leaves : {A : Type 0} (call : Call S A) → IsGuarded call → Leaves call
  IsGuarded-Leaves call h s e p = uncaught e (h s e p)

  return-IsGuarded : {A : Type 0} (a : A) → IsGuarded (return a)
  return-IsGuarded a s e h = absurd (cc h)

  raise-IsGuarded : {A : Type 0} (e : SyncError) → is_caught e ≡ false → IsGuarded {A = A} (raise e)
  raise-IsGuarded {A} e q s d h =
      let x : Result A = raised e in ap is_caught (sym (raised_injective x e d refl h)) ∙ q

  and_then-IsGuarded :
      {A B : Type 0} (x : Result A × S) (rest : A → Call S B)
      → ((e : SyncError) → x.0 ≡ raised e → is_caught e ≡ false)
      → ((a : A) → IsGuarded (rest a))
      → (e : SyncError) → (and_then rest x).0 ≡ raised e
      → is_caught e ≡ false
  and_then-IsGuarded (returned a, s) rest f g e h = g a s e h
  and_then-IsGuarded {B} (raised d, s) rest f g e h =
      let x : Result B = raised d in ap is_caught (sym (raised_injective x d e refl h)) ∙ f d refl

  >>=-IsGuarded :
      {A B : Type 0} (first : Call S A) (rest : A → Call S B)
      → IsGuarded first
      → ((a : A) → IsGuarded (rest a))
      → IsGuarded (first >>= rest)
  >>=-IsGuarded first rest f g s e h = and_then-IsGuarded (first s) rest (f s) g e h

  handle-IsGuarded :
      {A : Type 0} (x : Result A × S) (handler : SyncError → Call S A)
      → ((d : SyncError) → IsGuarded (handler d))
      → (e : SyncError) → (handle handler x).0 ≡ raised e
      → is_caught e ≡ false
  handle-IsGuarded (returned a, s) handler g e h = absurd (cc h)
  handle-IsGuarded (raised d, s) handler g e h = g d s e h

  attempt-IsGuarded :
      {A : Type 0} (body : Call S A) (handler : SyncError → Call S A)
      → ((d : SyncError) → IsGuarded (handler d))
      → IsGuarded (attempt body handler)
  attempt-IsGuarded body handler g s e h = handle-IsGuarded (body s) handler g e h

  caught-IsGuarded :
      (status : SyncStatus) (e : SyncError)
      → IsGuarded (if is_caught e then return status else raise e)
  caught-IsGuarded status e = elim (Bool-cases (is_caught e)) [
    | inl q ↦ rw q (return-IsGuarded status)
    | inr q ↦ rw q (raise-IsGuarded e q)
  ]

module _ {ℓ} {S : Type ℓ} (store : ResourceStore S) where
  again-IsGuarded :
      (name : Call S String) (details : Details) (body : Call S (Unit {0})) (status : SyncStatus)
      → IsGuarded (again store name details body status)
  again-IsGuarded name details body status =
      attempt-IsGuarded
        (name >>= λ n. handle_conflict store n details >>= λ _. body >>= λ _. return status)
        (in_conflict store) (caught-IsGuarded conflict)

  update_failed-IsGuarded :
      (item : ManifestItem) (details : Details) (e : SyncError)
      → IsGuarded (update_failed store item details e)
  update_failed-IsGuarded item details integrity =
      again-IsGuarded (store.type_of item.ansible_id) details
        (store.update_resource item.ansible_id details true >>= λ _. return tt) updated
  update_failed-IsGuarded item details deletion = caught-IsGuarded error deletion
  update_failed-IsGuarded item details database = caught-IsGuarded error database
  update_failed-IsGuarded item details skip = caught-IsGuarded error skip
  update_failed-IsGuarded item details validation = caught-IsGuarded error validation
  update_failed-IsGuarded item details invalid = caught-IsGuarded error invalid
  update_failed-IsGuarded item details http = caught-IsGuarded error http
  update_failed-IsGuarded item details other = caught-IsGuarded error other

  create_failed-IsGuarded :
      (item : ManifestItem) (name : String) (details : Details) (e : SyncError)
      → IsGuarded (create_failed store item name details e)
  create_failed-IsGuarded item name details integrity =
      again-IsGuarded (return name) details (store.create_resource item.ansible_id details) created
  create_failed-IsGuarded item name details skip = return-IsGuarded noop
  create_failed-IsGuarded item name details deletion = caught-IsGuarded error deletion
  create_failed-IsGuarded item name details database = caught-IsGuarded error database
  create_failed-IsGuarded item name details validation = caught-IsGuarded error validation
  create_failed-IsGuarded item name details invalid = caught-IsGuarded error invalid
  create_failed-IsGuarded item name details http = caught-IsGuarded error http
  create_failed-IsGuarded item name details other = caught-IsGuarded error other

  checked-IsGuarded : (answer : Answer) → IsGuarded (checked store answer)
  checked-IsGuarded (status, details) = elim (Bool-cases (leb 400 status && not (leb 500 status))) [
    | inl q ↦ rw q (return-IsGuarded none)
    | inr q ↦ rw q (elim (Bool-cases (leb 500 status && not (leb 600 status))) [
      | inl k ↦ rw k (raise-IsGuarded http refl)
      | inr k ↦ rw k (return-IsGuarded (some details))
    ])
  ]

  update-IsGuarded :
      (item : ManifestItem) (found : Option Details)
      → IsGuarded (update_or_give_up store item found)
  update-IsGuarded item none = return-IsGuarded unavailable
  update-IsGuarded item (some details) =
      attempt-IsGuarded
        (store.update_resource item.ansible_id details true >>= λ changed.
          return (if changed then updated else noop))
        (update_failed store item details) (update_failed-IsGuarded item details)

  create-IsGuarded :
      (item : ManifestItem) (found : Option Details)
      → ((name : String) → IsGuarded (store.get_type name))
      → IsGuarded (create_or_give_up store item found)
  create-IsGuarded item none h = return-IsGuarded unavailable
  create-IsGuarded item (some details) h =
      >>=-IsGuarded (store.get_type details.resource_type)
        (λ name. attempt_create_resource store item name details) (h details.resource_type)
        (λ name.
          attempt-IsGuarded (store.create_resource item.ansible_id details >>= λ _. return created)
            (create_failed store item name details) (create_failed-IsGuarded item name details))

  sync_with-IsGuarded :
      (item : ManifestItem) (local_hash : Option String)
      → IsGuarded (store.get_resource item.ansible_id)
      → ((name : String) → IsGuarded (store.get_type name))
      → IsGuarded (sync_with store item local_hash)
  sync_with-IsGuarded item none g h =
      >>=-IsGuarded (store.get_resource item.ansible_id >>= checked store)
        (create_or_give_up store item)
        (>>=-IsGuarded (store.get_resource item.ansible_id) (checked store) g checked-IsGuarded)
        (λ found. create-IsGuarded item found h)
  sync_with-IsGuarded item (some local_hash) g h =
      elim (Bool-cases (item.resource_hash == local_hash)) [
        | inl q ↦ rw q (return-IsGuarded noop)
        | inr q ↦ rw q (
            >>=-IsGuarded (store.get_resource item.ansible_id >>= checked store)
              (update_or_give_up store item)
              (>>=-IsGuarded (store.get_resource item.ansible_id) (checked store) g
                checked-IsGuarded)
              (update-IsGuarded item))
      ]

  -- If what leaves the request to the server and the look-ups of the local resource and of the type
  -- is only a `ValidationError` of the REST framework, an HTTP error or an error that the code does
  -- not name, then this holds of the synchronization of a resource too, whatever the methods that
  -- create, update and delete raise; so no error of the database and no `ValidationError` of Django
  -- leaves it. And a `ValidationError` of the REST framework that the update of a local resource
  -- raises does leave it.
  pub resource_sync-Leaves :
      (item : ManifestItem)
      → Leaves (store.local_hash item.ansible_id)
      → Leaves (store.get_resource item.ansible_id)
      → ((name : String) → Leaves (store.get_type name))
      → Leaves (resource_sync store item)
        × ((local_hash : String) (details : Details) (s s1 s2 s3 : S)
            → (item.resource_hash == local_hash) ≡ false
            → store.local_hash item.ansible_id s ≡ (returned (some local_hash), s1)
            → store.get_resource item.ansible_id s1 ≡ (returned (200, details), s2)
            → store.update_resource item.ansible_id details true s2 ≡ (raised invalid, s3)
            → resource_sync store item s ≡ (raised invalid, s3))
  unfolding resource_sync
  resource_sync-Leaves item f g h = (
    IsGuarded-Leaves (resource_sync store item) (
        >>=-IsGuarded (store.local_hash item.ansible_id) (sync_with store item)
          (Leaves-IsGuarded (store.local_hash item.ansible_id) f)
          (λ local_hash.
            sync_with-IsGuarded item local_hash
              (Leaves-IsGuarded (store.get_resource item.ansible_id) g)
              (λ name. Leaves-IsGuarded (store.get_type name) (h name)))),
    λ local_hash details s s1 s2 s3 q e1 e2 e3. rw (e1, q, e2, e3) refl,
  )
