-- ===== src/Rbac/Evaluations/Prefetch.antt =====
-- `EvaluationsPrefetch` of ansible_base/rbac/prefetch.py: the rows of both tables for a chunk of
-- roles, and how `_load_existing_partials` of ansible_base/rbac/models/role.py reads them.
pub mod Laws
use django_ansible_base.Base.{
  ℕ, Bool, true, false, ◌&&◌, List, [], ◌∷◌, ◌==◌, nat_eq, bool_eq, filter_by, contains,
}
use django_ansible_base.Base.Dict.{Dict, get_or, set}
use django_ansible_base.Rbac.Evaluations.Keys.{Key, key_eq, is_int}
use django_ansible_base.Rbac.Evaluations.Updates.{Row, pk_of}

-- the entries of each role
abbrev pub Partials : Type 0
Partials = Dict ℕ (Dict Key ℕ)

pub record EvaluationsPrefetch : Type 0 where
  pub partials : Partials
  pub partials_uuid : Partials

-- the loop over the rows, with a default dict
abbrev pub by_role : List Row → Partials → Partials
by_role [] d = d
by_role (row ∷ rows) d =
    by_role rows (set row.role_id (set row.key row.id (get_or row.role_id [] d)) d)

-- `{pk: by_role.get(pk, {}) for pk in role_pks}`
abbrev pub per_role : Partials → List ℕ → Partials → Partials
per_role by [] d = d
per_role by (pk ∷ pks) d = per_role by pks (set pk (get_or pk [] by) d)

abbrev pub is_fetched : Bool → List ℕ → Row → Bool
is_fetched table role_pks row = is_int (pk_of row.key) == table && contains row.role_id role_pks

abbrev pub fetch_evaluations : Bool → List Row → List ℕ → Partials
fetch_evaluations table rows role_pks =
    per_role (by_role (filter_by (is_fetched table role_pks) rows) []) role_pks []

-- `from_roles`, as far as the rows of evaluations go
unfoldable pub from_roles : List Row → List ℕ → EvaluationsPrefetch
from_roles rows role_pks = record {
  partials = fetch_evaluations true rows role_pks;
  partials_uuid = fetch_evaluations false rows role_pks;
}

abbrev pub get_partials : EvaluationsPrefetch → ℕ → Dict Key ℕ
get_partials p role_pk = get_or role_pk [] p.partials

abbrev pub get_partials_uuid : EvaluationsPrefetch → ℕ → Dict Key ℕ
get_partials_uuid p role_pk = get_or role_pk [] p.partials_uuid

-- `d.update(e)`
abbrev pub update : Dict Key ℕ → Dict Key ℕ → Dict Key ℕ
update d [] = d
update d ((k, v) ∷ e) = update (set k v d) e

unfoldable pub load_prefetched : EvaluationsPrefetch → ℕ → Dict Key ℕ
load_prefetched p role_pk =
    update (update [] (get_partials p role_pk)) (get_partials_uuid p role_pk)
