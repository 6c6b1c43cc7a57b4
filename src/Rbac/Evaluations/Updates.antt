-- ===== src/Rbac/Evaluations/Updates.antt =====
-- `ObjectRole.needed_cache_updates` with `_load_existing_partials` of
-- ansible_base/rbac/models/role.py, and `EvaluationUpdates`, `_safe_bulk_create_evaluations` and
-- `recompute_role_evaluations` of ansible_base/rbac/caching.py. The rows of the two tables are one
-- list, in which the type of the primary key tells the table; what the database answers to the
-- attempts to write is a parameter.
pub mod Partials
pub mod Writes
pub mod Laws
pub mod Recompute
pub mod Validity
pub mod Exact
use django_ansible_base.Base.{
  ℕ, suc, Bool, true, false, not, ◌&&◌, ◌||◌, Option, none, some, List, [], ◌∷◌, ◌++◌, ◌==◌, nat_eq,
  bool_eq, pair_eq, Eq, map, any, all, filter_by, contains, difference, if◌then◌else◌, Outcome, ok,
  err, ◌>>=◌, value_error, type_error, integrity_error,
}
use django_ansible_base.Base.Dict.{Dict, keys, get_or, set}
use django_ansible_base.Rbac.Teams.{DbError, Attempts, is_stale_objectrole_fk}
use django_ansible_base.Rbac.Evaluations.Keys.{
  Pk, pk_eq, TypeRef, by_id, by_object, type_ref_eq, Key, key_eq, is_int,
}
use django_ansible_base.Rbac.Evaluations.Expected.{
  ObjectRole, World, half_given, expected_direct_permissions,
}

pub record Row : Type 0 where
  pub id : ℕ
  pub role_id : ℕ
  pub key : Key

-- the rows, and the next id of each table
pub record Tables : Type 0 where
  pub rows : List Row
  pub next_int : ℕ
  pub next_uuid : ℕ

-- `provides_teams` of a role, by its key, and `has_roles` of a team
pub record Holders : Type 0 where
  pub provides_teams : ℕ → List ℕ
  pub has_roles : ℕ → List ObjectRole

-- `(evaluation id, type of its object_id)`, where true is int
abbrev pub Identity : Type 0
Identity = ℕ × Bool

instance abbrev pub identity_eq : Eq Identity
identity_eq = pair_eq

abbrev pub pk_of : Key → Pk
pk_of (codename, (ct, pk)) = pk

abbrev pub is_of : ℕ → Bool → Row → Bool
is_of role_pk table row = row.role_id == role_pk && is_int (pk_of row.key) == table

abbrev pub is_about : Pk → ℕ → Key → Bool
is_about object_pk object_ct (codename, (ct, pk)) = pk == object_pk && ct == by_id object_ct

-- the rows that are queried, `permission_partials` before `permission_partials_uuid`
abbrev pub source_rows : List Row → ℕ → Option Pk → Option ℕ → List Row
source_rows rows role_pk (some object_pk) (some object_ct) =
    filter_by (λ row. is_of role_pk (is_int object_pk) row && is_about object_pk object_ct row.key)
      rows
source_rows rows role_pk _ _ =
    filter_by (is_of role_pk true) rows ++ filter_by (is_of role_pk false) rows

abbrev pub partials_of : List Row → Dict Key ℕ → Dict Key ℕ
partials_of [] d = d
partials_of (row ∷ rows) d = partials_of rows (set row.key row.id d)

abbrev pub load_existing_partials : List Row → ℕ → Option Pk → Option ℕ → Dict Key ℕ
load_existing_partials rows role_pk object_pk object_ct =
    partials_of (source_rows rows role_pk object_pk object_ct) []

abbrev pub team_roles : (ℕ → List ObjectRole) → List ℕ → List ObjectRole
team_roles has_roles [] = []
team_roles has_roles (t ∷ ts) = has_roles t ++ team_roles has_roles ts

abbrev pub expected_of : World → Option Pk → Option ℕ → List ObjectRole → Outcome (List Key)
expected_of w object_pk object_ct [] = ok []
expected_of w object_pk object_ct (role ∷ roles) =
    expected_direct_permissions w object_pk object_ct role >>= λ found.
    expected_of w object_pk object_ct roles >>= λ rest. ok (found ++ rest)

-- `(to_delete, to_add)`, where a row to add is its role and its key
abbrev pub Needed : Type 0
Needed = List Identity × List (ℕ × Key)

abbrev pub identity_in : Dict Key ℕ → Key → Identity
identity_in partials k = (get_or k 0 partials, is_int (pk_of k))

abbrev pub needed : Dict Key ℕ → ℕ → List Key → Needed
needed partials role_pk expected = (
  map (identity_in partials) (difference (keys partials) expected),
  map (λ k. (role_pk, k)) (difference expected (keys partials)),
)

unfoldable pub needed_cache_updates :
    World → Holders → List Row → Option Pk → Option ℕ → ObjectRole → Outcome Needed
needed_cache_updates w h rows object_pk object_ct role =
    if half_given object_pk object_ct
    then err value_error
    else expected_of w object_pk object_ct
        (role ∷ team_roles h.has_roles (h.provides_teams role.pk))
      >>= λ expected.
          ok (needed (load_existing_partials rows role.pk object_pk object_ct) role.pk expected)

-- `EvaluationUpdates.collect` for each role
abbrev pub collect :
    World → Holders → List Row → Option Pk → Option ℕ → List ObjectRole → Outcome Needed
collect w h rows object_pk object_ct [] = ok ([], [])
collect w h rows object_pk object_ct (role ∷ roles) =
    needed_cache_updates w h rows object_pk object_ct role >>= λ first.
    collect w h rows object_pk object_ct roles >>= λ rest. ok (first.0 ++ rest.0, first.1 ++ rest.1)

-- the unique constraint of both tables
abbrev pub has_row : ℕ → Key → List Row → Bool
has_row role_pk k rows = any (λ row. row.role_id == role_pk && row.key == k) rows

abbrev pub next_id : Bool → Tables → ℕ
next_id true t = t.next_int
next_id false t = t.next_uuid

abbrev pub new_row : Bool → ℕ → Key → Tables → Row
new_row table role_pk k t = record { id = next_id table t; role_id = role_pk; key = k }

abbrev pub append_row : Bool → ℕ → Key → Tables → Tables
append_row table role_pk k t = record {
  rows = t.rows ++ (new_row table role_pk k t ∷ []);
  next_int = if table then suc t.next_int else t.next_int;
  next_uuid = if table then t.next_uuid else suc t.next_uuid;
}

abbrev pub insert_row : ℕ × Key → Tables → Tables
insert_row (role_pk, k) t =
    if has_row role_pk k t.rows then t else append_row (is_int (pk_of k)) role_pk k t

abbrev pub insert_all : List (ℕ × Key) → Tables → Tables
insert_all [] t = t
insert_all (e ∷ es) t = insert_all es (insert_row e t)

abbrev pub conflicts : List (ℕ × Key) → Tables → Bool
conflicts [] t = false
conflicts ((role_pk, k) ∷ es) t =
    has_row role_pk k t.rows || conflicts es (insert_row (role_pk, k) t)

-- an integer column takes an id, and no object
abbrev pub has_type_id : Key → Bool
has_type_id (codename, (by_id ct, pk)) = true
has_type_id (codename, (by_object ct, pk)) = false

abbrev pub has_id : ℕ × Key → Bool
has_id (role_pk, k) = has_type_id k

abbrev pub bulk_create : Bool → List (ℕ × Key) → Tables → Outcome Tables
bulk_create ignore_conflicts es t =
    if not ignore_conflicts && conflicts es t then err integrity_error else ok (insert_all es t)

abbrev pub retry_create : Attempts → Bool → List (ℕ × Key) → Tables → Outcome Tables
retry_create attempts ignore_conflicts [] t = ok t
retry_create attempts ignore_conflicts (e ∷ es) t = elim attempts.second [
  | none ↦ bulk_create ignore_conflicts (e ∷ es) t
  | some x ↦ if is_stale_objectrole_fk x then ok t else err integrity_error
]

abbrev pub try_create : Attempts → Bool → List (ℕ × Key) → Tables → Outcome Tables
try_create attempts ignore_conflicts es t = elim attempts.first [
  | none ↦ bulk_create ignore_conflicts es t
  | some x ↦
      if is_stale_objectrole_fk x
      then retry_create attempts ignore_conflicts (filter_by (λ e. contains e.0 attempts.alive) es)
          t
      else err integrity_error
]

unfoldable pub safe_bulk_create_evaluations :
    Attempts → Bool → List (ℕ × Key) → Tables → Outcome Tables
safe_bulk_create_evaluations attempts ignore_conflicts [] t = ok t
safe_bulk_create_evaluations attempts ignore_conflicts (e ∷ es) t =
    if all has_id (e ∷ es) then try_create attempts ignore_conflicts (e ∷ es) t else err type_error

abbrev pub is_int_row : ℕ × Key → Bool
is_int_row (role_pk, k) = is_int (pk_of k)

-- `_apply_additions`, with the answers of the database for each table
abbrev pub apply_additions : Attempts → Attempts → Bool → List (ℕ × Key) → Tables → Outcome Tables
apply_additions for_int for_uuid ignore_conflicts to_add t =
    safe_bulk_create_evaluations for_int ignore_conflicts (filter_by is_int_row to_add) t
    >>= λ later.
        safe_bulk_create_evaluations for_uuid ignore_conflicts
          (filter_by (λ e. not (is_int_row e)) to_add) later

abbrev pub identity_of : Row → Identity
identity_of row = (row.id, is_int (pk_of row.key))

-- `_apply_deletions`: by id, in the table of the type
abbrev pub apply_deletions : List Identity → Tables → Tables
apply_deletions to_delete t = record t {
  rows = filter_by (λ row. not (contains (identity_of row) to_delete)) t.rows;
}

unfoldable pub recompute_role_evaluations :
    World
    → Holders
    → Attempts
    → Attempts
    → Bool
    → Option Pk
    → Option ℕ
    → List ObjectRole
    → Tables
    → Outcome Tables
recompute_role_evaluations w h for_int for_uuid ignore_conflicts object_pk object_ct roles t =
    collect w h t.rows object_pk object_ct roles >>= λ updates.
    apply_additions for_int for_uuid ignore_conflicts updates.1 t >>= λ later.
    ok (apply_deletions updates.0 later)
