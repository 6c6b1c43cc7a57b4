-- ===== src/FallbackCache.antt =====
-- `DABCacheWithFallback` of ansible_base/lib/cache/fallback_cache.py as a state machine. The two
-- caches of Django are a parameter; the marker file, the note that a recovery is in progress and the
-- checks that were submitted are fields. A step is one call or one check from its start to its end,
-- so a sequence of steps is one in which no two overlap. Nothing in the code makes it so: each
-- `multiprocessing.Lock()` is a new lock that no other call holds, and most calls take none.
pub mod Laws
use django_ansible_base.Base.{
  ℕ, suc, ◌-◌, String, Bool, true, false, not, ◌&&◌, Option, none, some, ◌==◌, Eq, nat_eq,
  string_eq, pair_eq, if◌then◌else◌,
}

-- a key under a version
abbrev pub Key : Type 0
Key = String × ℕ

-- the calls of a cache that the class passes on
pub data Operation : Type 0 where
  add set : Key → String → Operation
  get delete : Key → Operation
  clear : Operation

-- the version that Django uses where none is given
abbrev pub default_version : ℕ
default_version = 1

-- the calls of the interface, as they are passed on: `set` leaves its version out
abbrev pub add_call : String → String → ℕ → Operation
add_call key value version = add (key, version) value

abbrev pub get_call : String → ℕ → Operation
get_call key version = get (key, version)

abbrev pub set_call : String → String → ℕ → Operation
set_call key value version = set (key, default_version) value

abbrev pub delete_call : String → ℕ → Operation
delete_call key version = delete (key, version)

-- A cache of Django: what a call returns, where it is a value, and the cache after it.
pub record Backend {ℓ} (C : Type ℓ) : Type ℓ where
  pub perform : Operation → C → Option String × C
  pub lookup : Key → C → Option String

pub record State {ℓ} (C : Type ℓ) : Type ℓ where
  pub primary : C
  pub fallback : C
  -- whether the file exists that says the primary cache failed
  pub marker : Bool
  pub recovering : Bool
  pub submitted : ℕ

-- What happens to a call or a check: the primary cache answers, or raises and is left in some state;
-- for a check also whether each of the two caches can be cleared.
pub data Event {ℓ} (C : Type ℓ) : Type ℓ where
  call : Operation → Option C → Bool → Event C
  check : Bool → Bool → Bool → Event C

module _ {ℓ} {C : Type ℓ} (backend : Backend C) where
  -- `start_recovery`, where the flag says whether this object is the one to recover
  abbrev pub start_recovery : Bool → State C → State C
  start_recovery is_recoverer st =
      if is_recoverer && not st.recovering
      then record st { recovering = true; submitted = suc st.submitted }
      else st

  abbrev pub on_fallback : Operation → State C → Option String × State C
  on_fallback op st =
      let answer = backend.perform op st.fallback in (answer.0, record st { fallback = answer.1 })

  abbrev pub on_primary : Operation → Option C → State C → Option String × State C
  on_primary op none st =
      let answer = backend.perform op st.primary in (answer.0, record st { primary = answer.1 })
  on_primary op (some broken) st = on_fallback op (record st { primary = broken; marker = true })

  -- `_op_with_fallback`
  unfoldable pub op_with_fallback : Operation → Option C → Bool → State C → Option String × State C
  op_with_fallback op failure is_recoverer st =
      if st.marker
      then (let answer = on_fallback op st in (answer.0, start_recovery is_recoverer answer.1))
      else on_primary op failure st

  abbrev pub cleared : C → C
  cleared c = (backend.perform clear c).1

  -- both caches are cleared before the marker is removed
  abbrev pub clear_both : Bool → Bool → State C → State C
  clear_both primary_clears fallback_clears st =
      if primary_clears
      then (let once = record st { primary = cleared st.primary } in
          if fallback_clears
          then record once { fallback = cleared st.fallback; marker = false }
          else once)
      else st

  -- `check_primary_cache`, which takes a check that was submitted
  unfoldable pub check_primary_cache : Bool → Bool → Bool → State C → State C
  check_primary_cache is_up primary_clears fallback_clears st =
      let later = if is_up && st.marker then clear_both primary_clears fallback_clears st else st in
      record later { recovering = false; submitted = later.submitted - 1 }

  abbrev pub step : Event C → State C → State C
  step (call op failure is_recoverer) st = (op_with_fallback op failure is_recoverer st).1
  step (check is_up primary_clears fallback_clears) st =
      check_primary_cache is_up primary_clears fallback_clears st
