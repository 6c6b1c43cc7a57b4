-- ===== src/Tests/FallbackCache.antt =====
-- The cache with a fallback at a concrete run.
use django_ansible_base.Base.{
  ◌≡◌, refl, String, true, false, Option, none, some, List, [], ◌∷◌, inr, contains, string_eq,
  nat_eq, pair_eq,
}
use django_ansible_base.FallbackCache.{
  Key, Operation, get, set, clear, Backend, State, Event, call, check, op_with_fallback,
  check_primary_cache, set_call, get_call,
}
use django_ansible_base.FallbackCache.Laws.{
  effect, IsCache, current, calls, run, op_with_fallback-current,
}

-- a cache that never drops a key
abbrev backend : Backend (Key → Option String)
backend = record {
  perform = λ op c. (
    elim op [
      | get k ↦ c k
      | set k v ↦ none
      | Operation.add k v ↦ none
      | Operation.delete k ↦ none
      | clear ↦ none
    ],
    λ j. effect op j (c j),
  );
  lookup = λ j c. c j;
}

lawful : IsCache backend
lawful = record { has_effect = λ op j c. inr refl; returns = λ k c. refl; clears = λ j c. refl }

abbrev empty : Key → Option String
empty j = none

abbrev fresh : State (Key → Option String)
fresh = record {
  primary = empty;
  fallback = empty;
  marker = false;
  recovering = false;
  submitted = 0;
}

-- the primary cache fails when the value is set again
abbrev events : List (Event (Key → Option String))
events =
    call (set_call "k" "old" 1) none true
    ∷ call (set_call "k" "new" 1) (some (λ j. some "old")) true
    ∷ call (get_call "j" 1) none true
    ∷ check false true true
    ∷ []

read_back :
    (op_with_fallback backend (get_call "k" 1) none true (run backend lawful events fresh)).0
    ≡ some "new"
unfolding op_with_fallback check_primary_cache
read_back = refl

op_with_fallback-current_example : contains "new" (current ("k", 1) (calls events [])) ≡ true
op_with_fallback-current_example =
    op_with_fallback-current backend lawful events fresh ("k", 1) none true "new" (λ j. refl)
      (λ j. refl) refl read_back
