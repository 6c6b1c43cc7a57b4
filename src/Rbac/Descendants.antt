-- ===== src/Rbac/Descendants.antt =====
-- `get_descendent_models_from_db` of ansible_base/rbac/validators.py: the search through the content
-- types level by level, on the ids of the content types. The number of rounds is the fuel.
pub mod Rounds
pub mod Laws
use django_ansible_base.Base.{
  ℕ, zero, suc, Option, none, some, List, [], ◌∷◌, ◌++◌, nat_eq, contains, length, if◌then◌else◌,
}
use django_ansible_base.Base.Dict.{get_or}
use django_ansible_base.Rbac.Graph.{Graph, listed}

-- `seen_ids`, `result` and `queue`
pub record Search : Type 0 where
  pub seen_ids : List ℕ
  pub result : List ℕ
  pub queue : List ℕ

-- a child that is met: a new one is noted, returned and waits for its turn
abbrev pub meet : ℕ → Search → Search
meet child s = if contains child s.seen_ids then s else record {
  seen_ids = child ∷ s.seen_ids;
  result = s.result ++ (child ∷ []);
  queue = s.queue ++ (child ∷ []);
}

abbrev pub meet_all : List ℕ → Search → Search
meet_all [] s = s
meet_all (child ∷ rest) s = meet_all rest (meet child s)

-- the loop, with the queue as an argument of its own
abbrev pub search_from : Graph → ℕ → List ℕ → Search → Option (List ℕ)
search_from children fuel [] s = some s.result
search_from children zero (current ∷ rest) s = none
search_from children (suc fuel) (current ∷ rest) s =
    let next = meet_all (get_or current [] children) (record s { queue = rest }) in
    search_from children fuel next.queue next

-- One round for the start and one for each content type that is a child of some other.
unfoldable pub get_descendent_models_from_db : Graph → ℕ → Option (List ℕ)
get_descendent_models_from_db children main =
    search_from children (suc (length (listed children))) (main ∷ [])
      (record { seen_ids = []; result = []; queue = main ∷ [] })
