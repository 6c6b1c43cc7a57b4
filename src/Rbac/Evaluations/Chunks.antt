-- ===== src/Rbac/Evaluations/Chunks.antt =====
-- The walk over all roles of `recompute_all_role_evaluations` of ansible_base/rbac/caching.py: chunks
-- by the last key that was seen. The roles are their keys in the order of the query.
pub mod Laws
use django_ansible_base.Base.{
  ℕ, zero, suc, Bool, true, false, Option, none, some, List, [], ◌∷◌, filter_by, ltb,
}

-- `[:n]`
abbrev pub take : ℕ → List ℕ → List ℕ
take zero xs = []
take (suc n) [] = []
take (suc n) (x ∷ xs) = x ∷ take n xs

-- `chunk[-1].pk`, of a list that starts with a key
abbrev pub last_of : ℕ → List ℕ → ℕ
last_of x [] = x
last_of x (y ∷ ys) = last_of y ys

-- `order_by('pk').filter(pk__gt=last_pk)[:RECOMPUTE_CHUNK_SIZE]`
abbrev pub chunk_after : ℕ → List ℕ → ℕ → List ℕ
chunk_after size pks last_pk = take size (filter_by (λ pk. ltb last_pk pk) pks)

-- the chunks until one is empty; `none` is that the fuel was used up
abbrev pub prepend : List ℕ → Option (List (List ℕ)) → Option (List (List ℕ))
prepend chunk none = none
prepend chunk (some chunks) = some (chunk ∷ chunks)

abbrev pub after_chunk : (ℕ → Option (List (List ℕ))) → List ℕ → Option (List (List ℕ))
after_chunk next [] = some []
after_chunk next (pk ∷ rest) = prepend (pk ∷ rest) (next (last_of pk rest))

unfoldable pub chunks_from : ℕ → List ℕ → ℕ → ℕ → Option (List (List ℕ))
chunks_from size pks zero last_pk = none
chunks_from size pks (suc fuel) last_pk =
    after_chunk (chunks_from size pks fuel) (chunk_after size pks last_pk)
