-- ===== src/Tests/Chunks.antt =====
-- The walk over all roles at a concrete list of keys.
use django_ansible_base.Base.{ℕ, ◌≡◌, refl, some, List, [], ◌∷◌, arith}
use django_ansible_base.Rbac.Evaluations.Chunks.{chunks_from}
use django_ansible_base.Rbac.Evaluations.Chunks.Laws.{concat, chunks_from-concat}

abbrev pks : List ℕ
pks = 1 ∷ 4 ∷ 9 ∷ []

two_chunks : chunks_from 2 pks 4 0 ≡ some ((1 ∷ 4 ∷ []) ∷ (9 ∷ []) ∷ [])
unfolding chunks_from
two_chunks = refl

chunks_from-concat_example :
    (chunks : List (List ℕ)) × (chunks_from 2 pks 4 0 ≡ some chunks) × (concat chunks ≡ pks)
chunks_from-concat_example =
    chunks_from-concat 1 pks (omega arith, (omega arith, (omega arith, tt)))
