-- ===== src/Host/Malloc/Tests.antt =====
-- A run of the allocator, and the theorems about it at concrete states.
use clearram.Base.{◌≡◌, refl, arith, [], ◌∷◌}
use clearram.Host.Malloc.{malloc, malloc_state, malloced}
use clearram.Host.Malloc.Laws.{Allocation, malloc-Allocation, malloc-after_failure}

first_leaf :
    malloc (malloc_state 0 0) (0x7000 ∷ []) 1 28 ≡ malloced 0x7000 (malloc_state 0x701c 4068) []
unfolding malloc
first_leaf = refl

malloc-Allocation_example :
    Allocation 28
      (malloc_state 0x7ff0 16)
      (0x9000 ∷ [])
      (malloc (malloc_state 0x7ff0 16) (0x9000 ∷ []) 1 28)
malloc-Allocation_example =
    malloc-Allocation (malloc_state 0x7ff0 16) (0x9000 ∷ []) 1 28 (omega arith) (omega arith)
      (omega arith)

malloc-after_failure_example :
    let first = malloc (malloc_state 0x7ff0 16) [] 1 28 in
    let second = malloc first.state first.supply 1 28 in
    let third = malloc second.state second.supply 1 28 in
    (first.p ≡ 0) × (second.p ≡ 0) × (third.p ≡ 28)
malloc-after_failure_example =
    malloc-after_failure (malloc_state 0x7ff0 16) [] 28 28 28 (omega arith) (omega arith) refl
      (omega arith)
