-- ===== src/Host/Malloc.antt =====
-- cr_host_malloc() of subr_host.c: small allocations, cut off the front of a page.
pub mod Laws
mod Tests
use clearram.Base.{
  ℕ, ◌+◌, ◌-◌, ◌*◌, ◌%◌, ◌^◌, if◌then◌else◌, ltb, leb, ◌==◌, page_size_bytes, u64_mod, add64, sub64,
}
use clearram.Host.Kernel.{Supply, vmalloc}

-- struct crh_malloc_state.
pub record MallocState : Type 0 where
  pub tail : ℕ
  pub rem : ℕ

pub record Malloced : Type 0 where
  pub p : ℕ
  pub state : MallocState
  pub supply : Supply

abbrev pub malloc_state : ℕ → ℕ → MallocState
malloc_state t r = record { tail = t; rem = r }

abbrev pub malloced : ℕ → MallocState → Supply → Malloced
malloced p m s = record { p = p; state = m; supply = s }

-- The end of the function, from `p = mstate->tail` on.
cut : ℕ → MallocState → Supply → Malloced
cut count m supply =
    if ltb count m.rem
    then malloced m.tail (malloc_state (add64 m.tail count) (sub64 m.rem count)) supply
    else malloced m.tail (malloc_state m.tail 0) supply

-- The refill: `rem` is set before the result of the allocator is known.
refill : ℕ → Supply → Malloced
unfolding cut
refill count supply =
    let got = vmalloc supply in
    if got.p == 0
    then malloced 0 (malloc_state 0 page_size_bytes) got.supply
    else cut count (malloc_state got.p page_size_bytes) got.supply

unfoldable pub malloc : MallocState → Supply → (nitems size : ℕ) → Malloced
unfolding cut refill
malloc m supply nitems size =
    let count = nitems * size % u64_mod in
    if leb page_size_bytes count
    then malloced 0 m supply
    else if ltb m.rem count
    then refill count supply
    else cut count m supply
