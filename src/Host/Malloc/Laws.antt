-- ===== src/Host/Malloc/Laws.antt =====
-- Where the allocations lie, and what a failure leaves behind.
use clearram.Base.{
  ltb, ◌⊎◌, inl, inr, Bool-cases, ltb→lt, ltb→le, ◌==◌, ℕ, ◌+◌, ◌-◌, ◌*◌, ◌^◌, ◌≤◌, ◌<◌, ◌≡◌, ◌≢◌,
  arith,
}
use clearram.Host.Kernel.{Supply, vmalloc}
use clearram.Host.Malloc.{MallocState, Malloced, malloc, malloced}

-- The free bytes of the current page do not wrap round the end of the address space.
abbrev pub IsRoom : MallocState → Type 0
IsRoom m = (m.rem ≤ 4096) × (m.tail + m.rem < 2 ^ 64)

-- The block `p..p + count` is the front of the free bytes `start..start + size`, and the rest of
-- these is what is free afterwards.
pub record IsFront (count start size : ℕ) (out : Malloced) : Type 0 where
  pub block : out.p ≡ start
  pub fits : count ≤ size
  pub left : out.state.rem ≡ size - count
  pub next : 0 < out.state.rem → out.state.tail ≡ start + count

-- What an allocation of `count` bytes does: less than a page that the current page has room for is
-- cut off the front of its free bytes, else off the front of a fresh page, if the allocator has
-- one, and the bytes behind it stay free; without a fresh page, and for a page or more, the result
-- is NULL, and in the latter case nothing changes.
abbrev pub Allocation : (count : ℕ) → MallocState → Supply → Malloced → Type 0
Allocation count m supply out =
    (count < 4096 × (count ≤ m.rem) × IsFront count m.tail m.rem out × (out.supply ≡ supply))
    ⊎ ((count < 4096
          × (m.rem < count)
          × ((vmalloc supply).p ≢ 0)
          × IsFront count (vmalloc supply).p 4096 out
          × (out.supply ≡ (vmalloc supply).supply))
        ⊎ ((count < 4096 × (m.rem < count) × ((vmalloc supply).p ≡ 0) × (out.p ≡ 0))
            ⊎ ((4096 ≤ count) × (out ≡ malloced 0 m supply))))

-- If the free bytes of the current page and of the next page that the allocator gives do not wrap
-- round, a call of cr_host_malloc() whose byte count fits a machine word does one of four things: less
-- than a page is cut off the front of the free bytes where it fits them, otherwise off the front of
-- a fresh page, or is refused if there is none; a page or more is refused and changes nothing.
pub malloc-Allocation :
    (m : MallocState) (supply : Supply) (nitems size : ℕ)
    → IsRoom m
    → (vmalloc supply).p + 4096 < 2 ^ 64
    → nitems * size < 2 ^ 64
    → Allocation (nitems * size) m supply (malloc m supply nitems size)
unfolding malloc
malloc-Allocation m supply nitems size room top word = elim (nat_split (nitems * size) 4096) [
  | inr large ↦ inr (inr (inr (large, ground arith)))
  | inl small ↦ elim (nat_split m.rem (nitems * size)) [
    | inr fits ↦ inl (small, fits, ground arith, ground arith)
    | inl full ↦ elim (Bool-cases ((vmalloc supply).p == 0)) [
      | inl none_left ↦ inr (inr (inl (small, full, ground arith, ground arith)))
      | inr page ↦ inr (inl (small, full, ground arith, ground arith, ground arith))
    ]
  ]
]
  where
    nat_split : (a b : ℕ) → (a < b) ⊎ (b ≤ a)
    nat_split a b = elim (Bool-cases (ltb a b)) [
      | inl e ↦ inl (ltb→lt a b e)
      | inr e ↦ inr (ltb→le a b e)
    ]

-- Once the allocator has had no page for a call of less than a page that did not fit, the next call
-- of `b` bytes fails too, and the one of `c` bytes after that returns `b`, which is no memory, if
-- both together are less than a page.
pub malloc-after_failure :
    (m : MallocState) (supply : Supply) (a b c : ℕ)
    → m.rem < a
    → a < 4096
    → (vmalloc supply).p ≡ 0
    → b + c < 4096
    → let first = malloc m supply 1 a in
      let second = malloc first.state first.supply 1 b in
      let third = malloc second.state second.supply 1 c in
      (first.p ≡ 0) × (second.p ≡ 0) × (third.p ≡ b)
unfolding malloc
malloc-after_failure m supply a b c full small none_left fits = ground arith
