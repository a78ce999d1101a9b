-- ===== src/Host/Link/Total.antt =====
-- Linking a page succeeds while the kernel has memory: at most five pages are taken, for three nodes
-- of the tree, a page of leaves and a page of the list.
use clearram.Base.{ℕ, zero, suc, ◌+◌, ◌^◌, ◌<◌, ◌≤◌}
use clearram.Host.Kernel.{Supply, vmalloc}
use clearram.Host.Malloc.{MallocState}
use clearram.Host.Link.{HostState}

-- The next `n` calls of the allocator give pages.
abbrev pub IsSupplied : ℕ → Supply → Type 0
IsSupplied zero s = Unit {0}
IsSupplied (suc n) s =
    (0 < (vmalloc s).p) × ((vmalloc s).p + 4096 < 2 ^ 64) × IsSupplied n (vmalloc s).supply

-- The free bytes of the page of leaves are memory.
pub record IsMemory (m : MallocState) : Type 0 where
  pub room : m.rem ≤ 4096
  pub start : 0 < m.rem → 0 < m.tail
  pub top : m.tail + m.rem < 2 ^ 64

-- What a later call needs.
abbrev pub IsReady : ℕ → HostState → Type 0
IsReady n st = IsMemory st.host_malloc_state × IsSupplied n st.supply

abbrev pub Never : HostState → Type 0
Never st = ⊥
