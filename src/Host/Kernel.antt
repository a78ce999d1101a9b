-- ===== src/Host/Kernel.antt =====
-- The kernel's page allocator, which the program only calls. cr_host_vmalloc() is modelled by the
-- results of its calls, in order: an address, or 0 where vmalloc() has no memory.
use clearram.Base.{ℕ, List, [], ◌∷◌}

abbrev pub Supply : Type 0
Supply = List ℕ

pub record Got : Type 0 where
  pub p : ℕ
  pub supply : Supply

abbrev pub vmalloc : Supply → Got
vmalloc [] = record { p = 0; supply = [] }
vmalloc (p ∷ supply) = record { p = p; supply = supply }
