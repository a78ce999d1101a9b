-- ===== src/Amd64/Cpuid/Tests.antt =====
-- A processor that reports both page sizes.
use clearram.Base.{ℕ, ◌≡◌, refl}
use clearram.Amd64.Cpuid.{page_size_from_level}

abbrev all_features : ℕ → ℕ
all_features eax = 0xffffffff

huge_pages_run : page_size_from_level all_features 3 ≡ 1
unfolding page_size_from_level
huge_pages_run = refl
