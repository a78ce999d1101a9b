-- ===== src/Base/Word.antt =====
-- Machine words: 64-bit addresses, sizes and page frame numbers, with their wrap-around.
use Prim.Native.Nat.{ℕ, ◌+◌, ◌-◌, ◌/◌, ◌%◌, ◌^◌}

abbrev pub u64_mod : ℕ
u64_mod = 2 ^ 64

-- `a + b`, `a - b` and `-a` of `uintptr_t` and `size_t`.
abbrev pub add64 : ℕ → ℕ → ℕ
add64 a b = (a + b) % u64_mod

abbrev pub sub64 : ℕ → ℕ → ℕ
sub64 a b = (a + u64_mod - b) % u64_mod

abbrev pub neg64 : ℕ → ℕ
neg64 a = sub64 0 a

-- The same of `unsigned int`.
abbrev pub u32_mod : ℕ
u32_mod = 2 ^ 32

abbrev pub add32 : ℕ → ℕ → ℕ
add32 a b = (a + b) % u32_mod

abbrev pub sub32 : ℕ → ℕ → ℕ
sub32 a b = (a + u32_mod - b) % u32_mod

abbrev pub page_size_bytes : ℕ
page_size_bytes = 0x1000

-- `a >> k`.
abbrev pub shr : ℕ → ℕ → ℕ
shr a k = a / 2 ^ k
