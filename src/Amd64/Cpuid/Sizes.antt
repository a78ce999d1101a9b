-- ===== src/Amd64/Cpuid/Sizes.antt =====
-- The page size of a level.
use clearram.Base.{ℕ, ◌-◌, ◌^◌, ◌≡◌, bit_and, arith}
use clearram.Base.Bits.{bit_and_digit, bit_and_field}
use clearram.Map.Layout.{ps_4k}
use clearram.Amd64.Cpuid.{
  page_size_from_level, without, cpuid_feat_basic_pse, cpuid_feat_ext_pdpe1g,
}

pdpe1g_gone :
    (features : ℕ) → bit_and (without features cpuid_feat_ext_pdpe1g) cpuid_feat_ext_pdpe1g ≡ 0
pdpe1g_gone features =
    let masked = without features cpuid_feat_ext_pdpe1g in
    omega (arith, bit_and_field 26 1 masked, bit_and_digit 26 features (2 ^ 64 - 1 - 2 ^ 26))

pse_gone : (features : ℕ) → bit_and (without features cpuid_feat_basic_pse) cpuid_feat_basic_pse ≡ 0
pse_gone features =
    let masked = without features cpuid_feat_basic_pse in
    omega (arith, bit_and_field 3 1 masked, bit_and_digit 3 features (2 ^ 64 - 1 - 2 ^ 3))

-- Whatever features the processor reports, the page size of every level is that of 4K pages.
pub page_size_from_level_lem :
    (cpuid_edx : ℕ → ℕ) (level : ℕ) → page_size_from_level cpuid_edx level ≡ ps_4k
unfolding page_size_from_level
page_size_from_level_lem cpuid_edx level =
    rw (pdpe1g_gone (cpuid_edx 0x80000001), pse_gone (cpuid_edx 0x00000001)) (ground arith)
