-- ===== src/Amd64/Cpuid.antt =====
-- cr_amd64_cpuid_page_size_from_level() of subr_amd64.c, with the bits of amd64def.h. The instruction
-- is a parameter: what it leaves in EDX for the function in EAX.
pub mod Sizes
mod Tests
use clearram.Base.{ℕ, ◌-◌, ◌==◌, if◌then◌else◌, not, bit_and, u64_mod}
use clearram.Map.Layout.{ps_4k, ps_2m, ps_1g}

abbrev pub cpuid_func_basic_features : ℕ
cpuid_func_basic_features = 0x00000001

abbrev pub cpuid_func_ext_features : ℕ
cpuid_func_ext_features = 0x80000001

abbrev pub cpuid_feat_basic_pse : ℕ
cpuid_feat_basic_pse = 0x00000008

abbrev pub cpuid_feat_ext_pdpe1g : ℕ
cpuid_feat_ext_pdpe1g = 0x04000000

-- `features &= ~bit;`, with the sign of the int carried into the upper half.
abbrev pub without : (features bit : ℕ) → ℕ
without features bit = bit_and features (u64_mod - 1 - bit)

-- The cases fall through to the smaller sizes.
unfoldable pub page_size_from_level : (cpuid_edx : ℕ → ℕ) (level : ℕ) → ℕ
page_size_from_level cpuid_edx level =
    let features_ext = without (cpuid_edx cpuid_func_ext_features) cpuid_feat_ext_pdpe1g in
    let features_basic = without (cpuid_edx cpuid_func_basic_features) cpuid_feat_basic_pse in
    let case_2 = if not (bit_and features_basic cpuid_feat_basic_pse == 0) then ps_2m else ps_4k in
    if level == 3
    then (if not (bit_and features_ext cpuid_feat_ext_pdpe1g == 0) then ps_1g else case_2)
    else if level == 2
    then case_2
    else ps_4k
