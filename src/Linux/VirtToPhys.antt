-- ===== src/Linux/VirtToPhys.antt =====
-- cr_host_virt_to_phys() of subr_Linux.c. The kernel's page tables are the parameters: the entries
-- that pud_offset(), pmd_offset() and pte_offset_map() find for an address.
pub mod Translates
mod Tests
use clearram.Base.{ℕ, ◌*◌, if◌then◌else◌, ◌^◌, not, bit_and, ◌%◌, ◌==◌, u64_mod, bit_or, get_field}
use clearram.Map.Layout.{va_to_pe_idx, ps_2m}
use clearram.Amd64.PageEnt.{pe_pfn_base, pe_2m_pfn_base, pe_1g_pfn_base}

-- _PAGE_PSE of the kernel.
abbrev pub page_pse : ℕ
page_pse = 0x80

-- `pfn << k` of a `uintptr_t`.
abbrev pub shl : ℕ → ℕ → ℕ
shl a k = a * 2 ^ k % u64_mod

unfoldable pub virt_to_phys : (pud pmd pte : ℕ → ℕ) → (va : ℕ) → ℕ
virt_to_phys pud pmd pte va =
    if not (bit_and (pud va) page_pse == 0)
    then bit_or (bit_or (shl (get_field pe_1g_pfn_base (pud va)) 18) (va_to_pe_idx va 2 * ps_2m))
        (va_to_pe_idx va 1)
    else if not (bit_and (pmd va) page_pse == 0)
    then bit_or (shl (get_field pe_2m_pfn_base (pmd va)) 9) (va_to_pe_idx va 1)
    else get_field pe_pfn_base (pte va)
