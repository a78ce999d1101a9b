-- ===== src/Amd64/PageEnt.antt =====
-- The page table entries of mapdef.h and cr_amd64_init_page_ent() of subr_amd64.c. An entry is the
-- 64-bit word that the processor reads; the three structs are three sets of fields on it.
pub mod Laws
mod Tests
use clearram.Base.{
  ℕ, ◌+◌, ◌*◌, ◌%◌, ◌^◌, Bool, if◌then◌else◌, ◌==◌, ◌&&◌, not, bit_or, Field, field, get_field,
  set_field,
}
use clearram.Map.Layout.{ps_2m, ps_1g}

abbrev pub pe_present : ℕ
pe_present = 0x001

abbrev pub pe_read_write : ℕ
pe_read_write = 0x002

abbrev pub pe_write_through : ℕ
pe_write_through = 0x008

abbrev pub pe_cache_disable : ℕ
pe_cache_disable = 0x010

abbrev pub pe_page_size : ℕ
pe_page_size = 0x080

abbrev pub nx_disable : ℕ
nx_disable = 0

abbrev pub nx_enable : ℕ
nx_enable = 1

-- `bits` and `nx` stand at the same place in all three structs.
abbrev pub pe_bits : Field
pe_bits = field 0 9

abbrev pub pe_nx : Field
pe_nx = field 63 1

-- `pfn_base` of struct cra_page_ent, cra_page_ent_2M and cra_page_ent_1G.
abbrev pub pe_pfn_base : Field
pe_pfn_base = field 12 40

abbrev pub pe_2m_pfn_base : Field
pe_2m_pfn_base = field 21 31

abbrev pub pe_1g_pfn_base : Field
pe_1g_pfn_base = field 30 22

-- `pe_1G->pfn_base = pfn_base; pe_1G->bits |= CRA_PE_PAGE_SIZE;` and the same for 2M.
abbrev pub set_large : Field → ℕ → ℕ → ℕ
set_large f pfn_base pe =
    let pe' = set_field f pfn_base pe in
    set_field pe_bits (bit_or (get_field pe_bits pe') pe_page_size) pe'

unfoldable pub init_page_ent : (pfn_base extra_bits pages_nx level : ℕ) (map_direct : Bool) → ℕ
init_page_ent pfn_base extra_bits pages_nx level map_direct =
    let pe = set_field pe_nx pages_nx (set_field pe_bits (bit_or pe_present extra_bits) 0) in
    if map_direct && (level == 3)
    then set_large pe_1g_pfn_base pfn_base pe
    else if map_direct && (level == 2)
    then set_large pe_2m_pfn_base pfn_base pe
    else set_field pe_pfn_base pfn_base pe
