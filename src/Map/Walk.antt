-- ===== src/Map/Walk.antt =====
-- The page walk of the processor, as an independent description of what page tables map: the tables
-- of Map/Aligned are followed from the entries of a level down to the entry of a 4K page. A page is
-- given by its number among the 2 ^ 36 pages of the 48-bit address space.
pub mod Tree
use clearram.Base.{
  ℕ, zero, suc, ◌+◌, ◌-◌, ◌/◌, ◌%◌, ◌^◌, Bool, if◌then◌else◌, ◌==◌, bit_and, Result, ok, err,
  get_field,
}
use clearram.Amd64.PageEnt.{pe_bits, pe_present, pe_pfn_base}
use clearram.Map.Aligned.{Entries}

abbrev pub page_of : (va : ℕ) → ℕ
page_of va = va % 2 ^ 48 / 0x1000

-- What is left of the number of a page behind the indices of the levels up to `level`.
abbrev pub above : (level page : ℕ) → ℕ
above zero page = page
above (suc level) page = above level page / 512

abbrev pub absent : (pe : ℕ) → Bool
absent pe = bit_and (get_field pe_bits pe) pe_present == 0

-- The entry of the page, or 0 where a table on the way is missing.
unfoldable pub walk : (table_at : ℕ → Result ℕ) (entries : Entries) (level table page : ℕ) → ℕ
walk table_at entries zero table page = 0
walk table_at entries (suc zero) table page = entries table (page % 512)
walk table_at entries (suc (suc level)) table page =
    let pe = entries table (above (suc level) page % 512) in
    if absent pe then 0 else elim (table_at (get_field pe_pfn_base pe)) [
      | ok next ↦ walk table_at entries (suc level) next page
      | err e ↦ 0
    ]
