-- ===== src/Lkm/Unmap.antt =====
-- The two loops of cr_host_lkm_init() that take pages out of the mapping of RAM: the reserved pages
-- and the pages of the image. cr_host_virt_to_phys() is a parameter, and so is
-- cr_host_map_xlate_pfn(), for each of the two kinds of page that are looked up.
pub mod Clears
pub mod Pages
pub mod Returned
mod Tests
use clearram.Base.{
  ℕ, zero, suc, [], ◌∷◌, ok, err, set_field, Result, Outcome, bit_and, List, get_field, failed,
  done, try, add64, ◌*◌, page_size_bytes, ◌%◌, u64_mod, ◌+◌,
}
use clearram.Map.Layout.{va_to_pe_idx}
use clearram.Map.Aligned.{Entries, write_entry}
use clearram.Amd64.PageEnt.{pe_bits, pe_present, pe_pfn_base}

-- `pt[pt_idx].bits &= ~CRA_PE_PRESENT;`
abbrev pub clear_present : (pe : ℕ) → ℕ
clear_present pe = set_field pe_bits (bit_and (get_field pe_bits pe) 0xfffffffe) pe

module _ (xlate_table xlate_ram : (pfn : ℕ) → Result ℕ) (pml4 : ℕ) where
  -- The loop over the levels, at `level` and the table `pt`.
  unfoldable pub clear_entry : (level pt va_page : ℕ) → Entries → Outcome Entries
  clear_entry zero pt va_page entries = done entries
  clear_entry (suc zero) pt va_page entries =
      let pt_idx = va_to_pe_idx va_page 1 in
      done (write_entry pt pt_idx (clear_present (entries pt pt_idx)) entries)
  clear_entry (suc (suc level)) pt va_page entries =
      let pt_idx = va_to_pe_idx va_page (suc (suc level)) in
      elim (xlate_table (get_field pe_pfn_base (entries pt pt_idx))) [
        | ok va_pt ↦ clear_entry (suc level) va_pt va_page entries
        | err e ↦ failed e entries
      ]

  -- The body of both loops.
  unfoldable pub unmap_frame : (pfn : ℕ) → Entries → Outcome Entries
  unmap_frame pfn entries = elim (xlate_ram pfn) [
    | ok va_page ↦ clear_entry 4 pml4 va_page entries
    | err e ↦ failed e entries
  ]

  -- `for (litem = cr_host_state.host_lrsvd.head; litem; litem = litem->next)`.
  unfoldable pub unmap_reserved : List (ℕ × ℕ) → Entries → Outcome Entries
  unmap_reserved [] entries = done entries
  unmap_reserved ((li, pfn) ∷ items) entries =
      let rest = λ (e : Entries). unmap_reserved items e in try (unmap_frame pfn entries) rest

  module _ (virt_to_phys : ℕ → ℕ) (clear_image_base : ℕ) where
    -- `for (npage = 0; npage < cr_host_state.clear_image_npages; npage++)`, with the pages left.
    unfoldable pub unmap_image : (left npage : ℕ) → Entries → Outcome Entries
    unmap_image zero npage entries = done entries
    unmap_image (suc left) npage entries =
        let pfn = virt_to_phys (add64 clear_image_base (npage * page_size_bytes % u64_mod)) in
        let rest = λ (e : Entries). unmap_image left (npage + 1) e in
        try (unmap_frame pfn entries) rest
