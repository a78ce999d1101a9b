-- ===== src/Lkm/Setup.antt =====
-- The start of cr_host_lkm_init(): the pages of the image, the entry of the PML4 that leads to the
-- PML4 itself, and the parts of struct cr_host_state that the mapping begins with. The static
-- variables of the module are zero before. cr_host_virt_to_phys() is a parameter.
pub mod Start
use clearram.Base.{ℕ, bit_or, ◌/◌, page_size_bytes, false, if◌then◌else◌, ◌%◌, ◌==◌, ◌+◌}
use clearram.Amd64.PageEnt.{init_page_ent, pe_read_write, pe_write_through, nx_enable}
use clearram.Map.Layout.{lvl_pml4}
use clearram.Map.Aligned.{Entries, Tables, write_entry}
use clearram.Host.Kernel.{Supply}
use clearram.Host.Malloc.{malloc_state}
use clearram.Host.ReservedList.{list_init}
use clearram.Host.PagesTree.{no_pointer}
use clearram.Host.Link.{HostState}

-- `size / PAGE_SIZE`, and one more where there is a remainder.
abbrev pub image_npages : (core_layout_size : ℕ) → ℕ
image_npages size =
    let npages = size / page_size_bytes in
    if (size % page_size_bytes) == 0 then npages else npages + 1

-- sizeof(struct crh_lrsvd_item).
abbrev pub sizeof_lrsvd_item : ℕ
sizeof_lrsvd_item = 8

abbrev pub init_host : Supply → HostState
init_host supply = record {
  host_pages_tree = no_pointer;
  host_malloc_state = malloc_state 0 0;
  host_lrsvd = list_init sizeof_lrsvd_item;
  supply = supply;
}

-- With `clear_va_top` as the address that the RAM is mapped at.
unfoldable pub init_tables : (virt_to_phys : ℕ → ℕ) (clear_pml4 : ℕ) → Supply → Tables HostState
init_tables virt_to_phys clear_pml4 supply =
    let self =
      init_page_ent (virt_to_phys clear_pml4) (bit_or pe_read_write pe_write_through) nx_enable
        lvl_pml4 false in
    record {
      entries = write_entry clear_pml4 0x1f0 self (λ q j. 0);
      va_base = 0;
      host = init_host supply;
    }
