-- ===== src/Lkm/Init.antt =====
-- cr_host_lkm_init() of clearram.c as a whole: its parts in their order, with the error path. What
-- the kernel gives is a parameter: the pages, the resources, the translation of addresses, and the
-- results of the three functions behind the device. cr_host_map_free(), which is called on an
-- error, does nothing.
pub mod Parts
pub mod PageEntries
pub mod Stages
pub mod Overlays
pub mod ProgramMap
pub mod Builds
pub mod Returns
mod Tests
use clearram.Base.{
  ℕ, bit_or, Outcome, done, failed, undefined, out_of_fuel, try, Option, some, none, Errno, enomem,
  esrch, einval, ◌+◌, List,
}
use clearram.Map.Layout.{lvl_pt}
use clearram.Amd64.PageEnt.{
  pe_read_write, pe_write_through, pe_cache_disable, nx_enable, nx_disable,
}
use clearram.Amd64.Descriptors.{Table, cleared, init_gdt, init_idt}
use clearram.Host.Kernel.{Supply}
use clearram.Host.PagesTree.{xlate_pfn, ptl_page_table, ptl_ram_page}
use clearram.Host.Link.{HostState, link_ram_page, link_rsvd_page}
use clearram.Host.AllocPt.{alloc_pt}
use clearram.Linux.PmapWalk.{Resource}
use clearram.Linux.Cdev.{Value, error, Cdev, Returned, cdev_init}
use clearram.Map.Aligned.{Tables, Params, try_in, map_pages_aligned}
use clearram.Map.Aligned.Fill.{params_4k}
use clearram.Map.Unaligned.{map_pages_unaligned}
use clearram.Map.Clone.{map_pages_clone4k}
use clearram.Lkm.MapRam.{map_ram}
use clearram.Lkm.Setup.{image_npages, init_tables}
use clearram.Lkm.Unmap.{unmap_reserved, unmap_image}

-- CRHS_VGA_PFN_BASE and CRHS_VGA_PAGES.
abbrev pub vga_pfn_base : ℕ
vga_pfn_base = 0xb8

abbrev pub vga_pages : ℕ
vga_pages = 8

abbrev pub errno_of : Errno → ℕ
errno_of enomem = 12
errno_of esrch = 3
errno_of einval = 22

-- What is left behind the call.
pub record Loaded : Type 0 where
  pub err : Value
  pub tables : Tables HostState
  pub clear_gdt : Table
  pub clear_idt : Table
  pub cdev : Cdev

module _ (virt_to_phys : ℕ → ℕ) (clear_pml4 clear_image_base core_layout_size clear_vga : ℕ)
    (flags_mask : ℕ) (children : List Resource) where
  -- cr_amd64_map_pages_aligned() for 4K pages with the functions of the host.
  abbrev pub map_aligned :
      (extra_bits pages_nx : ℕ) (link : (pfn va : ℕ) → HostState → Outcome HostState)
      (base limit : ℕ)
      → Tables HostState
      → Outcome (Tables HostState)
  map_aligned extra_bits pages_nx link base limit t =
      map_pages_aligned (params_4k extra_bits pages_nx) link
        (alloc_pt virt_to_phys extra_bits pages_nx)
        (λ pfn h. xlate_pfn h.host_pages_tree ptl_page_table pfn) limit clear_pml4 base t

  abbrev pub ram_bits : ℕ
  ram_bits = bit_or pe_read_write pe_cache_disable

  abbrev pub image_bits : ℕ
  image_bits = bit_or pe_read_write pe_write_through

  unfoldable pub clone_image : Tables HostState → Outcome (Tables HostState)
  clone_image t =
      try_in
        (map_pages_clone4k image_bits nx_disable link_rsvd_page
          (alloc_pt virt_to_phys image_bits nx_disable)
          (λ pfn h. xlate_pfn h.host_pages_tree ptl_page_table pfn) virt_to_phys clear_pml4
          clear_image_base none (image_npages core_layout_size) t)
        (λ c. c.tables) (λ c. done c.tables)

  -- `va_vga` is a variable of its own in the place of `clear_va_top`.
  unfoldable pub map_vga : Tables HostState → Outcome (Tables HostState)
  map_vga t =
      let back = λ (u : Tables HostState). record u { va_base = t.va_base } in
      try_in
        (map_pages_unaligned (map_aligned ram_bits nx_enable link_ram_page) vga_pfn_base
          (vga_pfn_base + vga_pages) lvl_pt (record t { va_base = clear_vga }))
        back (λ u. done (back u))

  -- Both loops that unmap pages, on the tree as the mapping has left it.
  unfoldable pub unmap_pages : Tables HostState → Outcome (Tables HostState)
  unmap_pages t =
      let xlate = λ (type pfn : ℕ). xlate_pfn t.host.host_pages_tree type pfn in
      let table_at = xlate ptl_page_table in
      let ram_at = xlate ptl_ram_page in
      let with_entries = λ (e : ℕ → ℕ → ℕ). record t { entries = e } in
      try_in
        (try (unmap_reserved table_at ram_at clear_pml4 t.host.host_lrsvd.items t.entries) λ e.
          unmap_image table_at ram_at clear_pml4 virt_to_phys clear_image_base
            (image_npages core_layout_size) 0 e)
        with_entries (λ e. done (with_entries e))

  unfoldable pub map_all_pages : Tables HostState → Outcome (Tables HostState)
  map_all_pages t =
      try (map_ram (map_aligned ram_bits nx_enable link_ram_page) flags_mask children t)
        λ u. try (clone_image u) λ v. try (map_vga v) λ w. unmap_pages w

  module _ (clear_exc_handlers_base : ℕ) (major class device : Value) where
    -- The parts behind the mapping. The functions for the two tables return 0.
    abbrev pub start_device : Tables HostState → Cdev → Option Loaded
    start_device t s = elim (cdev_init major class device s) [
      | none ↦ none
      | some r ↦ some (record {
        err = r.ret;
        tables = t;
        clear_gdt = init_gdt;
        clear_idt = init_idt clear_exc_handlers_base;
        cdev = r.state;
      })
    ]

    -- The error path, `goto fail`, and the rest of the code. No result stands for a call that does not
    -- return.
    abbrev pub behind_mapping : Cdev → Outcome (Tables HostState) → Option Loaded
    behind_mapping s (done t) = start_device t s
    behind_mapping s (failed e t) = some (record {
      err = error (errno_of e);
      tables = t;
      clear_gdt = cleared;
      clear_idt = cleared;
      cdev = s;
    })
    behind_mapping s undefined = none
    behind_mapping s out_of_fuel = none

    unfoldable pub lkm_init : Supply → Cdev → Option Loaded
    lkm_init supply s =
        behind_mapping s (map_all_pages (init_tables virt_to_phys clear_pml4 supply))
