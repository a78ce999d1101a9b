-- ===== src/Lkm/Init/Stages.antt =====
-- The three mappings of cr_host_lkm_init(), one behind the other: where each returns 0, what the pages
-- map, and where the pages lie that are linked as pages of RAM.
use clearram.Base.{
  Option, ◌+◌, ◌∙◌, ℕ, ==_refl, WhereDone, none, some, inl, ◌<◌, ◌≡◌, ◌^◌, arith, List, ap, ◌≤◌,
  ◌*◌, WhereDone-mono, ◌+◌, WhereDone-both, WhereDone-Ends, ◌%◌,
}
use clearram.Map.Aligned.{Tables}
use clearram.Map.Aligned.Source.{Source}
use clearram.Map.Aligned.Route.{IsSound}
use clearram.Map.Aligned.Descend.{mapped_at}
use clearram.Map.Aligned.Blocks.{frames, frame_at, mapper, LaysOut, map_all-LaysOut}
use clearram.Map.Aligned.BlocksKeep.{map_all-kept}
use clearram.Map.Unaligned.Spec.{map_all}
use clearram.Map.Walk.{page_of}
use clearram.Map.Walk.Tree.{Labels, IsOpen}
use clearram.Host.Kernel.{Supply}
use clearram.Host.PagesTree.{leaf_at}
use clearram.Host.Link.{HostState, link_ram_page}
use clearram.Host.Link.Leaves.{ram_page}
use clearram.Host.Link.View.{view}
use clearram.Host.AllocPt.Lawful.{IsIn, IsSeparate, xlate_table}
use clearram.Host.AllocPt.HostSource.{host_source, rsvd_source}
use clearram.Host.AllocPt.Linked.{LinksIn, link_ram_page-LinksIn, alloc_pt-LinksIn}
use clearram.Linux.PmapWalk.{Resource, sections}
use clearram.Lkm.MapRam.{map_ram}
use clearram.Lkm.MapRam.Laws.{ram_blocks, map_ram-map_all}
use clearram.Lkm.RamMapped.{from_zero, ram_blocks-AllBlocks}
use clearram.Lkm.Setup.{init_tables, init_host, image_npages}
use clearram.Lkm.Setup.Start.{init_tables-IsSound, init_tables-empty, root_labels}
use clearram.Lkm.Init.{map_aligned}
use clearram.Lkm.Init.PageEntries.{
  ram_entry, entry_of_ram, entry_with_image, entry_of, IsLinkable, IsLinkable-same_key,
}

linked : Option ℕ → ℕ
linked none = 0
linked (some va) = 1

-- No page is linked at the start.
none_linked : (supply : Supply) (pfn va : ℕ) → view (init_host supply) ram_page pfn ≡ some va → ⊥
unfolding leaf_at linked
none_linked supply pfn va e = omega (arith, ap linked e)

pub ram_bits_fit : 0x12 < 2 ^ 9
ram_bits_fit = omega arith

pub ram_nx_fits : 1 < 2
ram_nx_fits = omega arith

pub image_bits_fit : 0xa < 2 ^ 9
image_bits_fit = omega arith

pub image_nx_fits : 0 < 2
image_nx_fits = omega arith

-- The functions of the host for the pages of RAM, and those for the image.
abbrev pub ram_source : (virt_to_phys : ℕ → ℕ) → Source HostState
ram_source virt_to_phys = host_source virt_to_phys 0x12 1 ram_bits_fit ram_nx_fits

abbrev pub image_source : (virt_to_phys : ℕ → ℕ) → Source HostState
image_source virt_to_phys = rsvd_source virt_to_phys 0xa 0 image_bits_fit image_nx_fits

module _ (virt_to_phys : ℕ → ℕ) (pml4 image_base size vga mask : ℕ) (children : List Resource) where
  abbrev pub ram : List (ℕ × ℕ)
  ram = ram_blocks (sections mask children)

  abbrev pub Linkable : (pfn page : ℕ) → Type 0
  Linkable = IsLinkable ram virt_to_phys image_base (image_npages size) vga

  -- Tables that form a tree and give the entries `entry` to the pages.
  abbrev pub Stage : (entry : ℕ → ℕ) → Tables HostState → Type 0
  Stage entry u =
      (lab : Labels) × IsSound (ram_source virt_to_phys) pml4 lab u
      × LinksIn Linkable u.host
      × ((p : ℕ) → IsOpen p → mapped_at (ram_source virt_to_phys) pml4 u p ≡ entry p)

  abbrev pub before_image : ℕ → ℕ
  before_image = entry_of_ram ram virt_to_phys image_base (image_npages size) vga

  abbrev pub before_screen : ℕ → ℕ
  before_screen = entry_with_image ram virt_to_phys image_base (image_npages size) vga

  abbrev pub at_end : ℕ → ℕ
  at_end = entry_of ram virt_to_phys image_base (image_npages size) vga

  module _ (supply : Supply) (separate : IsSeparate virt_to_phys supply) (pos : 0 < pml4)
      (own : IsIn pml4 supply → ⊥) (room : frames ram ≤ 0x1f0 * 2 ^ 27) where
    abbrev start : Tables HostState
    start = init_tables virt_to_phys pml4 supply

    start-IsSound : IsSound (ram_source virt_to_phys) pml4 (root_labels pml4) start
    start-IsSound =
        init_tables-IsSound virt_to_phys 0x12 1 ram_bits_fit ram_nx_fits pml4 supply separate pos
          own

    start-LinksIn : LinksIn Linkable start.host
    unfolding init_tables
    start-LinksIn pfn va e = absurd (none_linked supply pfn va e)

    ram-IsOpen :
        (p : ℕ) → page_of start.va_base ≤ p → p < page_of start.va_base + frames ram → IsOpen p
    unfolding init_tables
    ram-IsOpen p low high = (omega (arith, high, room), λ e. omega (arith, e, high, room))

    ram_kept :
        WhereDone
          (λ u. LinksIn Linkable u.host)
          (map_all (mapper (ram_source virt_to_phys) pml4 0x12 1) ram start)
    unfolding host_source init_tables
    ram_kept =
        map_all-kept (ram_source virt_to_phys) pml4 0x12 1 (LinksIn Linkable) Linkable
          (λ pfn va h linkable within.
            link_ram_page-LinksIn Linkable pfn va h
              (IsLinkable-same_key ram virt_to_phys image_base (image_npages size) vga) linkable
              within)
          (λ va level table idx t within.
            alloc_pt-LinksIn Linkable virt_to_phys 0x12 1 va level table idx t within)
          ram (root_labels pml4) start (ram_blocks-AllBlocks mask children) (inl (omega arith))
          ram-IsOpen
          (λ i below.
            let page : page_of start.va_base + i ≡ i = omega arith in
            rw page (inl (below, ==_refl (frame_at ram i % 2 ^ 36))))
          start-IsSound start-LinksIn

    pub map_ram-Stage : WhereDone (Stage before_image) (
        map_ram
          (map_aligned virt_to_phys pml4 image_base size vga mask children 0x12 1 link_ram_page)
          mask
          children
          start)
    unfolding host_source xlate_table init_tables
    map_ram-Stage =
        rw (map_ram-map_all (mapper (ram_source virt_to_phys) pml4 0x12 1) mask children start) (
          WhereDone-mono
            (λ u.
              LinksIn Linkable u.host × LaysOut (ram_source virt_to_phys) pml4 0x12 1 ram start u)
            (Stage before_image) (map_all (mapper (ram_source virt_to_phys) pml4 0x12 1) ram start)
            (λ u (within, (lab, sound, va, laid)). (
              lab,
              sound,
              within,
              λ p op.
                  laid p op
                  ∙ rw
                      (init_tables-empty virt_to_phys 0x12 1 ram_bits_fit ram_nx_fits pml4 supply
                        separate pos own p op)
                      (from_zero p (frames ram) (λ i. ram_entry (frame_at ram i))),
            ))
            (WhereDone-both (λ u. LinksIn Linkable u.host)
              (LaysOut (ram_source virt_to_phys) pml4 0x12 1 ram start)
              (map_all (mapper (ram_source virt_to_phys) pml4 0x12 1) ram start) ram_kept
              (WhereDone-Ends (LaysOut (ram_source virt_to_phys) pml4 0x12 1 ram start)
                (LaysOut (ram_source virt_to_phys) pml4 0x12 1 ram start) (λ u. Unit {0})
                (map_all (mapper (ram_source virt_to_phys) pml4 0x12 1) ram start) (λ u laid. laid)
                (map_all-LaysOut (ram_source virt_to_phys) pml4 0x12 1 ram (root_labels pml4) start
                  (ram_blocks-AllBlocks mask children) (inl (omega arith)) ram-IsOpen
                  start-IsSound))))
