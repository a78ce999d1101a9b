-- ===== src/Lkm/Init/ProgramMap.antt =====
-- The map of the program that cr_host_lkm_init() builds, from its start to the unmapping of pages.
use clearram.Base.{
  ◌≡◌, ◌||◌, ◌/◌, inl, inr, ◌+◌, ℕ, ok, WhereDone-both, WhereDone, done, failed, undefined,
  out_of_fuel, Outcome, ◌<◌, ◌≡◌, ◌^◌, true, List, ◌≤◌, ◌*◌, arith, if◌then◌else◌, Bool,
  WhereDone-try,
}
use clearram.Map.Aligned.{Tables, Entries}
use clearram.Map.Aligned.Fill.{IsCanonical}
use clearram.Map.Aligned.Descend.{mapped_at}
use clearram.Map.Aligned.Keeps.{WhereDone-try_in}
use clearram.Map.Aligned.Blocks.{frames}
use clearram.Map.Aligned.Returns.{Returns}
use clearram.Map.Walk.{page_of}
use clearram.Map.Walk.Tree.{Labels, IsOpen}
use clearram.Host.Kernel.{Supply}
use clearram.Host.PagesTree.{xlate_pfn, ptl_ram_page}
use clearram.Host.Link.{HostState}
use clearram.Host.Link.Leaves.{ram_page}
use clearram.Host.AllocPt.Lawful.{IsIn, IsSeparate, xlate_table, xlate_pfn-view}
use clearram.Host.AllocPt.HostSource.{host_source}
use clearram.Host.AllocPt.Linked.{LinksIn}
use clearram.Linux.PmapWalk.{Resource}
use clearram.Lkm.Setup.{init_tables, image_npages}
use clearram.Lkm.Unmap.Pages.{IsRooted, is_listed, AllFound, image_frames}
use clearram.Lkm.Unmap.Returned.{AllMapped, Unmapped, unmap_both-Unmapped, unmap_both-AllFound}
use clearram.Lkm.Init.{unmap_pages, map_all_pages}
use clearram.Lkm.Init.Parts.{Any}
use clearram.Lkm.Init.Returns.{map_all_pages-Returns}
use clearram.Lkm.Init.PageEntries.{is_among, entry_of-mapped}
use clearram.Lkm.Init.Stages.{
  ram, ram_source, Linkable, Stage, before_image, before_screen, at_end, map_ram-Stage,
}
use clearram.Lkm.Init.Overlays.{clone_image-Stage, map_vga-Stage}

-- A postcondition of the calls that return 0, of a call that returns.
Returns-WhereDone :
    {S : Type 0} (P : S → Type 0) (m : Outcome S) → Returns Any m → WhereDone P m → Returns P m
Returns-WhereDone P (done s) h k = k
Returns-WhereDone P (failed e s) h k = tt
Returns-WhereDone P undefined h k = h
Returns-WhereDone P out_of_fuel h k = h

among_bounds : (page p : ℕ) → is_among page 8 p ≡ true → (page ≤ p) × (p < page + 8)
among_bounds page p h = ground (arith, h)

module _ (virt_to_phys : ℕ → ℕ) (small : (va : ℕ) → virt_to_phys va < 2 ^ 40)
    (pml4 image_base size vga mask : ℕ) (children : List Resource) where
  abbrev CanLink : (pfn page : ℕ) → Type 0
  CanLink = Linkable virt_to_phys pml4 image_base size vga mask children

  abbrev AtStage : (entry : ℕ → ℕ) → Tables HostState → Type 0
  AtStage = Stage virt_to_phys pml4 image_base size vga mask children

  abbrev mapped_entry : ℕ → ℕ
  mapped_entry = at_end virt_to_phys pml4 image_base size vga mask children

  -- The pages at which the frames that the two loops take out are linked as pages of RAM: the frames
  -- of the list of reserved pages, and those of the image.
  abbrev pub taken : Tables HostState → ℕ → Bool
  taken u p =
      let listed = is_listed (xlate_pfn u.host.host_pages_tree ptl_ram_page) in
      listed u.host.host_lrsvd.items p
      || listed (image_frames virt_to_phys image_base (image_npages size) 0) p

  -- Each page has its entry, those that are taken out without the present bit. Each frame that is linked
  -- as a page of RAM is so at a page that the map of RAM or of the screen gives this frame, and all the
  -- frames of the list of reserved pages and of the image are linked.
  pub IsProgramMap : Tables HostState → Type 0
  IsProgramMap u =
      let ram_at = xlate_pfn u.host.host_pages_tree ptl_ram_page in
      ((p : ℕ)
        → IsOpen p
        → mapped_at (ram_source virt_to_phys) pml4 u p
          ≡ (if taken u p then mapped_entry p / 2 * 2 else mapped_entry p))
      × ((pfn va : ℕ) → ram_at pfn ≡ ok va → CanLink pfn (page_of va))
      × AllFound ram_at u.host.host_lrsvd.items
      × AllFound ram_at (image_frames virt_to_phys image_base (image_npages size) 0)

  module _
      (room : frames (ram virt_to_phys pml4 image_base size vga mask children) ≤ 0x1f0 * 2 ^ 27)
      (screen_open : (p : ℕ) → page_of vga ≤ p → p < page_of vga + 8 → IsOpen p) where
    linkable-IsOpen : (pfn p : ℕ) → CanLink pfn p → IsOpen p
    linkable-IsOpen pfn p (inl (below, here)) =
        (omega (arith, below, room), λ e. omega (arith, e, below, room))
    linkable-IsOpen pfn p (inr (screen, here)) =
        let (low, high) = among_bounds (page_of vga) p screen in screen_open p low high

    all_mapped :
        (w : Tables HostState) (lab : Labels)
        → LinksIn CanLink w.host
        → ((p : ℕ) → IsOpen p → mapped_at (ram_source virt_to_phys) pml4 w p ≡ mapped_entry p)
        → AllMapped
            (λ pfn. xlate_table pfn w.host)
            (xlate_pfn w.host.host_pages_tree ptl_ram_page)
            pml4
            lab
            w.entries
    unfolding host_source
    all_mapped w lab within entries pfn va e =
        let can_link = within pfn va (xlate_pfn-view ram_page pfn va w.host e) in
        let is_open = linkable-IsOpen pfn (page_of va) can_link in
        (
          is_open,
          rw (entries (page_of va) is_open) (
              entry_of-mapped (ram virt_to_phys pml4 image_base size vga mask children) virt_to_phys
                image_base (image_npages size) vga pfn (page_of va) can_link),
        )

    unmap_pages-IsProgramMap :
        (w : Tables HostState)
        → AtStage mapped_entry w
        → WhereDone IsProgramMap (unmap_pages virt_to_phys pml4 image_base size vga mask children w)
    unfolding unmap_pages host_source xlate_table IsProgramMap
    unmap_pages-IsProgramMap w (lab, sound, within, entries) =
        let ram_at = xlate_pfn w.host.host_pages_tree ptl_ram_page in
        let listed = is_listed ram_at in
        let rooted : IsRooted (λ pfn. xlate_table pfn w.host) ram_at pml4 lab w.entries = record {
          tree = sound.tree;
          root_level = sound.root_level;
          root_place = sound.root_place;
        } in
        let image = image_frames virt_to_phys image_base (image_npages size) 0 in
        let Cleared =
          Unmapped (λ pfn. xlate_table pfn w.host) ram_at pml4 lab (taken w) w.entries in
        let Found =
          λ (e : Entries). AllFound ram_at w.host.host_lrsvd.items × AllFound ram_at image in
        WhereDone-try_in (λ (e : Entries). Cleared e × Found e) IsProgramMap _ _ _
          (WhereDone-both Cleared Found _
            (unmap_both-Unmapped (λ pfn. xlate_table pfn w.host) ram_at pml4 lab
              w.host.host_lrsvd.items virt_to_phys image_base (image_npages size) w.entries rooted
              (all_mapped w lab within entries))
            (unmap_both-AllFound (λ pfn. xlate_table pfn w.host) ram_at pml4 w.host.host_lrsvd.items
              virt_to_phys image_base (image_npages size) w.entries))
          (λ e (unmapped, (reserved, image_found)). (
            λ p is_open. rw (← entries p is_open) (unmapped.2 p is_open),
            λ pfn va at. within pfn va (xlate_pfn-view ram_page pfn va w.host at),
            reserved,
            image_found,
          ))

  module _ (supply : Supply) where
    pub map_all_pages-IsProgramMap :
        IsSeparate virt_to_phys supply
        → 0 < pml4
        → (IsIn pml4 supply → ⊥)
        → frames (ram virt_to_phys pml4 image_base size vga mask children) ≤ 0x1f0 * 2 ^ 27
        → IsCanonical image_base
        → ((p : ℕ) → page_of image_base ≤ p → p < page_of image_base + image_npages size → IsOpen p)
        → IsCanonical vga
        → ((p : ℕ) → page_of vga ≤ p → p < page_of vga + 8 → IsOpen p)
        → Returns IsProgramMap (
            map_all_pages virt_to_phys pml4 image_base size vga mask children
              (init_tables virt_to_phys pml4 supply))
    unfolding map_all_pages
    map_all_pages-IsProgramMap separate pos own room canonical image_open vga_canonical
          screen_open =
        let t = init_tables virt_to_phys pml4 supply in
        Returns-WhereDone IsProgramMap
          (map_all_pages virt_to_phys pml4 image_base size vga mask children t)
          (map_all_pages-Returns virt_to_phys pml4 image_base size vga mask children t)
          (WhereDone-try
            (AtStage (before_image virt_to_phys pml4 image_base size vga mask children))
            IsProgramMap _ _
            (map_ram-Stage virt_to_phys pml4 image_base size vga mask children supply separate pos
              own room)
            (λ u mapped.
              WhereDone-try
                (AtStage (before_screen virt_to_phys pml4 image_base size vga mask children))
                IsProgramMap _ _
                (clone_image-Stage virt_to_phys small pml4 image_base size vga mask children
                  canonical image_open u mapped)
                (λ v cloned.
                  WhereDone-try (AtStage mapped_entry) IsProgramMap _ _
                    (map_vga-Stage virt_to_phys small pml4 image_base size vga mask children
                      vga_canonical screen_open v cloned)
                    (λ w shown. unmap_pages-IsProgramMap room screen_open w shown))))
