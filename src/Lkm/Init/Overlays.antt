-- ===== src/Lkm/Init/Overlays.antt =====
-- The mappings of cr_host_lkm_init() behind that of RAM: the pages of the image and the text screen.
use clearram.Base.{
  ◌∙◌, ltb, ==_refl, ◌%◌, ◌+◌, ◌-◌, [], ◌∷◌, ℕ, WhereDone, refl, none, inl, inr, ◌<◌, ◌^◌, List,
  ◌≤◌, ◌+◌, WhereDone-both, ◌≡◌, arith, true, if◌then◌else◌, WhereDone-Ends, Bool-cases,
}
use clearram.Map.Aligned.{Tables}
use clearram.Map.Aligned.Fill.{IsCanonical}
use clearram.Map.Aligned.Route.{IsSound, IsSound-at_address}
use clearram.Map.Aligned.Keeps.{WhereDone-try_in}
use clearram.Map.Aligned.Blocks.{mapper, LaysOut, map_all-LaysOut, frames, frame_at}
use clearram.Map.Aligned.BlocksKeep.{map_all-kept}
use clearram.Map.Clone.{Cloned, map_pages_clone4k}
use clearram.Map.Clone.Copies.{CloneEnds, map_pages_clone4k-CloneEnds}
use clearram.Map.Clone.Keeps.{map_pages_clone4k-kept}
use clearram.Map.Unaligned.{map_pages_unaligned}
use clearram.Map.Unaligned.Spec.{map_all, blocks_4k}
use clearram.Map.Unaligned.Passes.{map_pages_unaligned-map_all}
use clearram.Map.Walk.{page_of}
use clearram.Map.Walk.Tree.{Labels, IsOpen}
use clearram.Host.Link.Leaves.{same_key}
use clearram.Host.Link.{HostState, link_rsvd_page}
use clearram.Host.AllocPt.{alloc_pt}
use clearram.Host.AllocPt.Lawful.{xlate_table}
use clearram.Host.AllocPt.HostSource.{host_source, rsvd_source}
use clearram.Host.AllocPt.Linked.{
  LinksIn, link_ram_page-LinksIn, link_rsvd_page-LinksIn, alloc_pt-LinksIn,
}
use clearram.Linux.PmapWalk.{Resource}
use clearram.Lkm.Setup.{image_npages}
use clearram.Lkm.Init.{clone_image, map_vga}
use clearram.Lkm.Init.PageEntries.{ram_entry, is_among, IsLinkable-same_key}
use clearram.Lkm.Init.Stages.{
  ram, Linkable, Stage, before_image, before_screen, at_end, ram_source, image_source,
}

among : (page p : ℕ) → page ≤ p → p < page + 8 → is_among page 8 p ≡ true
among page p low high = ground arith

screen_frame :
    (page p : ℕ)
    → is_among page 8 p ≡ true
    → frame_at ((0xb8, 0xc0) ∷ []) (p - page) ≡ 0xb8 + (p - page)
screen_frame page p h = ground arith

screen_linked :
    (page i : ℕ)
    → i < frames ((0xb8, 0xc0) ∷ [])
    → (is_among page 8 (page + i) ≡ true)
      × (same_key (0xb8 + (page + i - page)) (frame_at ((0xb8, 0xc0) ∷ []) i) ≡ true)
screen_linked page i below =
    let offset : page + i - page ≡ i = omega arith in
    (
      among page (page + i) (omega arith) (omega arith),
      rw offset
          (let first : ltb i 8 ≡ true = ground arith in rw first (==_refl ((0xb8 + i) % 2 ^ 36))),
    )

module _ (virt_to_phys : ℕ → ℕ) (small : (va : ℕ) → virt_to_phys va < 2 ^ 40)
    (pml4 image_base size vga mask : ℕ) (children : List Resource) where
  abbrev CanLink : (pfn page : ℕ) → Type 0
  CanLink = Linkable virt_to_phys pml4 image_base size vga mask children

  abbrev AtStage : (entry : ℕ → ℕ) → Tables HostState → Type 0
  AtStage = Stage virt_to_phys pml4 image_base size vga mask children

  abbrev with_ram : ℕ → ℕ
  with_ram = before_image virt_to_phys pml4 image_base size vga mask children

  abbrev with_image : ℕ → ℕ
  with_image = before_screen virt_to_phys pml4 image_base size vga mask children

  -- The two sources have the same tables.
  to_image :
      (lab : Labels) (u : Tables HostState)
      → IsSound (ram_source virt_to_phys) pml4 lab u
      → IsSound (image_source virt_to_phys) pml4 lab u
  unfolding host_source rsvd_source
  to_image lab u sound = record {
    valid = sound.valid;
    tree = sound.tree;
    used = sound.used;
    root_level = sound.root_level;
    root_place = sound.root_place;
  }

  from_image :
      (lab : Labels) (u : Tables HostState)
      → IsSound (image_source virt_to_phys) pml4 lab u
      → IsSound (ram_source virt_to_phys) pml4 lab u
  unfolding host_source rsvd_source
  from_image lab u sound = record {
    valid = sound.valid;
    tree = sound.tree;
    used = sound.used;
    root_level = sound.root_level;
    root_place = sound.root_place;
  }

  module _ (canonical : IsCanonical image_base)
      (op : (p : ℕ)
        → page_of image_base ≤ p
        → p < page_of image_base + image_npages size
        → IsOpen p) where
    abbrev Copied : (before : Tables HostState) (after : Cloned HostState) → Type 0
    Copied before after =
        LinksIn CanLink after.tables.host
        × CloneEnds (image_source virt_to_phys) pml4 0xa 0 virt_to_phys small (image_npages size)
            image_base image_base none before after

    copied :
        (u : Tables HostState)
        → AtStage with_ram u
        → WhereDone (Copied u) (
            map_pages_clone4k 0xa 0 link_rsvd_page
              (alloc_pt virt_to_phys 0xa 0)
              xlate_table
              virt_to_phys
              pml4
              image_base
              none
              (image_npages size)
              u)
    unfolding rsvd_source
    copied u (lab, sound, within, entries) =
        let rsvd = image_source virt_to_phys in
        let call =
          map_pages_clone4k 0xa 0 link_rsvd_page (alloc_pt virt_to_phys 0xa 0) xlate_table
            virt_to_phys pml4 image_base none (image_npages size) u in
        let Copies =
          CloneEnds rsvd pml4 0xa 0 virt_to_phys small (image_npages size) image_base image_base
            none u in
        WhereDone-both (λ c. LinksIn CanLink c.tables.host) Copies call
          (map_pages_clone4k-kept 0xa 0 link_rsvd_page (alloc_pt virt_to_phys 0xa 0) xlate_table
            (LinksIn CanLink) (λ pfn va h held. link_rsvd_page-LinksIn CanLink pfn va h held)
            (λ va level table idx t held.
              alloc_pt-LinksIn CanLink virt_to_phys 0xa 0 va level table idx t held)
            virt_to_phys pml4 image_base none (image_npages size) u within)
          (WhereDone-Ends Copies Copies (λ c. Unit {0}) call (λ c ends. ends)
            (map_pages_clone4k-CloneEnds rsvd pml4 0xa 0 virt_to_phys small (image_npages size)
              image_base image_base none lab u refl canonical canonical op (to_image lab u sound)))

    pub clone_image-Stage :
        (u : Tables HostState)
        → AtStage with_ram u
        → WhereDone
            (AtStage with_image)
            (clone_image virt_to_phys pml4 image_base size vga mask children u)
    unfolding clone_image xlate_table host_source rsvd_source
    clone_image-Stage u (lab, sound, within, entries) =
        WhereDone-try_in (Copied u) (AtStage with_image) _ _ _
          (copied u (lab, sound, within, entries))
          (λ c (held, ((lab', sound'), va, moved, cloned)). (
            lab',
            from_image lab' c.tables sound',
            held,
            λ p is_open. rw (← entries p is_open) (cloned p is_open),
          ))

  module _ (canonical : IsCanonical vga)
      (op : (p : ℕ) → page_of vga ≤ p → p < page_of vga + 8 → IsOpen p) where
    abbrev Shown : (before after : Tables HostState) → Type 0
    Shown before after =
        LinksIn CanLink after.host
        × LaysOut (ram_source virt_to_phys) pml4 0x12 1 ((0xb8, 0xc0) ∷ []) before after

    shown :
        (lab : Labels) (t : Tables HostState)
        → t.va_base ≡ vga
        → IsSound (ram_source virt_to_phys) pml4 lab t
        → LinksIn CanLink t.host
        → WhereDone
            (Shown t)
            (map_pages_unaligned (mapper (ram_source virt_to_phys) pml4 0x12 1) 0xb8 0xc0 1 t)
    unfolding blocks_4k host_source
    shown lab t at sound within =
        let m = mapper (ram_source virt_to_phys) pml4 0x12 1 in
        let bs : List (ℕ × ℕ) = (0xb8, 0xc0) ∷ [] in
        rw (map_pages_unaligned-map_all m 1 0xb8 0xc0 t (omega arith) (omega arith) (omega arith)) (
          WhereDone-both (λ u. LinksIn CanLink u.host)
            (LaysOut (ram_source virt_to_phys) pml4 0x12 1 bs t) (map_all m bs t)
            (map_all-kept (ram_source virt_to_phys) pml4 0x12 1 (LinksIn CanLink) CanLink
              (λ pfn va h allowed held.
                link_ram_page-LinksIn CanLink pfn va h
                  (IsLinkable-same_key (ram virt_to_phys pml4 image_base size vga mask children)
                    virt_to_phys image_base (image_npages size) vga)
                  allowed held)
              (λ va level table idx u held.
                alloc_pt-LinksIn CanLink virt_to_phys 0x12 1 va level table idx u held)
              bs lab t (omega arith, omega arith, tt) (rw at canonical) (rw at op)
              (rw at (λ i below. inr (screen_linked (page_of vga) i below))) sound within)
            (WhereDone-Ends (LaysOut (ram_source virt_to_phys) pml4 0x12 1 bs t)
              (LaysOut (ram_source virt_to_phys) pml4 0x12 1 bs t) (λ u. Unit {0}) (map_all m bs t)
              (λ u laid. laid)
              (map_all-LaysOut (ram_source virt_to_phys) pml4 0x12 1 bs lab t
                (omega arith, omega arith, tt) (rw at canonical) (rw at op) sound)))

    shown_entry :
        (p : ℕ) {x y : ℕ}
        → x ≡ (
            if is_among (page_of vga) 8 p
            then ram_entry (frame_at ((0xb8, 0xc0) ∷ []) (p - page_of vga))
            else y)
        → y ≡ with_image p
        → x ≡ at_end virt_to_phys pml4 image_base size vga mask children p
    shown_entry p e e' = elim (Bool-cases (is_among (page_of vga) 8 p)) [
      | inl screen ↦ e ∙ rw (screen, screen_frame (page_of vga) p screen) refl
      | inr other ↦ e ∙ rw other e'
    ]

    pub map_vga-Stage :
        (u : Tables HostState)
        → AtStage with_image u
        → WhereDone
            (AtStage (at_end virt_to_phys pml4 image_base size vga mask children))
            (map_vga virt_to_phys pml4 image_base size vga mask children u)
    unfolding map_vga xlate_table host_source
    map_vga-Stage u (lab, sound, within, entries) =
        let t : Tables HostState = record u { va_base = vga } in
        WhereDone-try_in (Shown t) _ _ _ _
          (shown lab t refl (IsSound-at_address (ram_source virt_to_phys) pml4 lab u vga sound)
            within)
          (λ w (held, (lab', sound', va, laid)). (
            lab',
            IsSound-at_address (ram_source virt_to_phys) pml4 lab' w u.va_base sound',
            held,
            λ p is_open. shown_entry p (laid p is_open) (entries p is_open),
          ))
