-- ===== src/Lkm/Init/Returns.antt =====
-- cr_host_lkm_init() comes to an end, whatever the kernel gives.
use clearram.Base.{
  ℕ, zero, suc, refl, List, Outcome, done, failed, undefined, out_of_fuel, some, ◌≡◌, ◌<◌, ◌^◌,
  arith, add64, inl, inr, true, false, page_size_bytes, ◌⊎◌,
}
use clearram.Map.Layout.{va_incr}
use clearram.Map.Aligned.{Tables}
use clearram.Map.Aligned.Returns.{Returns, Returns-try_in, map_pages_aligned-Returns}
use clearram.Map.Unaligned.Passes.{blocks, map_pages_unaligned-map_all}
use clearram.Map.Clone.{clone_pages, map_pages_clone4k}
use clearram.Host.Kernel.{Supply}
use clearram.Host.Link.{HostState, link_page, link_ram_page, link_rsvd_page}
use clearram.Host.Link.Leaves.{ram_page, rsvd_page, Kind, flag}
use clearram.Host.AllocPt.{alloc_pt}
use clearram.Lkm.MapRam.{map_ram}
use clearram.Lkm.MapRam.Laws.{ram_blocks, map_ram-map_all}
use clearram.Lkm.RamMapped.{blocks-AllBlocks, ram_blocks-AllBlocks}
use clearram.Linux.PmapWalk.{Resource, sections}
use clearram.Linux.Cdev.{Value, value, is_error}
use clearram.Linux.Cdev.Held.{unset, IsHeld, cdev_init-IsHeld}
use clearram.Lkm.Init.{
  Loaded, map_aligned, clone_image, map_vga, unmap_pages, map_all_pages, start_device,
  behind_mapping, lkm_init, image_npages, xlate_pfn, ptl_page_table, ptl_ram_page,
  map_pages_unaligned, init_gdt, init_idt, init_tables,
}
use clearram.Lkm.Init.Parts.{
  Any, Returns-try, link_page-Returns, alloc_pt-Returns, map_all-Returns, unmap_reserved-Returns,
  unmap_image-Returns,
}

-- Behind the call of cr_host_lkm_init(): 0 with the tables of the descriptors written and all of the
-- device registered, or an error with nothing registered.
pub IsLoaded : (handlers : ℕ) → Loaded → Type 0
IsLoaded handlers r =
    ((r.err ≡ value 0)
      × IsHeld true r.cdev
      × (r.clear_gdt ≡ init_gdt)
      × (r.clear_idt ≡ init_idt handlers))
    ⊎ ((is_error r.err ≡ true) × IsHeld false r.cdev)

module _ (virt_to_phys : ℕ → ℕ) (pml4 image_base size vga mask : ℕ) (children : List Resource) where
  map_aligned-Returns :
      (extra nx : ℕ) (k : Kind) (base limit : ℕ)
      → limit < 2 ^ 64
      → (t : Tables HostState)
      → Returns Any (
          map_aligned virt_to_phys pml4 image_base size vga mask children extra nx
            (link_page (flag k))
            base
            limit
            t)
  map_aligned-Returns extra nx k base limit word t =
      map_pages_aligned-Returns extra nx (link_page (flag k)) (alloc_pt virt_to_phys extra nx) _
        (link_page-Returns k) (alloc_pt-Returns virt_to_phys extra nx) limit word pml4 base t

  clone_pages-Returns :
      (left va : ℕ) (t : Tables HostState)
      → Returns Any (
          clone_pages 0xa 0 link_rsvd_page
            (alloc_pt virt_to_phys 0xa 0)
            (λ pfn h. xlate_pfn h.host_pages_tree ptl_page_table pfn)
            virt_to_phys
            pml4
            left
            va
            t)
  unfolding clone_pages link_rsvd_page
  clone_pages-Returns zero va t = tt
  clone_pages-Returns (suc left) va t =
      Returns-try _ _
        (map_aligned-Returns 0xa 0 rsvd_page (virt_to_phys va) (add64 (virt_to_phys va) 1)
          (omega arith) t)
        (λ u. clone_pages-Returns left (va_incr va page_size_bytes) u)

  clone_image-Returns :
      (t : Tables HostState)
      → Returns Any (clone_image virt_to_phys pml4 image_base size vga mask children t)
  unfolding clone_image map_pages_clone4k
  clone_image-Returns t =
      Returns-try_in Any Any _ _ _
        (Returns-try_in Any Any _ _ _
          (clone_pages-Returns (image_npages size) image_base (record t { va_base = image_base }))
          (λ u held. tt))
        (λ c held. tt)

  map_vga-Returns :
      (t : Tables HostState)
      → Returns Any (map_vga virt_to_phys pml4 image_base size vga mask children t)
  unfolding map_vga link_ram_page
  map_vga-Returns t =
      let mapper =
        map_aligned virt_to_phys pml4 image_base size vga mask children 0x12 1 link_ram_page in
      let start : Tables HostState = record t { va_base = vga } in
      let mapped : Returns Any (map_pages_unaligned mapper 0xb8 0xc0 1 start) =
        rw
          (map_pages_unaligned-map_all mapper 1 0xb8 0xc0 start (omega arith) (omega arith)
            (omega arith))
          (map_all-Returns mapper (map_aligned-Returns 0x12 1 ram_page) (blocks 1 0xb8 0xc0) start
            (blocks-AllBlocks 1 0xb8 0xc0 (omega arith))) in
      Returns-try_in Any Any (map_pages_unaligned mapper 0xb8 0xc0 1 start) _ _ mapped
        (λ u held. tt)

  unmap_pages-Returns :
      (t : Tables HostState)
      → Returns Any (unmap_pages virt_to_phys pml4 image_base size vga mask children t)
  unfolding unmap_pages
  unmap_pages-Returns t =
      Returns-try_in Any Any _ _ _
        (Returns-try _ _
          (unmap_reserved-Returns (xlate_pfn t.host.host_pages_tree ptl_page_table)
            (xlate_pfn t.host.host_pages_tree ptl_ram_page) pml4 t.host.host_lrsvd.items t.entries)
          (λ e.
            unmap_image-Returns (xlate_pfn t.host.host_pages_tree ptl_page_table)
              (xlate_pfn t.host.host_pages_tree ptl_ram_page) pml4 virt_to_phys image_base
              (image_npages size) 0 e))
        (λ e held. tt)

  pub map_all_pages-Returns :
      (t : Tables HostState)
      → Returns Any (map_all_pages virt_to_phys pml4 image_base size vga mask children t)
  unfolding map_all_pages link_ram_page
  map_all_pages-Returns t =
      let mapper =
        map_aligned virt_to_phys pml4 image_base size vga mask children 0x12 1 link_ram_page in
      let mapped : Returns Any (map_ram mapper mask children t) =
        rw (map_ram-map_all mapper mask children t) (
          map_all-Returns mapper (map_aligned-Returns 0x12 1 ram_page)
            (ram_blocks (sections mask children)) t (ram_blocks-AllBlocks mask children)) in
      Returns-try (map_ram mapper mask children t) _ mapped (λ u.
        Returns-try _ _ (clone_image-Returns u)
          (λ v. Returns-try _ _ (map_vga-Returns v) (λ w. unmap_pages-Returns w)))

  start_device-IsLoaded :
      (handlers : ℕ) (major class device : Value) (t : Tables HostState)
      → (r : Loaded) × (start_device virt_to_phys pml4 image_base size vga mask children handlers
            major class device t unset
          ≡ some r)
        × IsLoaded handlers r
  unfolding IsLoaded IsHeld
  start_device-IsLoaded handlers major class device t =
      let (got, same, returned, held) = cdev_init-IsHeld major class device in
      (
        record {
          err = got.ret;
          tables = t;
          clear_gdt = init_gdt;
          clear_idt = init_idt handlers;
          cdev = got.state;
        },
        rw (same, start_device) refl,
        elim held [
          | inl (zero_returned, all) ↦ inl (zero_returned, all, refl, refl)
          | inr (failed_call, nothing) ↦ inr (failed_call, nothing)
        ],
      )

  behind_mapping-IsLoaded :
      (handlers : ℕ) (major class device : Value) (m : Outcome (Tables HostState))
      → Returns Any m
      → (r : Loaded) × (behind_mapping virt_to_phys pml4 image_base size vga mask children handlers
            major class device unset m
          ≡ some r)
        × IsLoaded handlers r
  unfolding IsLoaded IsHeld
  behind_mapping-IsLoaded handlers major class device (done t) h =
      start_device-IsLoaded handlers major class device t
  behind_mapping-IsLoaded handlers major class device (failed e t) h =
      (_, refl, inr (refl, (refl, refl, refl)))
  behind_mapping-IsLoaded handlers major class device undefined h = absurd h
  behind_mapping-IsLoaded handlers major class device out_of_fuel h = absurd h

  -- For every image, list of resources and translation of addresses, and whatever pages and results
  -- the kernel gives, cr_host_lkm_init() comes to an end: it returns 0 with the device number, the
  -- class and the device registered and the GDT and the IDT written, or an error with none of the
  -- three registered.
  pub lkm_init-IsLoaded :
      (handlers : ℕ) (major class device : Value) (supply : Supply)
      → (r : Loaded) × (lkm_init virt_to_phys pml4 image_base size vga mask children handlers major
            class device supply unset
          ≡ some r)
        × IsLoaded handlers r
  unfolding lkm_init
  lkm_init-IsLoaded handlers major class device supply =
      let t = init_tables virt_to_phys pml4 supply in
      behind_mapping-IsLoaded handlers major class device
        (map_all_pages virt_to_phys pml4 image_base size vga mask children t)
        (map_all_pages-Returns t)
