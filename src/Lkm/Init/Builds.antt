-- ===== src/Lkm/Init/Builds.antt =====
-- cr_host_lkm_init() with the map of the program that it leaves.
mod Tests
use clearram.Base.{
  refl, some, ◌≡◌, ◌⊎◌, inl, inr, ◌+◌, ℕ, done, failed, undefined, out_of_fuel, Outcome, ◌<◌, ◌≡◌,
  ◌^◌, true, List, ◌≤◌, ◌*◌,
}
use clearram.Map.Aligned.{Tables}
use clearram.Map.Aligned.Fill.{IsCanonical}
use clearram.Map.Aligned.Blocks.{frames}
use clearram.Map.Aligned.Returns.{Returns}
use clearram.Map.Walk.{page_of}
use clearram.Map.Walk.Tree.{IsOpen}
use clearram.Host.Kernel.{Supply}
use clearram.Host.Link.{HostState}
use clearram.Host.AllocPt.Lawful.{IsIn, IsSeparate}
use clearram.Linux.PmapWalk.{Resource}
use clearram.Lkm.Setup.{init_tables, image_npages}
use clearram.Lkm.Init.{map_all_pages}
use clearram.Amd64.Descriptors.{init_gdt, init_idt}
use clearram.Linux.Cdev.{Value, is_error}
use clearram.Linux.Cdev.Held.{unset, cdev_init-IsHeld}
use clearram.Lkm.Init.{Loaded, behind_mapping, lkm_init}
use clearram.Lkm.Init.Stages.{ram}
use clearram.Lkm.Init.{start_device}
use clearram.Lkm.Init.ProgramMap.{IsProgramMap, map_all_pages-IsProgramMap}

module _ (virt_to_phys : ℕ → ℕ) (small : (va : ℕ) → virt_to_phys va < 2 ^ 40)
    (pml4 image_base size vga mask : ℕ) (children : List Resource) (handlers : ℕ)
    (major class device : Value) where
  abbrev Built : Tables HostState → Type 0
  Built = IsProgramMap virt_to_phys small pml4 image_base size vga mask children

  abbrev HasProgramMap : Loaded → Type 0
  HasProgramMap r = (is_error r.err ≡ true) ⊎ Built r.tables

  behind-HasProgramMap :
      (m : Outcome (Tables HostState))
      → Returns Built m
      → (r : Loaded) × (behind_mapping virt_to_phys pml4 image_base size vga mask children handlers
            major class device unset m
          ≡ some r)
        × HasProgramMap r
  behind-HasProgramMap (done t) h =
      let (got, same, returned, held) = cdev_init-IsHeld major class device in
      (
        record {
          err = got.ret;
          tables = t;
          clear_gdt = init_gdt;
          clear_idt = init_idt handlers;
          cdev = got.state;
        },
        rw (same, start_device) refl,
        inr h,
      )
  behind-HasProgramMap (failed e t) h = (_, refl, inl refl)
  behind-HasProgramMap undefined h = absurd h
  behind-HasProgramMap out_of_fuel h = absurd h

  -- Let the free pages of the kernel be of frames of their own below 2^36, the PML4 be none of them,
  -- all frames be below 2^40, and RAM be at most 0x1f0·2^27 frames; let the pages of the image and of
  -- the screen be sign-extended addresses outside the entry of the PML4 that leads to itself. Then
  -- cr_host_lkm_init() comes to an end, and returns an error or leaves page tables in which a page
  -- walk from each page outside that entry finds: for the 8 pages of the screen the frames from 0xb8
  -- on; else for the pages of the image the frames that the host has them at; else, from page 0 on, all
  -- RAM in the order of its blocks; and else zero. Of these, the pages at which the frames of the list
  -- of reserved pages and of the image are linked as pages of RAM, and no others, have lost their
  -- present bit. Each of these frames is linked, and each frame that is linked as a page of RAM is so at
  -- a page that the blocks of RAM or the screen give that very frame, by its number of 36 bits.
  pub lkm_init-IsProgramMap :
      (supply : Supply)
      → IsSeparate virt_to_phys supply
      → 0 < pml4
      → (IsIn pml4 supply → ⊥)
      → frames (ram virt_to_phys pml4 image_base size vga mask children) ≤ 0x1f0 * 2 ^ 27
      → IsCanonical image_base
      → ((p : ℕ) → page_of image_base ≤ p → p < page_of image_base + image_npages size → IsOpen p)
      → IsCanonical vga
      → ((p : ℕ) → page_of vga ≤ p → p < page_of vga + 8 → IsOpen p)
      → (r : Loaded) × (lkm_init virt_to_phys pml4 image_base size vga mask children handlers major
            class device supply unset
          ≡ some r)
        × ((is_error r.err ≡ true) ⊎ Built r.tables)
  unfolding lkm_init
  lkm_init-IsProgramMap supply separate pos own room canonical image_open vga_canonical
        screen_open =
      behind-HasProgramMap
        (map_all_pages virt_to_phys pml4 image_base size vga mask children
          (init_tables virt_to_phys pml4 supply))
        (map_all_pages-IsProgramMap virt_to_phys small pml4 image_base size vga mask children supply
          separate pos own room canonical image_open vga_canonical screen_open)
