-- ===== src/Lkm/Init/Builds/Tests.antt =====
-- A call on a machine whose RAM holds the image and the free pages, with the device registered.
use clearram.Base.{refl, [], ◌∷◌, inl, some, ◌≡◌, List, true, ◌⊎◌, arith}
use clearram.Map.Aligned.Blocks.{frames}
use clearram.Map.Unaligned.Spec.{blocks_1g, blocks_2m, blocks_4k}
use clearram.Linux.PmapWalk.{Resource, sections}
use clearram.Linux.Cdev.{value, is_error}
use clearram.Linux.Cdev.Held.{unset}
use clearram.Lkm.MapRam.Laws.{ram_blocks}
use clearram.Lkm.Examples.{frame_of, free_pages, pml4, resource, free_pages-IsSeparate, pml4_taken}
use clearram.Lkm.Init.{Loaded, lkm_init}
use clearram.Lkm.Init.ProgramMap.{IsProgramMap}
use clearram.Lkm.Init.Builds.{lkm_init-IsProgramMap}

-- A machine whose RAM holds the image and the free pages.
abbrev machine : List Resource
machine = resource 0x1000 0x3fff ∷ resource 0x100000 0x10ffff ∷ resource 0x200000 0x21ffff ∷ []

machine_frames : frames (ram_blocks (sections 0x81000000 machine)) ≡ 51
unfolding blocks_1g blocks_2m blocks_4k
machine_frames = refl

lkm_init-IsProgramMap_example :
    (r : Loaded) × (lkm_init frame_of pml4 0x108000 0x1001 0x40000000 0x81000000 machine 0x40002000
        (value 240)
        (value 1)
        (value 2)
        free_pages
        unset
      ≡ some r)
    × ((is_error r.err ≡ true)
        ⊎ IsProgramMap frame_of
            (λ va. omega arith)
            pml4
            0x108000
            0x1001
            0x40000000
            0x81000000
            machine
            r.tables)
lkm_init-IsProgramMap_example =
    lkm_init-IsProgramMap frame_of (λ va. omega arith) pml4 0x108000 0x1001 0x40000000 0x81000000
      machine 0x40002000 (value 240) (value 1) (value 2) free_pages free_pages-IsSeparate
      (omega arith) pml4_taken (omega (arith, machine_frames)) (inl (omega arith))
      (λ p low high. (omega arith, λ e. omega (arith, e))) (inl (omega arith))
      (λ p low high. (omega arith, λ e. omega (arith, e)))
