-- ===== src/Lkm/Init/Tests.antt =====
-- A call on a machine with one range of RAM, whose kernel gives no device.
use clearram.Base.{ℕ, [], ◌∷◌, ◌/◌, ◌%◌, ◌^◌, some, ◌≡◌}
use clearram.Host.Kernel.{Supply}
use clearram.Linux.PmapWalk.{Resource}
use clearram.Linux.Cdev.{value, error}
use clearram.Linux.Cdev.Held.{unset}
use clearram.Lkm.Init.{Loaded, lkm_init}
use clearram.Lkm.Init.Returns.{IsLoaded, lkm_init-IsLoaded}

abbrev frame_of : ℕ → ℕ
frame_of va = va / 4096 % 2 ^ 36

abbrev ram : Resource
ram = record { start = 0x1000; end = 0x3fff; flags = 0x81000200 }

abbrev free_pages : Supply
free_pages = 0x200000 ∷ 0x201000 ∷ 0x202000 ∷ []

lkm_init-IsLoaded_example :
    (r : Loaded) × (lkm_init frame_of 0x100000 0x40000000 0x3001 0x40001000 0x81000000
        (ram ∷ [])
        0x40002000
        (value 240)
        (value 1)
        (error 12)
        free_pages
        unset
      ≡ some r)
    × IsLoaded 0x40002000 r
lkm_init-IsLoaded_example =
    lkm_init-IsLoaded frame_of 0x100000 0x40000000 0x3001 0x40001000 0x81000000 (ram ∷ [])
      0x40002000 (value 240) (value 1) (error 12) free_pages
