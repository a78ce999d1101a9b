-- ===== src/Linux/Cdev/Tests.antt =====
-- A kernel that gives the device number 240, and one that has no memory for the device.
use clearram.Base.{some, true, false, ◌≡◌, arith, ◌⊎◌}
use clearram.Linux.Cdev.{value, error, is_error, Cdev, Returned, cdev_init, lkm_exit}
use clearram.Linux.Cdev.Held.{unset, first_error, IsHeld, cdev_init-IsHeld, lkm_exit-IsHeld}

cdev_init-IsHeld_example :
    (r : Returned) × (cdev_init (value 240) (value 0x1000) (error 12) unset ≡ some r)
    × (r.ret ≡ first_error (value 240) (value 0x1000) (error 12))
    × (((r.ret ≡ value 0) × IsHeld true r.state) ⊎ ((is_error r.ret ≡ true) × IsHeld false r.state))
cdev_init-IsHeld_example = cdev_init-IsHeld (value 240) (value 0x1000) (error 12)

lkm_exit-IsHeld_example :
    (r : Returned) × (cdev_init (value 240) (value 0x1000) (value 0x2000) unset ≡ some r)
    × ((s : Cdev) × (lkm_exit r.state ≡ some s) × IsHeld false s)
lkm_exit-IsHeld_example =
    lkm_exit-IsHeld 240 0x1000 0x2000 (omega arith) (omega arith) (omega arith)
