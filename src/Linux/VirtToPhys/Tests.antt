-- ===== src/Linux/VirtToPhys/Tests.antt =====
-- A kernel with a 2M page.
use clearram.Base.{ℕ, ◌≡◌, ◌/◌}
use clearram.Linux.VirtToPhys.{virt_to_phys}
use clearram.Linux.VirtToPhys.Translates.{physical, virt_to_phys-physical}

abbrev table : ℕ → ℕ
table va = 0x1067

abbrev large : ℕ → ℕ
large va = 0x12e001e3

virt_to_phys-physical_example :
    virt_to_phys table large table 0xffffffffa0123456
    ≡ physical table large table 0xffffffffa0123456 / 4096
virt_to_phys-physical_example = virt_to_phys-physical table large table 0xffffffffa0123456
