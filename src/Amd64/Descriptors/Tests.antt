-- ===== src/Amd64/Descriptors/Tests.antt =====
-- The interrupt table at a concrete address of the handlers.
use clearram.Base.{◌⊎◌, ◌≡◌, refl, ◌≤◌, ◌<◌, ◌*◌, add64}
use clearram.Amd64.Descriptors.{init_idt, init_idt_loop, init_gdt}
use clearram.Amd64.Descriptors.Laws.{IsGate, init_idt_lem}

gdt_null_word : init_gdt 0 ≡ 0x00209800_00000000
unfolding init_gdt
gdt_null_word = refl

idt_page_fault : init_idt 0xffffffffa0001000 0x0e ≡ 0xffffffff_a0008f00_001010e0
unfolding init_idt init_idt_loop
idt_page_fault = refl

init_idt_lem_example :
    ((0x0e ≤ 0x12)
      × IsGate (add64 0xffffffffa0001000 (0x0e * 0x10)) (init_idt 0xffffffffa0001000 0x0e))
    ⊎ (0x12 < 0x0e × (init_idt 0xffffffffa0001000 0x0e ≡ 0))
init_idt_lem_example = init_idt_lem 0xffffffffa0001000 0x0e
