-- ===== src/Clear/CpuSetup/Switched.antt =====
-- The processor behind cr_clear_cpu_setup().
use clearram.Base.{[], ◌∷◌, ℕ, refl, false, ◌≡◌, ◌<◌, ◌*◌, ◌^◌, ◌≤◌, ◌+◌, arith, ◌/◌, ◌%◌, ◌-◌}
use clearram.Base.Bits.{bit_and_high, bit_and_low}
use clearram.Clear.CpuSetup.{
  init_cr3, cr3_write_through, Machine, cpu_setup, set_cr3, set_segments, clear_pge,
}

init_cr3_lem :
    (pfn old : ℕ)
    → pfn < 2 ^ 40
    → old < 2 ^ 64
    → init_cr3 cr3_write_through pfn old ≡ pfn * 4096 + 8
unfolding init_cr3
init_cr3_lem pfn old h k = omega arith

-- The state in which the function is entered.
pub record IsSwitched (pfn clear_gdt clear_idt stack_top fn behind cr4 : ℕ) (m : Machine)
    : Type 0 where
  pub interrupts : m.interrupts ≡ false
  pub direction : m.direction ≡ false
  pub tables : m.cr3 ≡ pfn * 4096 + 8
  pub control : m.cr4 ≡ cr4
  pub gdt : (m.gdtr.base ≡ clear_gdt) × (m.gdtr.limit ≡ 24)
  pub idt : (m.idtr.base ≡ clear_idt) × (m.idtr.limit + 1 ≡ 256 * 16)
  pub code : m.cs ≡ 0x10
  pub segments : (m.ds ≡ 0) × (m.es ≡ 0) × (m.fs ≡ 0) × (m.gs ≡ 0) × (m.ss ≡ 0)
  pub entry : m.rip ≡ fn
  pub stack : (m.rsp + 8 ≡ stack_top) × (m.stack m.rsp ≡ behind)

-- For a stack whose top is a multiple of 16, page tables whose frame has 40 bits, and tables at 64-bit
-- addresses, cr_clear_cpu_setup() enters the function with interrupts off, CR3 at the PML4, CR4 as
-- before, the GDTR and the IDTR at the program's tables, the code selector 0x10, empty data selectors,
-- and only the return address on the stack.
pub cpu_setup-IsSwitched :
    (virt_to_phys : ℕ → ℕ) (clear_pml4 clear_gdt clear_idt clear_cr3 top fn start behind : ℕ)
    (m : Machine)
    → virt_to_phys clear_pml4 < 2 ^ 40
    → clear_gdt < 2 ^ 64
    → clear_idt < 2 ^ 64
    → clear_cr3 < 2 ^ 64
    → 32 ≤ top * 16
    → top * 16 < 2 ^ 64
    → IsSwitched
        (virt_to_phys clear_pml4)
        clear_gdt
        clear_idt
        (top * 16)
        fn
        behind
        m.cr4
        (cpu_setup virt_to_phys clear_pml4 clear_gdt clear_idt clear_cr3
          (top * 16)
          fn
          start
          behind
          m).machine
unfolding cpu_setup set_cr3 set_segments
cpu_setup-IsSwitched virt_to_phys clear_pml4 clear_gdt clear_idt clear_cr3 top fn start behind m h g
      i c s t =
    record {
      interrupts = refl;
      direction = refl;
      tables = init_cr3_lem (virt_to_phys clear_pml4) clear_cr3 h c;
      control = refl;
      gdt = (omega arith, refl);
      idt = (omega arith, refl);
      code = ground arith;
      segments = (refl, refl, refl, refl, refl);
      entry = refl;
      stack = (
        ground (arith, bit_and_high 4 60 (top * 16)),
        ground (arith, bit_and_high 4 60 (top * 16)),
      );
    }

clear_pge_lem : (cr4 : ℕ) → clear_pge cr4 ≡ cr4 - cr4 / 128 % 2 * 128
clear_pge_lem cr4 = omega (arith, bit_and_low 7 (cr4 % 2 ^ 8))

-- CR3 is written while the bit of CR4 for global pages, bit 7, is clear, and no other bit of CR4
-- changes; then CR4 is written back. So no translation of the kernel's page tables is kept.
pub cpu_setup-flush :
    (virt_to_phys : ℕ → ℕ) (clear_pml4 clear_gdt clear_idt clear_cr3 top fn start behind : ℕ)
    (m : Machine)
    → (cr4 : ℕ) × (cr3 : ℕ) × (cr4 / 128 % 2 ≡ 0)
      × (cr4 + m.cr4 / 128 % 2 * 128 ≡ m.cr4)
      × ((cpu_setup virt_to_phys clear_pml4 clear_gdt clear_idt clear_cr3 top fn start behind
            m).writes
          ≡ (cr4, m.cr3) ∷ (cr4, cr3) ∷ (m.cr4, cr3) ∷ [])
unfolding cpu_setup set_cr3
cpu_setup-flush virt_to_phys clear_pml4 clear_gdt clear_idt clear_cr3 top fn start behind m = (
  clear_pge m.cr4,
  init_cr3 cr3_write_through (virt_to_phys clear_pml4) clear_cr3,
  omega (arith, clear_pge_lem m.cr4),
  omega (arith, clear_pge_lem m.cr4),
  refl,
)
