-- ===== src/Clear/CpuSetup.antt =====
-- cr_clear_cpu_setup() of subr_clear.c, with the control registers of amd64def.h: the switch to the
-- program's page tables, descriptor tables and stack. The instructions work on the registers and the
-- 64-bit words of the stack; an instruction that only moves a constant or an operand is the `let` of
-- its register.
pub mod Switched
pub mod Tests
use clearram.Base.{
  ℕ, set_field, ◌*◌, List, ◌/◌, Field, sub64, Bool, ◌%◌, ◌∷◌, add64, field, page_size_bytes,
  if◌then◌else◌, [], bit_and, ◌^◌, ◌==◌, ◌+◌, ◌-◌, false,
}

-- struct cra_cr3.
abbrev pub cr3_bits : Field
cr3_bits = field 0 5

abbrev pub cr3_ign1 : Field
cr3_ign1 = field 5 7

abbrev pub cr3_pml4_pfn_base : Field
cr3_pml4_pfn_base = field 12 40

abbrev pub cr3_ign2 : Field
cr3_ign2 = field 52 12

abbrev pub cr3_write_through : ℕ
cr3_write_through = 0x008

-- CRA_INIT_CR3 on the word that is there.
unfoldable pub init_cr3 : (bits pml4_pfn_base : ℕ) → ℕ → ℕ
init_cr3 bits pml4_pfn_base cr3 =
    set_field cr3_ign2 0 (
      set_field cr3_pml4_pfn_base pml4_pfn_base
        (set_field cr3_ign1 0 (set_field cr3_bits bits cr3)))

-- struct cra_gdtr_bits and struct cra_idtr_bits; CRA_INIT_GDTR and CRA_INIT_IDTR.
pub record TableRegister : Type 0 where
  pub limit : ℕ
  pub base : ℕ

abbrev pub init_table_register : (base limit : ℕ) → TableRegister
init_table_register base limit = record { limit = limit % 2 ^ 16; base = base % 2 ^ 64 }

abbrev pub sizeof_gdt_ent : ℕ
sizeof_gdt_ent = 8

pub record Machine : Type 0 where
  pub interrupts : Bool
  pub direction : Bool
  pub cr3 : ℕ
  pub cr4 : ℕ
  pub gdtr : TableRegister
  pub idtr : TableRegister
  pub cs : ℕ
  pub ds : ℕ
  pub es : ℕ
  pub fs : ℕ
  pub gs : ℕ
  pub ss : ℕ
  pub rsp : ℕ
  pub rip : ℕ
  pub stack : ℕ → ℕ

abbrev pub push : ℕ → Machine → Machine
push v m =
    let rsp' = sub64 m.rsp 8 in
    record m { rsp = rsp'; stack = λ a. if a == rsp' then v else m.stack a }

-- `lretq`: the instruction pointer and the code segment selector are popped.
abbrev pub lretq : Machine → Machine
lretq m = record m { rip = m.stack m.rsp; cs = m.stack (add64 m.rsp 8); rsp = add64 m.rsp 16 }

-- `andb $0x7f, %r9b`: the low byte without the PGE bit.
abbrev pub clear_pge : ℕ → ℕ
clear_pge r9 = r9 / 2 ^ 8 * 2 ^ 8 + bit_and (r9 % 2 ^ 8) 0x7f

-- The instructions up to `movq %%r8, %%cr4`: CR4 without PGE, CR3, and CR4 as it was. The list is
-- that of the values of CR4 and CR3 behind each write.
pub record Flushed : Type 0 where
  pub machine : Machine
  pub writes : List (ℕ × ℕ)

unfoldable pub set_cr3 : (cr3 : ℕ) → Machine → Flushed
set_cr3 rax m =
    let r8 = m.cr4 in
    let r9 = clear_pge r8 in
    let m1 = record m { cr4 = r9 } in
    let m2 = record m1 { cr3 = rax } in
    let m3 = record m2 { cr4 = r8 } in
    record { machine = m3; writes = (m1.cr4, m1.cr3) ∷ (m2.cr4, m2.cr3) ∷ (m3.cr4, m3.cr3) ∷ [] }

-- From `lgdtq` to `callq *%%rsi`. `start` is the address of crp_clear_start, and `behind` that of
-- the instruction behind the call.
unfoldable pub set_segments :
    (gdtr idtr : TableRegister) (stack_top fn start behind : ℕ) → Machine → Machine
set_segments gdtr idtr stack_top fn start behind m =
    let r8 : ℕ = 0x00 in
    let m1 = record m {
      gdtr = gdtr;
      ds = r8;
      es = r8;
      fs = r8;
      gs = r8;
      ss = r8;
      rsp = stack_top;
    } in
    let m2 = lretq (push start (push 0x10 (push stack_top (push 0x00 m1)))) in
    let m3 = record m2 { idtr = idtr; rsp = add64 m2.rsp 0x10 } in
    let m4 = record m3 { rsp = bit_and m3.rsp 0xfffffffffffffff0 } in
    let m5 = push behind m4 in record m5 { rip = fn }

-- The variables of struct cr_host_state are given by their addresses, and the word of `clear_cr3` by
-- its value before.
unfoldable pub cpu_setup :
    (virt_to_phys : ℕ → ℕ) (clear_pml4 clear_gdt clear_idt clear_cr3 stack_top fn start behind : ℕ)
    → Machine
    → Flushed
cpu_setup virt_to_phys clear_pml4 clear_gdt clear_idt clear_cr3 stack_top fn start behind m =
    let cr3 = init_cr3 cr3_write_through (virt_to_phys clear_pml4) clear_cr3 in
    let gdtr = init_table_register clear_gdt (sizeof_gdt_ent * 3) in
    let idtr = init_table_register clear_idt (page_size_bytes - 1) in
    let m' = record m { interrupts = false; direction = false } in
    let flushed = set_cr3 cr3 m' in
    record {
      machine = set_segments gdtr idtr stack_top fn start behind flushed.machine;
      writes = flushed.writes;
    }
