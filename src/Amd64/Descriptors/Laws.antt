-- ===== src/Amd64/Descriptors/Laws.antt =====
-- What the processor reads from the descriptor tables.
use clearram.Base.{
  ◌⊎◌, inl, inr, Bool-cases, ltb→lt, ltb→le, ℕ, zero, suc, ◌+◌, ◌*◌, ◌/◌, ◌^◌, ◌≤◌, ◌<◌,
  if◌then◌else◌, add64, get_field, ◌≡◌, refl, arith, ltb,
}
use clearram.Base.Bits.{bit_and_low}
use clearram.Amd64.Descriptors.{
  Table, cleared, write, init_gdt, init_idte, init_idt_loop, init_idt, trap_gate, idte_offset0_15,
  idte_selector, idte_ist, idte_attr, idte_offset16_63, gdte_attr, gdte_flags, gdte_base0_23,
  gdte_base24_31,
}

-- The address that an interrupt gate leads to.
abbrev pub gate_offset : ℕ → ℕ
gate_offset idte = get_field idte_offset0_15 idte + get_field idte_offset16_63 idte * 2 ^ 16

pub record IsGate (target : ℕ) (idte : ℕ) : Type 0 where
  pub offset : gate_offset idte ≡ target
  pub selector : get_field idte_selector idte ≡ 0x10
  pub attr : get_field idte_attr idte ≡ 0x8f
  pub ist : get_field idte_ist idte ≡ 0

init_idte-IsGate :
    (offset : ℕ) → offset < 2 ^ 64 → IsGate offset (init_idte offset 0x10 0 trap_gate 0)
unfolding init_idte
init_idte-IsGate offset h = record {
  offset = ground (arith, bit_and_low 16 offset);
  selector = ground (arith, bit_and_low 16 offset);
  attr = ground (arith, bit_and_low 16 offset);
  ist = ground (arith, bit_and_low 16 offset);
}

init_idt_loop-below :
    (left nidte base : ℕ) (idt : Table) (j : ℕ)
    → j < nidte
    → init_idt_loop left nidte base idt j ≡ idt j
unfolding init_idt_loop
init_idt_loop-below zero nidte base idt j h = refl
init_idt_loop-below (suc left) nidte base idt j h = ground (
  arith,
  init_idt_loop-below left (nidte + 1) base
      (write idt nidte (init_idte (add64 base (nidte * 0x10)) 0x10 0 trap_gate (idt nidte))) j,
)

init_idt_loop-entry :
    (left nidte base : ℕ) (idt : Table) (j : ℕ)
    → ((i : ℕ) → nidte ≤ i → idt i ≡ 0)
    → nidte ≤ j
    → init_idt_loop left nidte base idt j
      ≡ (if ltb j (nidte + left) then init_idte (add64 base (j * 0x10)) 0x10 0 trap_gate 0 else 0)
unfolding init_idt_loop
init_idt_loop-entry zero nidte base idt j clear h = ground (arith, clear j)
init_idt_loop-entry (suc left) nidte base idt j clear h =
    let idt' =
      write idt nidte (init_idte (add64 base (nidte * 0x10)) 0x10 0 trap_gate (idt nidte)) in
    ground (
      arith,
      clear nidte,
      init_idt_loop-below left (nidte + 1) base idt' j,
      init_idt_loop-entry left (nidte + 1) base idt' j (λ i k. ground (arith, clear i)),
    )

-- The vectors 0x00 to 0x12 lead to the handlers, which stand 16 bytes apart from `base` on (modulo
-- 2 ^ 64), through trap gates of the code segment 0x10; every other entry is zero, not present.
pub init_idt_lem :
    (base vector : ℕ)
    → ((vector ≤ 0x12) × IsGate (add64 base (vector * 0x10)) (init_idt base vector))
      ⊎ (0x12 < vector × (init_idt base vector ≡ 0))
unfolding init_idt
init_idt_lem base vector =
    let entry = init_idt_loop-entry 19 0 base cleared vector (λ i k. refl) in
    elim (Bool-cases (ltb vector 19)) [
      | inl handled ↦ inl (
        omega (arith, ltb→lt vector 19 handled),
        rw (entry (omega arith), handled)
            (init_idte-IsGate (add64 base (vector * 0x10)) (omega arith)),
      )
      | inr other ↦
          inr (omega (arith, ltb→le vector 19 other), rw (entry (omega arith), other) refl)
    ]

-- The selector 0x10, which the gates and the far return of cr_clear_cpu_setup() use, is that of a
-- present 64-bit code segment of privilege level 0 with base 0.
pub init_gdt_code :
    (get_field gdte_attr (init_gdt (0x10 / 8)) ≡ 0x98)
    × (get_field gdte_flags (init_gdt (0x10 / 8)) ≡ 2)
    × (get_field gdte_base0_23 (init_gdt (0x10 / 8)) ≡ 0)
    × (get_field gdte_base24_31 (init_gdt (0x10 / 8)) ≡ 0)
unfolding init_gdt
init_gdt_code = (refl, refl, refl, refl)
