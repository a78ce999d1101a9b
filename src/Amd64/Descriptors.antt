-- ===== src/Amd64/Descriptors.antt =====
-- The descriptor tables and control registers of amd64def.h, and cr_amd64_init_gdt() and
-- cr_amd64_init_idt() of subr_amd64.c. A descriptor is the word that it is stored as, and a table a
-- function from the index.
pub mod Laws
mod Tests
use clearram.Base.{
  ℕ, zero, suc, ◌+◌, ◌*◌, Bool, true, false, if◌then◌else◌, ◌==◌, bit_and, bit_or, shr, add64,
  Field, field, set_field,
}

-- struct cra_gdt_ent.
abbrev pub gdte_base0_23 : Field
gdte_base0_23 = field 16 24

abbrev pub gdte_attr : Field
gdte_attr = field 40 8

abbrev pub gdte_flags : Field
gdte_flags = field 52 4

abbrev pub gdte_base24_31 : Field
gdte_base24_31 = field 56 8

abbrev pub gdte_attr_code : ℕ
gdte_attr_code = 0x18

abbrev pub gdte_attr_dpl00 : ℕ
gdte_attr_dpl00 = 0x00

abbrev pub gdte_attr_present : ℕ
gdte_attr_present = 0x80

abbrev pub gdte_flag_avl : ℕ
gdte_flag_avl = 0x01

abbrev pub gdte_flag_long : ℕ
gdte_flag_long = 0x02

-- CRA_INIT_GDTE_CODE on the word that is there.
unfoldable pub init_gdte_code : (base attr : ℕ) (avl : Bool) → ℕ → ℕ
init_gdte_code base attr avl gdte =
    let attrs = bit_or (bit_or attr gdte_attr_code) (if avl then gdte_flag_avl else 0) in
    set_field gdte_base24_31 (shr base 24) (
      set_field gdte_flags gdte_flag_long
        (set_field gdte_attr attrs (set_field gdte_base0_23 (bit_and base 0xffffff) gdte)))

abbrev pub Table : Type 0
Table = ℕ → ℕ

-- `memset(table, 0, PAGE_SIZE)`: no index outside the page is read.
abbrev pub cleared : Table
cleared i = 0

abbrev pub write : Table → ℕ → ℕ → Table
write t i v j = if j == i then v else t j

unfoldable pub init_gdt : Table
unfolding init_gdte_code
init_gdt =
    let code = init_gdte_code 0 (bit_or gdte_attr_dpl00 gdte_attr_present) false in
    let gdt = write cleared 0 (code (cleared 0)) in write gdt 2 (code (gdt 2))

-- struct cra_idt_ent.
abbrev pub idte_offset0_15 : Field
idte_offset0_15 = field 0 16

abbrev pub idte_selector : Field
idte_selector = field 16 16

abbrev pub idte_ist : Field
idte_ist = field 32 3

abbrev pub idte_zero0_4 : Field
idte_zero0_4 = field 35 5

abbrev pub idte_attr : Field
idte_attr = field 40 8

abbrev pub idte_offset16_63 : Field
idte_offset16_63 = field 48 48

abbrev pub idte_zero5_36 : Field
idte_zero5_36 = field 96 32

abbrev pub idte_attr_trap_gate : ℕ
idte_attr_trap_gate = 0x0f

abbrev pub idte_attr_dpl00 : ℕ
idte_attr_dpl00 = 0x00

abbrev pub idte_attr_present : ℕ
idte_attr_present = 0x80

-- CRA_INIT_IDTE on the word that is there.
unfoldable pub init_idte : (offset selector ist attr : ℕ) → ℕ → ℕ
init_idte offset selector ist attr idte =
    let e1 = set_field idte_offset0_15 (bit_and offset 0xffff) idte in
    let e2 =
      set_field idte_zero0_4 0 (set_field idte_ist ist (set_field idte_selector selector e1)) in
    set_field idte_zero5_36 0
      (set_field idte_offset16_63 (shr offset 16) (set_field idte_attr attr e2))

abbrev pub trap_gate : ℕ
trap_gate = bit_or (bit_or idte_attr_trap_gate idte_attr_dpl00) idte_attr_present

-- The loop of cr_amd64_init_idt() at `nidte`, with the rounds left.
init_idt_loop : (left nidte handlers_base : ℕ) → Table → Table
unfolding init_idte
init_idt_loop zero nidte handlers_base idt = idt
init_idt_loop (suc left) nidte handlers_base idt =
    let cs_offset = add64 handlers_base (nidte * 0x10) in
    init_idt_loop left (nidte + 1) handlers_base
      (write idt nidte (init_idte cs_offset 0x10 0 trap_gate (idt nidte)))

-- `handlers_base` is the address of cr_amd64_exception_0x00, which is kept in the state.
pub init_idt : (handlers_base : ℕ) → Table
init_idt handlers_base = init_idt_loop 19 0 handlers_base cleared
