-- ===== src/Clear/Exception.antt =====
-- The exception handlers of subr_clear.c: cr_clear_cpu_clear_exception(),
-- cr_clear_cpu_dump_regs() and cr_clear_cpu_exception(). The wait before a processor that is
-- stopped is left out.
pub mod Laws
pub mod Cells
pub mod Dump
mod Tests
use clearram.Base.{
  ℕ, zero, suc, ◌+◌, ◌-◌, ◌*◌, ◌/◌, ◌%◌, Bool, if◌then◌else◌, ltb, leb, ◌==◌, bit_and, bit_or,
  neg64, add64, page_size_bytes, List, [], ◌∷◌,
}
use clearram.Clear.Vga.{Screen, screen, vga_print_cstr, vga_print_reg}
use clearram.Clear.Regs.{CpuRegs, reg_words}
use clearram.Clear.State.{ClearState, codes, print_footer}

-- The return values 0, 1 and -1.
pub data Status : Type 0 where
  skipped : Status
  restarted : Status
  stopped : Status

pub record Handled : Type 0 where
  pub status : Status
  pub state : ClearState

abbrev pub handled : Status → ClearState → Handled
handled s st = record { status = s; state = st }

-- The messages: an exclamation mark at the cursor, which stays, and the address in the last row.
abbrev pub show_fault : ClearState → ClearState
show_fault st =
    let s = vga_print_cstr (codes "!") 0x1f 1 (screen st.clear_va_vga_cur st.mem) in
    print_footer st.regs.rdi 0x1c (record st { mem = s.mem })

unfoldable pub clear_exception : ClearState → Handled
clear_exception st =
    let shown = show_fault st in
    let regs = st.regs in
    let rcx = bit_and regs.rcx (neg64 (page_size_bytes / 8)) in
    let rdi = bit_and regs.rdi (neg64 page_size_bytes) in
    if leb st.clear_va_top regs.rdi
    then handled skipped shown
    else if ltb (page_size_bytes / 8) rcx
    then handled restarted (record shown {
      regs = record regs { rcx = add64 rcx (page_size_bytes / 8); rdi = add64 rdi page_size_bytes };
    })
    else handled skipped shown

-- crp_clear_cpu_reg_names.
abbrev pub reg_names : List (List ℕ)
reg_names =
    codes "CR0"
    ∷ codes "CR2"
    ∷ codes "CR3"
    ∷ codes "CR4"
    ∷ codes "DS"
    ∷ codes "ES"
    ∷ codes "FS"
    ∷ codes "GS"
    ∷ codes "RAX"
    ∷ codes "RBX"
    ∷ codes "RCX"
    ∷ codes "RDX"
    ∷ codes "RSI"
    ∷ codes "RDI"
    ∷ codes "RBP"
    ∷ codes "RSP"
    ∷ codes "R8"
    ∷ codes "R9"
    ∷ codes "R10"
    ∷ codes "R11"
    ∷ codes "R12"
    ∷ codes "R13"
    ∷ codes "R14"
    ∷ codes "R15"
    ∷ codes ""
    ∷ codes "VECNO"
    ∷ codes "ERRNO"
    ∷ codes "ORIG_RIP"
    ∷ codes "ORIG_CS"
    ∷ codes "ORIG_RFLAGS"
    ∷ codes "ORIG_SS"
    ∷ codes ""
    ∷ []

-- `left` blank cells of 8 characters.
unfoldable pub blank_cells : (left : ℕ) → Screen → Screen
blank_cells zero s = s
blank_cells (suc left) s = blank_cells left (vga_print_cstr (codes "        ") 0x1f 8 s)

abbrev pub skip_cell : Screen → Screen
skip_cell s = record s { cur = add64 s.cur (20 * 2) }

abbrev pub print_name : List ℕ → Screen → Screen
print_name [] s = skip_cell s
print_name (c ∷ cs) s = vga_print_cstr (c ∷ cs) 0x1f 20 s

abbrev pub print_value : List ℕ → ℕ → Screen → Screen
print_value [] reg s = skip_cell s
print_value (c ∷ cs) reg s = vga_print_reg reg 0x1f 20 s

-- On to the next row.
unfoldable pub next_row : Screen → Screen
next_row s =
    let low = bit_and s.cur 0xfff in
    if (low % (80 * 2)) == 0
    then s
    else record s { cur = bit_or (bit_and s.cur (neg64 0x1000)) (low + (80 * 2 - low % (80 * 2))) }

-- The loop over the registers, four at a time: their names in a row, their values in the next.
unfoldable pub dump_rows : List (List ℕ) → List ℕ → Screen → Screen
unfolding next_row
dump_rows (n0 ∷ n1 ∷ n2 ∷ n3 ∷ names) (v0 ∷ v1 ∷ v2 ∷ v3 ∷ values) s =
    let s1 = next_row (print_name n3 (print_name n2 (print_name n1 (print_name n0 s)))) in
    let s2 =
      next_row (print_value n3 v3 (print_value n2 v2 (print_value n1 v1 (print_value n0 v0 s1)))) in
    dump_rows names values s2
dump_rows names values s = s

unfoldable pub dump_regs : ClearState → Handled
unfolding dump_rows blank_cells
dump_regs st =
    let blank = blank_cells (25 * 10) (screen st.clear_vga st.mem) in
    let s = dump_rows reg_names (reg_words st.regs) (screen st.clear_vga blank.mem) in
    handled stopped (record st { clear_va_vga_cur = s.cur; mem = s.mem })

-- `switch (status)`.
abbrev pub after_exception : Handled → Handled
after_exception h = elim h.status [
  | skipped ↦
      let st = h.state in
      let regs = st.regs in
      handled skipped (record st { regs = record regs { orig_rip = add64 regs.orig_rip 3 } })
  | restarted ↦ h
  | stopped ↦ h
]

unfoldable pub cpu_exception : ClearState → Handled
unfolding clear_exception dump_regs
cpu_exception st =
    after_exception (if st.clear_clear_flag then clear_exception st else dump_regs st)
