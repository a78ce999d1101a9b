-- ===== src/Clear/Exception/Tests.antt =====
-- A fault while memory is cleared.
use clearram.Base.{true, ◌≡◌, refl, arith, ◌+◌, ◌*◌, ◌||◌, ltb, leb, if◌then◌else◌}
use clearram.Clear.Regs.{no_regs}
use clearram.Clear.State.{ClearState}
use clearram.Clear.Exception.Dump.{dump_regs-IsOnScreen}
use clearram.Clear.Exception.{dump_regs, stopped, cpu_exception, handled, skipped, restarted}
use clearram.Clear.Exception.Laws.{cpu_exception_lem, ended, next_page}

-- Page 0x100 of 1.5 GB is missing, with 0x800 quadwords to go.
abbrev at_fault : ClearState
at_fault = record {
  clear_vga = 0xffffffffa0000000;
  clear_va_top = 0x60000000;
  clear_va_vga_cur = 0xffffffffa0000002;
  clear_clear_flag = true;
  mem = λ a. a;
  regs = record no_regs { rcx = 0x800; rdi = 0x100000 };
}

cpu_exception_lem_example : cpu_exception at_fault ≡ (
    if leb 0x60000000 0x100000 || ltb 0x800 1024
    then handled skipped (ended at_fault)
    else handled restarted (next_page at_fault))
cpu_exception_lem_example = cpu_exception_lem at_fault refl (omega arith) (omega arith)

dump_regs-IsOnScreen_example :
    ((dump_regs at_fault).status ≡ stopped)
    × ((dump_regs at_fault).state.clear_va_vga_cur ≡ 0xffffffffa0000000 + 2 * 80 * 16)
    × ((dump_regs at_fault).state.mem 0xffffffffa0001000 ≡ 0xffffffffa0001000)
dump_regs-IsOnScreen_example =
    dump_regs-IsOnScreen at_fault 0xffffffffa0001000 (omega arith) (omega arith) (omega arith)
