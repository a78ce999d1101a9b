-- ===== src/Clear/Fill/Tests.antt =====
-- cr_clear_clear() on a machine with 1.5 GB to clear, without page 0x100.
use clearram.Base.{ℕ, Bool, false, refl, arith, ◌≡◌, done, ltb, ◌&&◌, not, ◌==◌}
use clearram.Clear.Regs.{no_regs}
use clearram.Clear.State.{ClearState}
use clearram.Clear.Fill.{clear_clear}
use clearram.Clear.Fill.Blocks.{IsLayout, clear_clear-zero}

abbrev pub pages_present : ℕ → Bool
pages_present p = ltb p 0x60000 && not (p == 0x100)

abbrev pub machine : ClearState
machine = record {
  clear_vga = 0xffffffffa0000000;
  clear_va_top = 0x60000000;
  clear_va_vga_cur = 0;
  clear_clear_flag = false;
  mem = λ a. a;
  regs = no_regs;
}

pub machine-IsLayout : IsLayout pages_present 0xffffffffa0000000 0x60000000
machine-IsLayout = record {
  map = record {
    behind = omega arith;
    whole = omega arith;
    word = omega arith;
    ends = refl;
    first = refl;
  };
  screen_even = omega arith;
  screen_top = omega arith;
}

clear_clear-zero_example :
    (t : ClearState) × (clear_clear pages_present machine ≡ done t) × (t.mem 0x5fffffff ≡ 0)
clear_clear-zero_example =
    clear_clear-zero pages_present machine machine-IsLayout 0x5fffffff (omega arith) refl
