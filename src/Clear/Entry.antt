-- ===== src/Clear/Entry.antt =====
-- crp_clear_cpu_entry() and cr_clear_vga_reset() of subr_clear.c: what runs on the program's own stack,
-- once cr_clear_cpu_setup() has switched to its map.
pub mod Clears
mod Tests
use clearram.Base.{ℕ, Bool, Outcome, done, List, [], ◌∷◌}
use clearram.Amd64.Ports.{Writes, outb}
use clearram.Clear.Vga.{vga_clear}
use clearram.Clear.State.{ClearState}
use clearram.Clear.Fill.{clear_clear}

-- The registers 12 and 13 of the screen controller are set to zero.
unfoldable pub vga_reset : Writes → Writes
vga_reset w = outb 0x3d5 0x00 (outb 0x3d4 0x0d (outb 0x3d5 0x00 (outb 0x3d4 0x0c w)))

-- The ports and the state behind the calls.
pub record Entered : Type 0 where
  pub writes : Writes
  pub cleared : Outcome ClearState

unfoldable pub cpu_entry : (present : ℕ → Bool) → Writes → ClearState → Entered
cpu_entry present w st = record {
  writes = vga_reset w;
  cleared = clear_clear present (record st { mem = vga_clear st.clear_vga st.mem });
}
