-- ===== src/Clear/State.antt =====
-- The part of struct cr_host_state that the code of subr_clear.c works on once
-- cr_clear_cpu_setup() has switched to the map of all RAM, and its messages. Memory is indexed by the
-- virtual addresses of that map.
pub mod Laws
use clearram.Base.{ℕ, ◌-◌, ◌*◌, Bool, add64, List, [], ◌∷◌}
use clearram.Clear.Vga.{Memory, screen, vga_print_cstr, vga_print_hnum}
use clearram.Clear.Regs.{CpuRegs}
use Prim.Native.Char.{code}
use Prim.Native.String.{String}

-- The bytes of a C string literal.
abbrev pub codes : String → List ℕ
codes String.[] = []
codes (String.◌∷◌ c s) = code c ∷ codes s

-- `regs` holds the registers of the processor, in the form that an exception saves them.
pub record ClearState : Type 0 where
  pub clear_vga : ℕ
  pub clear_va_top : ℕ
  pub clear_va_vga_cur : ℕ
  pub clear_clear_flag : Bool
  pub mem : Memory
  pub regs : CpuRegs

-- Printing at the cursor of the state.
abbrev pub print_cstr : List ℕ → ClearState → ClearState
print_cstr str st =
    let s = vga_print_cstr str 0x1f 1 (screen st.clear_va_vga_cur st.mem) in
    record st { clear_va_vga_cur = s.cur; mem = s.mem }

-- Printing in the last row, with a cursor of its own.
abbrev pub print_footer : (u64 attr : ℕ) → ClearState → ClearState
print_footer u64 attr st =
    let vga_footer = add64 st.clear_vga (2 * 80 * (25 - 1)) in
    record st { mem = (vga_print_hnum u64 attr 1 (screen vga_footer st.mem)).mem }
