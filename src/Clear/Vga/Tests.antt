-- ===== src/Clear/Vga/Tests.antt =====
-- The print functions on a screen at 0xb8000.
use clearram.Base.{arith, ◌≡◌, [], ◌∷◌}
use clearram.Clear.Vga.{
  Screen, screen, hnum_digits, reg_digits, vga_clear, vga_print_cstr, vga_print_hnum, vga_print_reg,
}
use clearram.Clear.Vga.Hex.{hex_value, hnum_digits-value}
use clearram.Clear.Vga.Text.{IsWritten, next_stop, vga_print-IsWritten}
use clearram.Clear.Vga.Frame.{vga_clear_lem}

abbrev console : Screen
console = screen 0xb8000 (λ a. 7)

hnum_digits-value_example : hex_value 0 (hnum_digits 16 0xdeadbeef) ≡ 0xdeadbeef
hnum_digits-value_example = hnum_digits-value 0xdeadbeef (omega arith)

vga_clear_lem_example : vga_clear 0xb8000 console.mem 0xb8001 ≡ 0x1f
vga_clear_lem_example = vga_clear_lem 0xb8000 console.mem 0xb8001

vga_print-IsWritten_example :
    IsWritten
      (b'o' ∷ b'k' ∷ [])
      0x1f
      0xb8000
      console.mem
      (vga_print_cstr (b'o' ∷ b'k' ∷ []) 0x1f 8 console).mem
    × ((vga_print_cstr (b'o' ∷ b'k' ∷ []) 0x1f 8 console).cur ≡ next_stop 8 0xb8004)
    × IsWritten
        (b'0' ∷ b'x' ∷ hnum_digits 16 5)
        0x1f
        0xb8000
        console.mem
        (vga_print_hnum 5 0x1f 8 console).mem
    × ((vga_print_hnum 5 0x1f 8 console).cur ≡ next_stop 8 0xb8024)
    × IsWritten (reg_digits 8 5) 0x1f 0xb8000 console.mem (vga_print_reg 5 0x1f 8 console).mem
    × ((vga_print_reg 5 0x1f 8 console).cur ≡ next_stop 8 0xb8020)
vga_print-IsWritten_example =
    vga_print-IsWritten (b'o' ∷ b'k' ∷ []) 5 0x1f 8 console (omega arith) (omega arith)
      (omega arith) (omega arith) (omega arith)
