-- ===== src/Clear/Exception/Cells.antt =====
-- One cell of the dump of the registers: blanks, a name or a value.
use clearram.Base.{
  ℕ, zero, suc, ◌+◌, ◌*◌, ◌%◌, ◌^◌, ◌<◌, ◌≤◌, List, [], ◌∷◌, length, ◌≡◌, refl, arith, ◌∙◌, ◌⊎◌,
}
use clearram.Base.Bits.{bit_and_low}
use clearram.Clear.Vga.{Screen, align_cursor, vga_print_cstr, vga_print_reg}
use clearram.Clear.Vga.Text.{vga_print-aligned}
use clearram.Clear.Vga.Cursor.{align_cursor_lem}
use clearram.Clear.State.{codes}
use clearram.Clear.Exception.{blank_cells, print_name, print_value}

-- `n` bytes from the cursor on may have been written, and the cursor is behind them.
pub record Writes (n : ℕ) (s t : Screen) : Type 0 where
  pub moved : t.cur ≡ s.cur + n
  pub outside : (a : ℕ) → a < s.cur ⊎ (s.cur + n ≤ a) → t.mem a ≡ s.mem a

pub Writes-trans : (m n : ℕ) {s t u : Screen} → Writes m s t → Writes n t u → Writes (m + n) s u
Writes-trans m n v w = record {
  moved = omega (arith, v.moved, w.moved);
  outside = λ a h. w.outside a (omega (arith, v.moved)) ∙ v.outside a (omega arith);
}

align_cursor-on : (align p : ℕ) → p % 4096 % (align * 2) ≡ 0 → align_cursor align p ≡ p
unfolding align_cursor
align_cursor-on align p on = ground (arith, bit_and_low 12 p)

blank-Writes :
    (s : Screen)
    → s.cur % 16 ≡ 0
    → s.cur + 100 < 2 ^ 64
    → Writes 16 s (vga_print_cstr (codes "        ") 0x1f 8 s)
blank-Writes s on top =
    let written = vga_print-aligned (codes "        ") 0 0x1f 8 s (omega arith) (omega arith) in
    record {
      moved = written.1 ∙ align_cursor-on 8 (s.cur + 16) (omega arith);
      outside = λ a h. written.0.outside a (omega arith);
    }

pub blank_cells-Writes :
    (n : ℕ) (s : Screen)
    → s.cur % 16 ≡ 0
    → s.cur + 16 * n + 100 < 2 ^ 64
    → Writes (16 * n) s (blank_cells n s)
unfolding blank_cells
blank_cells-Writes zero s on top = record { moved = omega arith; outside = λ a h. refl }
blank_cells-Writes (suc n) s on top =
    let cell = blank-Writes s on (omega arith) in
    let rest =
      blank_cells-Writes n (vga_print_cstr (codes "        ") 0x1f 8 s) (omega (arith, cell.moved))
        (omega (arith, cell.moved)) in
    record {
      moved = omega (arith, cell.moved, rest.moved);
      outside = λ a h. rest.outside a (omega (arith, cell.moved)) ∙ cell.outside a (omega arith);
    }

-- A column of 20 characters starts at the cursor, in a page that has room for a row.
pub record IsColumn (s : Screen) : Type 0 where
  pub column : s.cur % 4096 % 40 ≡ 0
  pub room : s.cur % 4096 + 41 ≤ 4096
  pub top : s.cur + 100 < 2 ^ 64

next_column :
    (p n : ℕ)
    → p % 4096 % 40 ≡ 0
    → p % 4096 + 41 ≤ 4096
    → p + 100 < 2 ^ 64
    → 0 < n
    → n < 20
    → align_cursor 20 (p + 2 * n) ≡ p + 40
next_column p n column room top some short =
    align_cursor_lem 20 (p + 2 * n) (omega arith) (omega arith) ∙ ground arith

pub print_name-Writes :
    (name : List ℕ) (s : Screen) → IsColumn s → length name < 20 → Writes 40 s (print_name name s)
print_name-Writes [] s is short = record { moved = omega (arith, is.top); outside = λ a h. refl }
print_name-Writes (c ∷ cs) s is short =
    let top = is.top in
    let written = vga_print-aligned (c ∷ cs) 0 0x1f 20 s (omega arith) (omega arith) in
    record {
      moved =
          written.1
          ∙ next_column s.cur (suc (length cs)) is.column is.room is.top (omega arith) short;
      outside = λ a h. written.0.outside a (omega arith);
    }

pub print_value-Writes :
    (name : List ℕ) (reg : ℕ) (s : Screen) → IsColumn s → Writes 40 s (print_value name reg s)
unfolding clearram.Clear.Vga.reg_digits
print_value-Writes [] reg s is = record { moved = omega (arith, is.top); outside = λ a h. refl }
print_value-Writes (c ∷ cs) reg s is =
    let top = is.top in
    let written = vga_print-aligned [] reg 0x1f 20 s (omega arith) (omega arith) in
    record {
      moved = written.5 ∙ next_column s.cur 16 is.column is.room is.top (omega arith) (omega arith);
      outside = λ a h. written.4.outside a (omega arith);
    }
