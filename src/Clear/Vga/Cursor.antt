-- ===== src/Clear/Vga/Cursor.antt =====
-- Where align_cursor, the end of the print functions, leaves the cursor.
use clearram.Base.{
  ◌∙◌, ap, ℕ, ◌+◌, ◌-◌, ◌*◌, ◌/◌, ◌%◌, ◌^◌, ◌<◌, if◌then◌else◌, ◌==◌, bit_or, ◌≡◌, ◌≢◌, arith, ap,
  ◌∙◌,
}
use clearram.Base.Bits.{
  bit_and_low, bit_and_high, bit_or_fields, bit_or_scaled, bit_or_step, bit_or-zero,
}
use clearram.Clear.Vga.{align_cursor}

-- Within a page of 4096 bytes the cursor goes on to the next multiple of `align` characters, and stays
-- where it is on such a multiple.
pub align_cursor_lem :
    (align p : ℕ)
    → p < 2 ^ 64
    → p % 4096 + (align * 2 - p % 4096 % (align * 2)) < 4096
    → align_cursor align p
      ≡ (if (p % 4096 % (align * 2)) == 0 then p else p + (align * 2 - p % 4096 % (align * 2)))
unfolding align_cursor
align_cursor_lem align p word fits = ground (
  arith,
  bit_and_low 12 p,
  bit_and_high 12 52 p,
  bit_or_fields 12 (p / 4096) (p % 4096 + (align * 2 - p % 4096 % (align * 2))),
)

-- One character per step never moves an even cursor.
pub align_cursor-one : (p : ℕ) → p % 2 ≡ 0 → align_cursor 1 p ≡ p
unfolding align_cursor
align_cursor-one p even = ground (arith, bit_and_low 12 p)

carry_lost : (q : ℕ) → q % 2 ≡ 1 → bit_or (q * 4096) 4096 ≡ q * 4096
carry_lost q odd =
    bit_or_scaled 12 q 1
    ∙ ap (λ (n : ℕ). n * 4096) (omega (arith, bit_or_step q 1, bit_or-zero (q / 2)))

-- In a page with an odd number, a cursor that has the page's end for its next multiple goes back to
-- the page's start: the carry is lost in the `|`.
pub align_cursor-back :
    (align p : ℕ)
    → p < 2 ^ 64
    → p / 4096 % 2 ≡ 1
    → p % 4096 % (align * 2) ≢ 0
    → p % 4096 + (align * 2 - p % 4096 % (align * 2)) ≡ 4096
    → (align_cursor align p ≡ p / 4096 * 4096) × (align_cursor align p < p)
unfolding align_cursor
align_cursor-back align p word odd between at_end =
    ground (arith, bit_and_low 12 p, bit_and_high 12 52 p, carry_lost (p / 4096) odd)
