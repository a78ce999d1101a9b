-- ===== src/Clear/Vga.antt =====
-- The VGA output of subr_clear.c. Memory is a function from the address of a byte; a cursor is the
-- address that the next character goes to, and each character is followed by its attribute.
pub mod Hex
pub mod Text
pub mod Cursor
pub mod Frame
mod Tests
use clearram.Base.{
  ℕ, zero, suc, ◌+◌, ◌-◌, ◌*◌, ◌/◌, ◌%◌, ◌^◌, if◌then◌else◌, ltb, ◌==◌, bit_and, bit_or, add64,
  neg64, shr, List, [], ◌∷◌, ◌++◌,
}

abbrev pub Memory : Type 0
Memory = ℕ → ℕ

abbrev pub write_byte : ℕ → ℕ → Memory → Memory
write_byte p v m a = if a == p then v else m a

pub record Screen : Type 0 where
  pub cur : ℕ
  pub mem : Memory

abbrev pub screen : ℕ → Memory → Screen
screen c m = record { cur = c; mem = m }

-- `*p++ = c; *p++ = attr;`
abbrev pub put_char : (attr c : ℕ) → Screen → Screen
put_char attr c s =
    screen (add64 s.cur 2) (write_byte (add64 s.cur 1) attr (write_byte s.cur c s.mem))

-- The characters of a C string without its terminator.
unfoldable pub put_chars : (attr : ℕ) → List ℕ → Screen → Screen
put_chars attr [] s = s
put_chars attr (c ∷ cs) s = put_chars attr cs (put_char attr c s)

-- The end of the three print functions: on to a multiple of `align` characters, within the low
-- twelve bits of the address.
unfoldable pub align_cursor : (align p : ℕ) → ℕ
align_cursor align p =
    let low = bit_and p 0xfff in
    let over = low % (align * 2) in
    if over == 0 then p else bit_or (bit_and p (neg64 0x1000)) (low + (align * 2 - over))

abbrev pub align_screen : ℕ → Screen → Screen
align_screen align s = record s { cur = align_cursor align s.cur }

unfoldable pub vga_print_cstr : List ℕ → (attr align : ℕ) → Screen → Screen
vga_print_cstr str attr align s = align_screen align (put_chars attr str s)

-- `hex_tbl` and `crdpr_tbl`, at an index below 16.
abbrev pub hex_digit : ℕ → ℕ
hex_digit d = if ltb d 10 then b'0' + d else b'a' + (d - 10)

-- `buf[2 + ndigit]` for the last `left` values of `ndigit`.
unfoldable pub hnum_digits : (left u64 : ℕ) → List ℕ
hnum_digits zero u64 = []
hnum_digits (suc left) u64 = hex_digit (bit_and (shr u64 (left * 4)) 0xf) ∷ hnum_digits left u64

unfoldable pub vga_print_hnum : ℕ → (attr align : ℕ) → Screen → Screen
vga_print_hnum u64 attr align s =
    align_screen align (put_chars attr (b'0' ∷ b'x' ∷ hnum_digits 16 u64) s)

-- The characters that the loop over `nbyte` of cr_clear_vga_print_reg() writes.
unfoldable pub reg_digits : (nbyte reg : ℕ) → List ℕ
reg_digits zero reg = []
reg_digits (suc n) reg =
    let byte = bit_and (shr reg (n * 8)) 0xff in
    hex_digit (bit_and (shr byte 4) 0xf) ∷ hex_digit (bit_and (shr byte 0) 0xf) ∷ reg_digits n reg

unfoldable pub vga_print_reg : ℕ → (attr align : ℕ) → Screen → Screen
vga_print_reg reg attr align s = align_screen align (put_chars attr (reg_digits 8 reg) s)

abbrev pub vga_blank : ℕ
vga_blank = 0x1f001f001f001f00

-- `*(unsigned long *)p = value`, lowest byte first.
abbrev pub write_long : (left p value : ℕ) → Memory → Memory
write_long zero p value m = m
write_long (suc left) p value m =
    write_long left (p + 1) (value / 256) (write_byte p (value % 256) m)

-- The loop of cr_clear_vga_clear(), with the rounds left.
unfoldable pub clear_loop : (rounds va_vga_cur : ℕ) → Memory → Memory
clear_loop zero va m = m
clear_loop (suc rounds) va m = clear_loop rounds (va + 8) (write_long 8 va vga_blank m)

-- 80 columns by 25 rows of 2 bytes, in steps of 8.
unfoldable pub vga_clear : (clear_vga : ℕ) → Memory → Memory
vga_clear clear_vga m = clear_loop 500 clear_vga m
