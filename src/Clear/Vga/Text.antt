-- ===== src/Clear/Vga/Text.antt =====
-- What the print functions leave in memory, and where they leave the cursor.
use mathlib.Core.Path.{subst}
use clearram.Base.{
  sym, ℕ, zero, suc, ◌+◌, ◌*◌, ◌^◌, ◌<◌, ◌≤◌, List, [], ◌∷◌, ◌≡◌, refl, arith, ap, length, get_or,
  ◌⊎◌, sym, ◌%◌, ◌∙◌, ◌-◌, if◌then◌else◌, ◌==◌,
}
use clearram.Clear.Vga.{
  write_byte, Memory, Screen, screen, put_char, put_chars, align_cursor, vga_print_cstr,
  vga_print_hnum, vga_print_reg, hnum_digits, reg_digits,
}
use clearram.Clear.Vga.Cursor.{align_cursor_lem}

-- `m'` is `m` with the characters of `str` and their attributes from `p` on.
pub record IsWritten (str : List ℕ) (attr p : ℕ) (m m' : Memory) : Type 0 where
  pub chars : (i : ℕ) → i < length str → m' (p + 2 * i) ≡ get_or str i 0
  pub attrs : (i : ℕ) → i < length str → m' (p + 2 * i + 1) ≡ attr
  pub outside : (a : ℕ) → (a < p) ⊎ (p + 2 * length str ≤ a) → m' a ≡ m a

-- The memory behind one character at `p`.
abbrev with_char : (attr c p : ℕ) → Memory → Memory
with_char attr c p m = write_byte (p + 1) attr (write_byte p c m)

module _ (attr c p : ℕ) (cs : List ℕ) (m m' : Memory)
    (rest : IsWritten cs attr (p + 2) (with_char attr c p m) m') where
  first_char : (m' p ≡ c) × (m' (p + 1) ≡ attr)
  first_char = (ground (arith, rest.outside p), ground (arith, rest.outside (p + 1)))

  chars_cons : (i : ℕ) → i < length (c ∷ cs) → m' (p + 2 * i) ≡ get_or (c ∷ cs) i 0
  chars_cons zero h = let e : p + 2 * 0 ≡ p = omega arith in rw e first_char.0
  chars_cons (suc i) h =
      let e : p + 2 * suc i ≡ p + 2 + 2 * i = omega arith in rw e (rest.chars i (omega arith))

  attrs_cons : (i : ℕ) → i < length (c ∷ cs) → m' (p + 2 * i + 1) ≡ attr
  attrs_cons zero h = let e : p + 2 * 0 ≡ p = omega arith in rw e first_char.1
  attrs_cons (suc i) h =
      let e : p + 2 * suc i ≡ p + 2 + 2 * i = omega arith in rw e (rest.attrs i (omega arith))

  IsWritten-cons : IsWritten (c ∷ cs) attr p m m'
  IsWritten-cons = record {
    chars = chars_cons;
    attrs = attrs_cons;
    outside = λ a h. ground (arith, rest.outside a);
  }

pub put_chars-IsWritten :
    (attr : ℕ) (str : List ℕ) (s : Screen)
    → s.cur + 2 * length str < 2 ^ 64
    → IsWritten str attr s.cur s.mem (put_chars attr str s).mem
      × ((put_chars attr str s).cur ≡ s.cur + 2 * length str)
unfolding put_chars
put_chars-IsWritten attr [] s top = (
  record {
    chars = λ i h. absurd (omega arith);
    attrs = λ i h. absurd (omega arith);
    outside = λ a h. refl;
  },
  omega arith,
)
put_chars-IsWritten attr (c ∷ cs) s top =
    let p = s.cur in
    let moved : put_char attr c s ≡ screen (p + 2) (with_char attr c p s.mem) = ground arith in
    let ih =
      put_chars-IsWritten attr cs (screen (p + 2) (with_char attr c p s.mem)) (omega arith) in
    subst
      (λ t.
        IsWritten (c ∷ cs) attr p s.mem (put_chars attr cs t).mem
        × ((put_chars attr cs t).cur ≡ p + 2 * suc (length cs)))
      (sym moved) (IsWritten-cons attr c p cs s.mem _ ih.0, omega (arith, ih.1))

-- The three print functions write the characters of their text, each followed by the attribute, from
-- the cursor on and nothing else, and leave the cursor where align_cursor() does behind the text.
pub vga_print-aligned :
    (str : List ℕ) (u64 attr align : ℕ) (s : Screen)
    → s.cur + 2 * length str < 2 ^ 64
    → s.cur + 36 < 2 ^ 64
    → IsWritten str attr s.cur s.mem (vga_print_cstr str attr align s).mem
      × ((vga_print_cstr str attr align s).cur ≡ align_cursor align (s.cur + 2 * length str))
      × IsWritten
          (b'0' ∷ b'x' ∷ hnum_digits 16 u64)
          attr
          s.cur
          s.mem
          (vga_print_hnum u64 attr align s).mem
      × ((vga_print_hnum u64 attr align s).cur ≡ align_cursor align (s.cur + 36))
      × IsWritten (reg_digits 8 u64) attr s.cur s.mem (vga_print_reg u64 attr align s).mem
      × ((vga_print_reg u64 attr align s).cur ≡ align_cursor align (s.cur + 32))
unfolding vga_print_cstr vga_print_hnum vga_print_reg hnum_digits reg_digits
vga_print-aligned str u64 attr align s top top' =
    let hnum = put_chars-IsWritten attr (b'0' ∷ b'x' ∷ hnum_digits 16 u64) s (omega arith) in
    let reg = put_chars-IsWritten attr (reg_digits 8 u64) s (omega arith) in
    let cstr = put_chars-IsWritten attr str s top in
    (
      cstr.0,
      ap (align_cursor align) cstr.1,
      hnum.0,
      ap (align_cursor align) hnum.1,
      reg.0,
      ap (align_cursor align) reg.1,
    )

-- Where the cursor is behind a text that ends at `p`: there, or at the next multiple of `align`
-- characters in the page of `p`.
abbrev pub next_stop : (align p : ℕ) → ℕ
next_stop align p =
    let over = p % 4096 % (align * 2) in if over == 0 then p else p + (align * 2 - over)

-- The next multiple is in the page of `p`.
abbrev pub IsWithin : (align p : ℕ) → Type 0
IsWithin align p = p % 4096 + (align * 2 - p % 4096 % (align * 2)) < 4096

-- Let the next multiple of `align` characters behind the end of each text be within the page of 4096
-- bytes that the text ends in. The three print functions write the characters of their text (the
-- string; "0x" and 16 digits; the 16 digits in the order of the bytes), each followed by the
-- attribute, from the cursor on and nothing else, and leave the cursor behind the text, or at that
-- multiple where the text does not end on one.
pub vga_print-IsWritten :
    (str : List ℕ) (u64 attr align : ℕ) (s : Screen)
    → s.cur + 2 * length str < 2 ^ 64
    → s.cur + 36 < 2 ^ 64
    → IsWithin align (s.cur + 2 * length str)
    → IsWithin align (s.cur + 36)
    → IsWithin align (s.cur + 32)
    → IsWritten str attr s.cur s.mem (vga_print_cstr str attr align s).mem
      × ((vga_print_cstr str attr align s).cur ≡ next_stop align (s.cur + 2 * length str))
      × IsWritten
          (b'0' ∷ b'x' ∷ hnum_digits 16 u64)
          attr
          s.cur
          s.mem
          (vga_print_hnum u64 attr align s).mem
      × ((vga_print_hnum u64 attr align s).cur ≡ next_stop align (s.cur + 36))
      × IsWritten (reg_digits 8 u64) attr s.cur s.mem (vga_print_reg u64 attr align s).mem
      × ((vga_print_reg u64 attr align s).cur ≡ next_stop align (s.cur + 32))
vga_print-IsWritten str u64 attr align s top top' in_page in_page' in_page'' =
    let text = vga_print-aligned str u64 attr align s top top' in
    (
      text.0,
      text.1 ∙ align_cursor_lem align (s.cur + 2 * length str) top in_page,
      text.2,
      text.3 ∙ align_cursor_lem align (s.cur + 36) top' in_page',
      text.4,
      text.5 ∙ align_cursor_lem align (s.cur + 32) (omega arith) in_page'',
    )
