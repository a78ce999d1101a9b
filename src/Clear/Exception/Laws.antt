-- ===== src/Clear/Exception/Laws.antt =====
-- What the handler does with a fault of the instruction that clears.
use clearram.Base.{
  refl, ℕ, ◌+◌, ◌*◌, ◌/◌, ◌%◌, ◌^◌, ◌<◌, ◌≤◌, true, ◌≡◌, arith, if◌then◌else◌, leb, add64, ◌||◌,
  ltb, bit_and, neg64, page_size_bytes, Bool-cases, inl, inr, le→ltb, ltb→lt, lt→ltb, ltb→le, ◌∙◌,
  ap,
}
use clearram.Base.Bits.{bit_and_high}
use clearram.Clear.State.{ClearState, codes, print_cstr}
use clearram.Clear.State.Laws.{print_cstr_lem, print_footer_lem}
use clearram.Clear.Exception.{
  cpu_exception, clear_exception, show_fault, handled, skipped, restarted, Handled,
}

-- The screen is at an even address below the end of the address space, with the cursor in it.
pub record IsScreen (st : ClearState) : Type 0 where
  pub low : st.clear_vga ≤ st.clear_va_vga_cur
  pub even : st.clear_va_vga_cur % 2 ≡ 0
  pub top : st.clear_va_vga_cur + 4096 < 2 ^ 64

pub show_fault_lem :
    (st : ClearState) (a : ℕ) → IsScreen st → a < st.clear_vga → (show_fault st).mem a ≡ st.mem a
show_fault_lem st a is below = ground (
  arith,
  is.low,
  is.top,
  (print_cstr_lem (codes "!") st is.even (omega (arith, is.top))).1 a,
  print_footer_lem st.regs.rdi 0x1c (print_cstr (codes "!") st) a,
)

-- The state after a fault that ends the instruction.
abbrev pub ended : ClearState → ClearState
ended st =
    let shown = show_fault st in
    record shown { regs = record shown.regs { orig_rip = add64 shown.regs.orig_rip 3 } }

-- The state after a fault that goes on with the next page.
abbrev pub next_page : ClearState → ClearState
next_page st =
    let shown = show_fault st in
    record shown {
      regs = record shown.regs {
        rcx = shown.regs.rcx / 512 * 512 + 512;
        rdi = shown.regs.rdi / 4096 * 4096 + 4096;
      };
    }

-- A fault of the instruction that clears ends it if the address is not below `clear_va_top`, or at
-- most 1023 quadwords are left; otherwise the instruction goes on at the next page, with a count that
-- is rounded down to a page and then larger by a page.
pub cpu_exception_lem :
    (st : ClearState)
    → st.clear_clear_flag ≡ true
    → st.regs.rdi + 4096 < 2 ^ 64
    → st.regs.rcx + 512 < 2 ^ 64
    → cpu_exception st ≡ (
        if leb st.clear_va_top st.regs.rdi || ltb st.regs.rcx 1024
        then handled skipped (ended st)
        else handled restarted (next_page st))
unfolding cpu_exception clear_exception
cpu_exception_lem st flag top count =
    let count_masked : bit_and st.regs.rcx (neg64 (page_size_bytes / 8)) ≡ st.regs.rcx / 512 * 512 =
      bit_and_high 9 55 st.regs.rcx (omega arith) in
    let page : bit_and st.regs.rdi (neg64 page_size_bytes) ≡ st.regs.rdi / 4096 * 4096 =
      bit_and_high 12 52 st.regs.rdi (omega arith) in
    let count_next : add64 (st.regs.rcx / 512 * 512) (page_size_bytes / 8)
        ≡ st.regs.rcx / 512 * 512 + 512 =
      omega arith in
    let page_next : add64 (st.regs.rdi / 4096 * 4096) page_size_bytes
        ≡ st.regs.rdi / 4096 * 4096 + 4096 =
      omega arith in
    rw (flag, count_masked, page, count_next, page_next)
      (elim (Bool-cases (leb st.clear_va_top st.regs.rdi)) [
        | inl above ↦ rw above refl
        | inr below ↦ elim (Bool-cases (ltb st.regs.rcx 1024)) [
          | inl few ↦
              rw
                (
                  below,
                  few,
                  le→ltb 512 (st.regs.rcx / 512 * 512) (omega (arith, ltb→lt st.regs.rcx 1024 few)),
                )
                refl
          | inr more ↦
              rw
                (
                  below,
                  more,
                  lt→ltb 512 (st.regs.rcx / 512 * 512)
                      (omega (arith, ltb→le st.regs.rcx 1024 more)),
                )
                refl
        ]
      ])

-- A fault at the start of a page, with whole pages to go and more than one, moves the end of the range
-- that the instruction clears two pages on: the count grows by a page where one page fewer is left.
pub cpu_exception-end :
    (st : ClearState)
    → st.clear_clear_flag ≡ true
    → st.clear_va_top < 2 ^ 63
    → st.regs.rcx < 2 ^ 60
    → st.regs.rdi < st.clear_va_top
    → st.regs.rdi % 4096 ≡ 0
    → st.regs.rcx % 512 ≡ 0
    → 512 < st.regs.rcx
    → let regs = (cpu_exception st).state.regs in
      regs.rdi + 8 * regs.rcx ≡ st.regs.rdi + 8 * st.regs.rcx + 8192
cpu_exception-end st flag word count inside page whole more =
    ap (λ (h : Handled). h.state.regs.rdi + 8 * h.state.regs.rcx) restart ∙ omega arith
  where
    restart : cpu_exception st ≡ handled restarted (next_page st)
    restart = cpu_exception_lem st flag (omega arith) (omega arith) ∙ ground arith
