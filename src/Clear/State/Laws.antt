-- ===== src/Clear/State/Laws.antt =====
-- The messages write nothing below the screen.
use clearram.Base.{ℕ, ◌+◌, List, ◌<◌, ◌^◌, ◌%◌, ◌≡◌, ◌*◌, [], length, add64, ◌-◌, arith, ◌∙◌, inl}
use clearram.Clear.Vga.{screen}
use clearram.Clear.Vga.Text.{vga_print-aligned}
use clearram.Clear.Vga.Cursor.{align_cursor-one}
use clearram.Clear.State.{ClearState, print_cstr, print_footer}

-- A message moves an even cursor behind it, and writes nothing below the cursor.
pub print_cstr_lem :
    (str : List ℕ) (st : ClearState)
    → st.clear_va_vga_cur % 2 ≡ 0
    → st.clear_va_vga_cur + 2 * length str + 36 < 2 ^ 64
    → ((print_cstr str st).clear_va_vga_cur ≡ st.clear_va_vga_cur + 2 * length str)
      × ((a : ℕ) → a < st.clear_va_vga_cur → (print_cstr str st).mem a ≡ st.mem a)
print_cstr_lem str st even top =
    let written =
      vga_print-aligned str 0 0x1f 1 (screen st.clear_va_vga_cur st.mem) (omega arith)
        (omega arith) in
    (
      written.1 ∙ align_cursor-one (st.clear_va_vga_cur + 2 * length str) (omega arith),
      λ a below. written.0.outside a (inl below),
    )

-- The footer leaves memory below the screen alone.
pub print_footer_lem :
    (u64 attr : ℕ) (st : ClearState) (a : ℕ)
    → st.clear_vga + 4096 < 2 ^ 64
    → a < st.clear_vga
    → (print_footer u64 attr st).mem a ≡ st.mem a
print_footer_lem u64 attr st a top below =
    (vga_print-aligned [] u64 attr 1 (screen (add64 st.clear_vga (2 * 80 * (25 - 1))) st.mem)
        (omega arith) (omega arith)).2.outside
      a (omega arith)
