-- ===== src/Clear/Fill.antt =====
-- cr_clear_clear() of subr_clear.c with crp_clear_clear_block() and crp_clear_halt(): the loop that
-- zero-fills RAM, on the virtual addresses of the map that cr_clear_cpu_setup() has switched to. The
-- section's parameter says which pages that map has, by the number of the page. Of
-- crp_clear_halt() the messages are here, and the waits between them in Clear/Halt.
pub mod Stosq
pub mod Blocks
pub mod Tests
use clearram.Base.{
  ℕ, zero, suc, ◌+◌, ◌-◌, ◌*◌, ◌/◌, Bool, true, false, if◌then◌else◌, ltb, ◌==◌, bit_and, add64,
  sub64, Outcome, done, undefined, out_of_fuel, try,
}
use clearram.Clear.Vga.{write_long}
use clearram.Clear.State.{ClearState, codes, print_cstr, print_footer}
use clearram.Clear.Exception.{Handled, cpu_exception, skipped, restarted, stopped}

-- One round of `stosq` with the direction flag clear.
abbrev pub store_quad : ClearState → ClearState
store_quad st =
    let regs = st.regs in
    record st {
      mem = write_long 8 regs.rdi regs.rax st.mem;
      regs = record regs { rcx = regs.rcx - 1; rdi = add64 regs.rdi 8 };
    }

-- The return from the exception: behind the instruction, or to it. The handler does not stop the
-- machine while the flag is set.
unfoldable pub resume : Handled → (ClearState → Outcome ClearState) → Outcome ClearState
resume h again = elim h.status [
  | skipped ↦ done h.state
  | restarted ↦ again h.state
  | stopped ↦ undefined
]

abbrev pub unit : ℕ
unit = 0x1000 * 512 * 128

abbrev pub block_bytes : (va_cur top : ℕ) → ℕ
block_bytes va_cur top =
    let nbytes = sub64 unit (bit_and va_cur (unit - 1)) in
    if ltb (sub64 top va_cur) nbytes then sub64 top va_cur else nbytes

-- The messages of crp_clear_halt() without DEBUG.
unfoldable pub halt_messages : ClearState → ClearState
halt_messages st =
    print_cstr (codes "resetting CPU#0.")
      (print_cstr (codes "3...") (print_cstr (codes "2...") (print_cstr (codes "1...") st)))

module _ (present : ℕ → Bool) where
  -- `rep stosq` on the registers of the state. A page that the map does not have is an exception. Its
  -- entry reads the word at address 128, for `addq (16*8), %r8`: without page 0 the entry faults
  -- itself, each time again, and the instruction has no end.
  unfoldable pub rep_stosq : (fuel : ℕ) → ClearState → Outcome ClearState
  unfolding resume
  rep_stosq zero st = out_of_fuel
  rep_stosq (suc fuel) st =
      let again = λ (t : ClearState). rep_stosq fuel t in
      if st.regs.rcx == 0
      then done st
      else if present (st.regs.rdi / 0x1000)
      then again (store_quad st)
      else if present 0
      then resume (cpu_exception st) again
      else undefined

  -- crp_clear_clear_block(): the flag is set while the instruction runs.
  unfoldable pub clear_clear_block : (va_base qwords : ℕ) → ClearState → Outcome ClearState
  clear_clear_block va_base qwords st =
      let during = record st {
        clear_clear_flag = true;
        regs = record st.regs { rax = 0; rcx = qwords / 8; rdi = va_base };
      } in
      try (rep_stosq (st.clear_va_top / 8 + 2) during)
        λ after. done (record after { clear_clear_flag = false })

  -- The body of the loop.
  unfoldable pub clear_round : ℕ → ClearState → Outcome ClearState
  clear_round va_cur st =
      let nbytes = block_bytes va_cur st.clear_va_top in
      try (clear_clear_block va_cur nbytes (print_footer va_cur 0x1f st))
        λ t. done (print_cstr (codes ".") t)

  unfoldable pub clear_loop : (fuel va_cur : ℕ) → ClearState → Outcome ClearState
  clear_loop zero va_cur st = out_of_fuel
  clear_loop (suc fuel) va_cur st =
      let rest = λ (t : ClearState). clear_loop fuel (add64 va_cur unit) t in
      if ltb va_cur st.clear_va_top then try (clear_round va_cur st) rest else done st

  -- A round for every block of `unit` bytes, and the last test.
  unfoldable pub clear_clear : ClearState → Outcome ClearState
  clear_clear st =
      let start = record st { clear_va_vga_cur = st.clear_vga } in
      try (clear_loop (st.clear_va_top / unit + 2) 0 start)
        λ t. done (halt_messages (print_cstr (codes "done, ") t))
