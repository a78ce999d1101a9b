-- ===== src/Clear/Fill/Blocks.antt =====
-- The loop of cr_clear_clear() zero-fills everything below `clear_va_top` that the map holds.
use clearram.Base.{
  ltb→le, ℕ, zero, ◌+◌, ◌-◌, ◌*◌, ◌/◌, ◌%◌, ◌^◌, ◌<◌, ◌≤◌, if◌then◌else◌, ltb, ◌≡◌, refl, arith,
  ◌∙◌, add64, List, length, inl, done, suc, Bool-cases, inr, ltb→le, ltb→lt, try, Bool, false, true,
  ap,
}
use clearram.Base.Bits.{bit_and_low}
use clearram.Clear.State.{ClearState, codes, print_cstr, print_footer}
use clearram.Clear.State.Laws.{print_cstr_lem, print_footer_lem}
use clearram.Clear.Fill.{
  block_bytes, clear_loop, clear_round, clear_clear, unit, halt_messages, clear_clear_block,
  rep_stosq,
}
use clearram.Clear.Fill.Stosq.{IsMap, IsRun, Ran, rep_stosq-Ran}

block_bytes_lem :
    (va top : ℕ)
    → va % 2 ^ 28 ≡ 0
    → va < top
    → top < 2 ^ 63
    → block_bytes va top ≡ (if ltb (top - va) (2 ^ 28) then top - va else 2 ^ 28)
block_bytes_lem va top aligned inside word = ground (arith, bit_and_low 28 va)

-- What the program's layout gives: the map has page 0 and ends at `top`, and the screen is behind it, at an even
-- address, with room for all the messages.
pub record IsLayout (present : ℕ → Bool) (vga top : ℕ) : Type 0 where
  pub map : IsMap present vga top
  pub screen_even : vga % 2 ≡ 0
  pub screen_top : vga + 8192 + 2 * (top / 2 ^ 28) < 2 ^ 64

module _ (present : ℕ → Bool) (vga top : ℕ) (layout : IsLayout present vga top) where
  -- The state at the head of the loop, when the blocks below `va` are done.
  record Cleared (va : ℕ) (st : ClearState) : Type 0 where
    screen_at : st.clear_vga ≡ vga
    top_at : st.clear_va_top ≡ top
    low : vga ≤ st.clear_va_vga_cur
    high : st.clear_va_vga_cur ≤ vga + 2 * (va / 2 ^ 28)
    even : st.clear_va_vga_cur % 2 ≡ 0
    zeroed : (a : ℕ) → a < va → a < top → present (a / 4096) ≡ true → st.mem a ≡ 0

  module _ (va : ℕ) (st : ClearState) (aligned : va % 2 ^ 28 ≡ 0) (inside : va < top)
      (inv : Cleared va st) where
    bytes : ℕ
    bytes = block_bytes va st.clear_va_top

    bytes_lem : bytes ≡ (if ltb (top - va) (2 ^ 28) then top - va else 2 ^ 28)
    unfolding bytes
    bytes_lem = ground (arith, inv.top_at, layout.map.word, block_bytes_lem va st.clear_va_top)

    during : ClearState
    during =
        let shown = print_footer va 0x1f st in
        record shown {
          clear_clear_flag = true;
          regs = record shown.regs { rax = 0; rcx = bytes / 8; rdi = va };
        }

    during-IsRun : IsRun present vga top layout.map during
    unfolding during
    during-IsRun = record {
      flag = refl;
      vga_at = inv.screen_at;
      top_at = inv.top_at;
      console = record {
        low = omega (arith, inv.low, inv.screen_at);
        even = inv.even;
        top = omega (arith, inv.high, layout.screen_top);
      };
      quad = refl;
      within = omega arith;
      aligned = omega arith;
      pages = ground (arith, bytes_lem, layout.map.whole);
      started = inl (omega arith);
      bound = ground (arith, bytes_lem, layout.map.word);
    }

    ran :
        (t : ClearState) × (rep_stosq present (st.clear_va_top / 8 + 2) during ≡ done t)
        × Ran present vga top layout.map during t
    unfolding during
    ran =
        rep_stosq-Ran present vga top layout.map (st.clear_va_top / 8 + 2) during during-IsRun
          (omega (arith, inv.top_at))

    -- The state behind the block.
    after : ClearState
    after = record ran.0 { clear_clear_flag = false }

    after_mem : (a : ℕ) → a < va + 2 ^ 28 → a < top → present (a / 4096) ≡ true → after.mem a ≡ 0
    unfolding during after
    after_mem a to under on = elim (Bool-cases (ltb a va)) [
      | inl before ↦
          ran.2.below a (ltb→lt a va before)
          ∙ print_footer_lem va 0x1f st a (omega (arith, inv.screen_at, layout.screen_top))
              (omega (arith, inv.screen_at, layout.map.behind))
          ∙ inv.zeroed a (ltb→lt a va before) under on
      | inr now ↦
          ran.2.zeroed a (ltb→le a va now) (ground (arith, bytes_lem, layout.map.whole)) under on
    ]

    clear_round-Cleared :
        (t : ClearState) × (clear_round present va st ≡ done t) × Cleared (va + 2 ^ 28) t
    unfolding clear_round clear_clear_block during after bytes
    clear_round-Cleared =
        let dot =
          print_cstr_lem (codes ".") after (omega (arith, ran.2.cursor, inv.even))
            (omega (arith, ran.2.cursor, inv.high, layout.screen_top)) in
        (
          print_cstr (codes ".") after,
          ap
              (λ o.
                try (try o (λ t. done (record t { clear_clear_flag = false })))
                  (λ t. done (print_cstr (codes ".") t)))
              ran.1,
          record {
            screen_at = ran.2.vga_at;
            top_at = ran.2.top_at;
            low = omega (arith, dot.0, ran.2.cursor, inv.low);
            high = omega (arith, dot.0, ran.2.cursor, inv.high);
            even = omega (arith, dot.0, ran.2.cursor, inv.even);
            zeroed = λ a to under on.
                dot.1 a (omega (arith, ran.2.cursor, inv.low, layout.map.behind))
                ∙ after_mem a to under on;
          },
        )

  loop_more :
      (fuel va : ℕ) (st t : ClearState)
      → ltb va st.clear_va_top ≡ true
      → add64 va unit ≡ va + 2 ^ 28
      → clear_round present va st ≡ done t
      → clear_loop present (suc fuel) va st ≡ clear_loop present fuel (va + 2 ^ 28) t
  unfolding clear_loop
  loop_more fuel va st t more moved e = rw (more, moved, e) refl

  -- The rounds that are left suffice for the blocks that are left.
  clear_loop-Cleared :
      (fuel va : ℕ) (st : ClearState)
      → va % 2 ^ 28 ≡ 0
      → top + 2 ^ 28 < va + fuel * 2 ^ 28
      → va ≤ top + 2 ^ 28
      → Cleared va st
      → (t : ClearState) × (clear_loop present fuel va st ≡ done t)
        × ((a : ℕ) → a < top → present (a / 4096) ≡ true → t.mem a ≡ 0)
        × (vga ≤ t.clear_va_vga_cur)
        × (t.clear_va_vga_cur ≤ vga + 2 * ((top + 2 ^ 28) / 2 ^ 28))
        × (t.clear_va_vga_cur % 2 ≡ 0)
  unfolding clear_loop
  clear_loop-Cleared zero va st aligned enough near inv = absurd (omega arith)
  clear_loop-Cleared (suc fuel) va st aligned enough near inv =
      elim (Bool-cases (ltb va st.clear_va_top)) [
        | inr ended ↦
            let past : top ≤ va = omega (arith, ltb→le va st.clear_va_top ended, inv.top_at) in
            (
              st,
              rw ended refl,
              λ a h on. inv.zeroed a (omega arith) h on,
              inv.low,
              omega (arith, inv.high),
              inv.even,
            )
        | inl more ↦
            let inside : va < top = omega (arith, ltb→lt va st.clear_va_top more, inv.top_at) in
            let moved : add64 va unit ≡ va + 2 ^ 28 = omega (arith, layout.map.word) in
            let round = clear_round-Cleared va st aligned inside inv in
            let ih =
              clear_loop-Cleared fuel (va + 2 ^ 28) round.0 (omega arith) (omega arith)
                (omega arith) round.2 in
            (ih.0, loop_more fuel va st round.0 more moved round.1 ∙ ih.1, ih.2, ih.3, ih.4, ih.5)
      ]

-- A state whose memory below `top` is zero on the pages of the map, with the cursor at most at `bound`.
record Quiet (present : ℕ → Bool) (top bound : ℕ) (st : ClearState) : Type 0 where
  zeroed : (a : ℕ) → a < top → present (a / 4096) ≡ true → st.mem a ≡ 0
  low : top ≤ st.clear_va_vga_cur
  high : st.clear_va_vga_cur ≤ bound
  even : st.clear_va_vga_cur % 2 ≡ 0

print_cstr-Quiet :
    (str : List ℕ) (present : ℕ → Bool) (top bound : ℕ) (st : ClearState)
    → bound + 2 * length str + 36 < 2 ^ 64
    → Quiet present top bound st
    → Quiet present top (bound + 2 * length str) (print_cstr str st)
print_cstr-Quiet str present top bound st fits q =
    let p = print_cstr_lem str st q.even (omega (arith, q.high)) in
    record {
      zeroed = λ a h on. p.1 a (omega (arith, q.low)) ∙ q.zeroed a h on;
      low = omega (arith, p.0, q.low);
      high = omega (arith, p.0, q.high);
      even = omega (arith, p.0, q.even);
    }

halt_messages-Quiet :
    (present : ℕ → Bool) (top bound : ℕ) (st : ClearState)
    → bound + 200 < 2 ^ 64
    → Quiet present top bound st
    → Quiet present top (bound + 24 + 32) (halt_messages st)
unfolding halt_messages
halt_messages-Quiet present top bound st fits q =
    print_cstr-Quiet (codes "resetting CPU#0.") present top (bound + 24) _ (omega arith) (
      widen (
        print_cstr-Quiet (codes "3...") present top (bound + 8 + 8) _ (omega arith) (
          print_cstr-Quiet (codes "2...") present top (bound + 8) _ (omega arith)
            (print_cstr-Quiet (codes "1...") present top bound st (omega arith) q))))
  where
    widen :
        {s : ClearState}
        → Quiet present top (bound + 8 + 8 + 8) s
        → Quiet present top (bound + 24) s
    widen w = record { zeroed = w.zeroed; low = w.low; high = omega (arith, w.high); even = w.even }

-- On a map of pages that has page 0 and ends at `clear_va_top`, with the screen behind it,
-- cr_clear_clear() comes to its end, whatever other pages the map lacks, and every byte below `clear_va_top` on a page of the map
-- is zero then.
pub clear_clear-zero :
    (present : ℕ → Bool) (st : ClearState)
    → IsLayout present st.clear_vga st.clear_va_top
    → (a : ℕ) → a < st.clear_va_top
    → present (a / 4096) ≡ true
    → (t : ClearState) × (clear_clear present st ≡ done t) × (t.mem a ≡ 0)
unfolding clear_clear
clear_clear-zero present st layout a below on =
    let top = st.clear_va_top in
    let vga = st.clear_vga in
    let start = record st { clear_va_vga_cur = vga } in
    let loop =
      clear_loop-Cleared present vga top layout (top / unit + 2) 0 start (omega arith) (omega arith)
        (omega arith)
        (record {
          screen_at = refl;
          top_at = refl;
          low = omega arith;
          high = omega arith;
          even = layout.screen_even;
          zeroed = λ b under inside on. absurd (omega arith);
        }) in
    let bound = vga + 2 * ((top + 2 ^ 28) / 2 ^ 28) in
    let done_text =
      print_cstr-Quiet (codes "done, ") present top bound loop.0 (omega (arith, layout.screen_top))
        (record {
          zeroed = loop.2;
          low = omega (arith, loop.3, layout.map.behind);
          high = loop.4;
          even = loop.5;
        }) in
    let behind_messages =
      halt_messages-Quiet present top (bound + 12) _ (omega (arith, layout.screen_top)) done_text in
    (
      halt_messages (print_cstr (codes "done, ") loop.0),
      rw loop.1 refl,
      behind_messages.zeroed a below on,
    )
