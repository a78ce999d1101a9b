-- ===== src/Clear/Fill/Stosq.antt =====
-- One `rep stosq` on the map of all RAM, with the faults on the way.
use clearram.Base.{
  refl, ℕ, zero, suc, ◌+◌, ◌*◌, ◌^◌, ◌<◌, if◌then◌else◌, ltb, leb, ◌&&◌, ◌≡◌, arith, add64, Bool,
  ◌==◌, true, ◌≤◌, ◌/◌, false, ◌%◌, ◌||◌, ◌-◌, Bool-cases, inl, ap, ◌⊎◌, done, ◌∙◌, ltb→lt, inr,
  ltb→le,
}
use clearram.Clear.Vga.{Memory, write_long}
use clearram.Clear.State.{ClearState}
use clearram.Clear.Exception.{cpu_exception, handled, skipped, restarted, Handled}
use clearram.Clear.Exception.Laws.{cpu_exception_lem, show_fault_lem, IsScreen, ended, next_page}
use clearram.Clear.Fill.{rep_stosq, store_quad, resume}

write_zero :
    (p : ℕ) (m : Memory) (a : ℕ)
    → write_long 8 p 0 m a ≡ (if leb p a && ltb a (p + 8) then 0 else m a)
write_zero p m a = ground arith

-- A map that has page 0, which the exception entry reads, and ends at `top`, with the screen behind it.
pub record IsMap (present : ℕ → Bool) (vga top : ℕ) : Type 0 where
  pub behind : top ≤ vga
  pub whole : top % 4096 ≡ 0
  pub word : top < 2 ^ 62
  pub ends : present (top / 4096) ≡ false
  pub first : present 0 ≡ true

module _ (present : ℕ → Bool) (vga top : ℕ) (map : IsMap present vga top) where
  -- The instruction has whole pages to go at the start of each page, and faults at no other place.
  pub record IsRun (st : ClearState) : Type 0 where
    pub flag : st.clear_clear_flag ≡ true
    pub vga_at : st.clear_vga ≡ vga
    pub top_at : st.clear_va_top ≡ top
    pub console : IsScreen st
    pub quad : st.regs.rax ≡ 0
    pub within : st.regs.rdi ≤ top
    pub aligned : st.regs.rdi % 8 ≡ 0
    pub pages : (st.regs.rdi + 8 * st.regs.rcx) % 4096 ≡ 0
    pub started : (st.regs.rdi % 4096 ≡ 0) ⊎ (present (st.regs.rdi / 4096) ≡ true)
    pub bound : 8 * st.regs.rcx + (top - st.regs.rdi) < 2 ^ 63

  -- Every byte of the range of the instruction is zero that is below `top` and on a page of the
  -- map, and no byte below the range has changed.
  pub record Ran (st t : ClearState) : Type 0 where
    pub flag : t.clear_clear_flag ≡ true
    pub vga_at : t.clear_vga ≡ vga
    pub top_at : t.clear_va_top ≡ top
    pub cursor : t.clear_va_vga_cur ≡ st.clear_va_vga_cur
    pub below : (a : ℕ) → a < st.regs.rdi → t.mem a ≡ st.mem a
    pub zeroed :
        (a : ℕ)
        → st.regs.rdi ≤ a
        → a < st.regs.rdi + 8 * st.regs.rcx
        → a < top
        → present (a / 4096) ≡ true
        → t.mem a ≡ 0

  module _ (st : ClearState) (run : IsRun st) (more : 0 < st.regs.rcx) where
    -- A quadword is stored.
    inside : present (st.regs.rdi / 4096) ≡ true → st.regs.rdi < top
    inside here = elim (Bool-cases (ltb st.regs.rdi top)) [
      | inl e ↦ ltb→lt st.regs.rdi top e
      | inr e ↦
          let same : st.regs.rdi ≡ top = omega (arith, ltb→le st.regs.rdi top e, run.within) in
          absurd (ground (arith, here, map.ends, ap (λ (r : ℕ). present (r / 4096)) same))
    ]

    module _ (here : present (st.regs.rdi / 4096) ≡ true) where
      stored_at : add64 st.regs.rdi 8 ≡ st.regs.rdi + 8
      stored_at = omega (arith, map.word, inside here)

      started_after : (st.regs.rdi + 8) % 4096 ≡ 0 ⊎ (present ((st.regs.rdi + 8) / 4096) ≡ true)
      started_after = elim (Bool-cases ((st.regs.rdi + 8) % 4096 == 0)) [
        | inl e ↦ inl (ground arith)
        | inr e ↦
            let same : (st.regs.rdi + 8) / 4096 ≡ st.regs.rdi / 4096 =
              ground (arith, run.aligned) in
            inr (ap present same ∙ here)
      ]

      store_quad-IsRun : IsRun (store_quad st)
      store_quad-IsRun = record {
        flag = run.flag;
        vga_at = run.vga_at;
        top_at = run.top_at;
        console = record { low = run.console.low; even = run.console.even; top = run.console.top };
        quad = run.quad;
        within = omega (arith, stored_at, inside here, run.aligned, map.whole);
        aligned = omega (arith, stored_at, run.aligned);
        pages = omega (arith, stored_at, run.pages);
        started = rw stored_at started_after;
        bound = omega (arith, stored_at, run.bound);
      }

      store_quad-Ran : (t : ClearState) → Ran (store_quad st) t → Ran st t
      store_quad-Ran t ran = record {
        flag = ran.flag;
        vga_at = ran.vga_at;
        top_at = ran.top_at;
        cursor = ran.cursor;
        below = λ a h.
            ran.below a (omega (arith, stored_at))
            ∙ ground (arith, run.quad, write_zero st.regs.rdi st.mem a);
        zeroed = λ a from to under on. elim (Bool-cases (ltb a (st.regs.rdi + 8))) [
          | inl now ↦
              ran.below a (omega (arith, stored_at, ltb→lt a (st.regs.rdi + 8) now))
              ∙ ground (arith, run.quad, write_zero st.regs.rdi st.mem a)
          | inr later ↦
              let from' = ltb→le a (st.regs.rdi + 8) later in
              ran.zeroed a (omega (arith, stored_at)) (omega (arith, stored_at)) under on
        ];
      }

    -- A fault.
    module _ (gone : present (st.regs.rdi / 4096) ≡ false) where
      at_page : st.regs.rdi % 4096 ≡ 0
      at_page = elim run.started [ inl e ↦ e | inr here ↦ absurd (ground (arith, here, gone)) ]

      not_here : (a : ℕ) → st.regs.rdi ≤ a → a < st.regs.rdi + 4096 → present (a / 4096) ≡ true → ⊥
      not_here a from to on =
          let same : a / 4096 ≡ st.regs.rdi / 4096 = omega (arith, at_page) in
          ground (arith, on, gone, ap present same)

      ended-Ran :
          (leb st.clear_va_top st.regs.rdi || ltb st.regs.rcx 1024) ≡ true → Ran st (ended st)
      ended-Ran last = record {
        flag = run.flag;
        vga_at = run.vga_at;
        top_at = run.top_at;
        cursor = refl;
        below = λ a h.
            show_fault_lem st a run.console (omega (arith, run.vga_at, run.within, map.behind));
        zeroed = λ a from to under on.
            absurd (not_here a from (ground (arith, run.top_at, run.pages, at_page)) on);
      }

      module _ (some_left : (leb st.clear_va_top st.regs.rdi || ltb st.regs.rcx 1024) ≡ false) where
        room : (st.regs.rdi < top) × (1024 ≤ st.regs.rcx)
        room = ground (arith, run.top_at)

        next_page-IsRun : IsRun (next_page st)
        next_page-IsRun = record {
          flag = run.flag;
          vga_at = run.vga_at;
          top_at = run.top_at;
          console = record {
            low = run.console.low;
            even = run.console.even;
            top = run.console.top;
          };
          quad = run.quad;
          within = omega (arith, room, at_page, map.whole);
          aligned = omega arith;
          pages = omega arith;
          started = inl (omega arith);
          bound = omega (arith, room, at_page, map.whole, run.bound);
        }

        next_page-Ran : (t : ClearState) → Ran (next_page st) t → Ran st t
        next_page-Ran t ran = record {
          flag = ran.flag;
          vga_at = ran.vga_at;
          top_at = ran.top_at;
          cursor = ran.cursor;
          below = λ a h.
              ran.below a (omega (arith, at_page))
              ∙ show_fault_lem st a run.console (omega (arith, run.vga_at, run.within, map.behind));
          zeroed = λ a from to under on. elim (Bool-cases (ltb a (st.regs.rdi + 4096))) [
            | inl now ↦ absurd (not_here a from (ltb→lt a (st.regs.rdi + 4096) now) on)
            | inr later ↦
                let from' = ltb→le a (st.regs.rdi + 4096) later in
                ran.zeroed a (omega (arith, at_page)) (omega (arith, at_page)) under on
          ];
        }

  faults :
      (st : ClearState)
      → IsRun st
      → cpu_exception st ≡ (
          if leb st.clear_va_top st.regs.rdi || ltb st.regs.rcx 1024
          then handled skipped (ended st)
          else handled restarted (next_page st))
  faults st run =
      cpu_exception_lem st run.flag (omega (arith, run.within, map.word)) (omega (arith, run.bound))

  fault_ends :
      (st : ClearState)
      → IsRun st
      → (leb st.clear_va_top st.regs.rdi || ltb st.regs.rcx 1024) ≡ true
      → cpu_exception st ≡ handled skipped (ended st)
  fault_ends st run last = faults st run ∙ rw last refl

  fault_restarts :
      (st : ClearState)
      → IsRun st
      → (leb st.clear_va_top st.regs.rdi || ltb st.regs.rcx 1024) ≡ false
      → cpu_exception st ≡ handled restarted (next_page st)
  fault_restarts st run some_left = faults st run ∙ rw some_left refl

  resumed :
      (fuel : ℕ) {h g : Handled}
      → h ≡ g
      → resume h (λ t. rep_stosq present fuel t) ≡ resume g (λ t. rep_stosq present fuel t)
  resumed fuel e = ap (λ h. resume h (λ t. rep_stosq present fuel t)) e

  -- The instruction comes to its end within its fuel.
  pub rep_stosq-Ran :
      (fuel : ℕ) (st : ClearState)
      → IsRun st
      → top - st.regs.rdi + 8 < 8 * fuel
      → (t : ClearState) × (rep_stosq present fuel st ≡ done t) × Ran st t
  unfolding rep_stosq resume
  rep_stosq-Ran zero st run enough = absurd (omega arith)
  rep_stosq-Ran (suc fuel) st run enough = elim (Bool-cases (st.regs.rcx == 0)) [
    | inl none_left ↦ rw none_left (
      st,
      refl,
      record {
        flag = run.flag;
        vga_at = run.vga_at;
        top_at = run.top_at;
        cursor = refl;
        below = λ a h. refl;
        zeroed = λ a from to under on. absurd (ground arith);
      },
    )
    | inr more ↦
        let some : 0 < st.regs.rcx = ground arith in
        elim (Bool-cases (present (st.regs.rdi / 4096))) [
          | inl here ↦
              let ih =
                rep_stosq-Ran fuel (store_quad st) (store_quad-IsRun st run some here)
                  (omega (arith, stored_at st run some here, inside st run some here)) in
              (ih.0, rw (more, here) ih.1, store_quad-Ran st run some here ih.0 ih.2)
          | inr gone ↦ elim (Bool-cases (leb st.clear_va_top st.regs.rdi || ltb st.regs.rcx 1024)) [
            | inl last ↦ (
              ended st,
              rw (more, gone, map.first) (resumed fuel (fault_ends st run last)),
              ended-Ran st run some gone last,
            )
            | inr some_left ↦
                let room = room st run some gone some_left in
                let ih =
                  rep_stosq-Ran fuel (next_page st) (next_page-IsRun st run some gone some_left)
                    (omega (arith, room, at_page st run some gone, map.whole)) in
                (
                  ih.0,
                  rw (more, gone, map.first)
                      (resumed fuel (fault_restarts st run some_left) ∙ ih.1),
                  next_page-Ran st run some gone some_left ih.0 ih.2,
                )
          ]
        ]
  ]
