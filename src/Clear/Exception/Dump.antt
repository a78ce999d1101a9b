-- ===== src/Clear/Exception/Dump.antt =====
-- The dump of the registers stays on the screen.
use clearram.Base.{
  ℕ, ◌+◌, ◌*◌, ◌%◌, ◌^◌, ◌<◌, ◌≤◌, List, [], ◌∷◌, length, ◌≡◌, refl, arith, ◌∙◌, ◌⊎◌, ◌==◌, bit_and,
  true,
}
use clearram.Base.Bits.{bit_and_low}
use clearram.Clear.Vga.{Screen}
use clearram.Clear.State.{ClearState, codes}
use clearram.Clear.Exception.{
  blank_cells, print_name, print_value, next_row, dump_rows, dump_regs, stopped, screen,
}
use clearram.Clear.Exception.Cells.{
  Writes, Writes-trans, blank_cells-Writes, IsColumn, print_name-Writes, print_value-Writes,
}

-- A row starts at the cursor, with room for it in the page.
record IsRow (s : Screen) : Type 0 where
  start : s.cur % 4096 % 160 ≡ 0
  room : s.cur % 4096 + 161 ≤ 4096
  top : s.cur + 300 < 2 ^ 64

IsColumn-at : {s t : Screen} (k : ℕ) → IsRow s → k < 4 → Writes (40 * k) s t → IsColumn t
IsColumn-at k row small w = record {
  column = omega (arith, w.moved, row.start, row.room);
  room = omega (arith, w.moved, row.start, row.room);
  top = omega (arith, w.moved, row.top);
}

next_row-Writes : (s t : Screen) → IsRow s → Writes 160 s t → Writes 160 s (next_row t)
unfolding next_row
next_row-Writes s t row w =
    let on : (bit_and t.cur 0xfff % (80 * 2) == 0) ≡ true =
      ground (arith, bit_and_low 12 t.cur, w.moved, row.start, row.room) in
    rw on w

-- Four names and values of registers.
record Group : Type 0 where
  n0 : List ℕ
  n1 : List ℕ
  n2 : List ℕ
  n3 : List ℕ
  v0 : ℕ
  v1 : ℕ
  v2 : ℕ
  v3 : ℕ

abbrev IsShort : Group → Type 0
IsShort g = length g.n0 < 20 × (length g.n1 < 20) × (length g.n2 < 20) × (length g.n3 < 20)

abbrev names_row : Group → Screen → Screen
names_row g s = next_row (print_name g.n3 (print_name g.n2 (print_name g.n1 (print_name g.n0 s))))

abbrev values_row : Group → Screen → Screen
values_row g s = next_row (
    print_value g.n3 g.v3 (print_value g.n2 g.v2 (print_value g.n1 g.v1 (print_value g.n0 g.v0 s))))

names_row-Writes : (g : Group) (s : Screen) → IsShort g → IsRow s → Writes 160 s (names_row g s)
names_row-Writes g s short row =
    let start : Writes 0 s s = record { moved = omega arith; outside = λ a h. refl } in
    let w1 = print_name-Writes g.n0 s (IsColumn-at 0 row (omega arith) start) short.0 in
    let w2 =
      Writes-trans 40 40 w1
        (print_name-Writes g.n1 _ (IsColumn-at 1 row (omega arith) w1) short.1) in
    let w3 =
      Writes-trans 80 40 w2
        (print_name-Writes g.n2 _ (IsColumn-at 2 row (omega arith) w2) short.2) in
    let w4 =
      Writes-trans 120 40 w3
        (print_name-Writes g.n3 _ (IsColumn-at 3 row (omega arith) w3) short.3) in
    next_row-Writes s _ row w4

values_row-Writes : (g : Group) (s : Screen) → IsRow s → Writes 160 s (values_row g s)
values_row-Writes g s row =
    let start : Writes 0 s s = record { moved = omega arith; outside = λ a h. refl } in
    let w1 = print_value-Writes g.n0 g.v0 s (IsColumn-at 0 row (omega arith) start) in
    let w2 =
      Writes-trans 40 40 w1 (print_value-Writes g.n1 g.v1 _ (IsColumn-at 1 row (omega arith) w1)) in
    let w3 =
      Writes-trans 80 40 w2 (print_value-Writes g.n2 g.v2 _ (IsColumn-at 2 row (omega arith) w2)) in
    let w4 =
      Writes-trans 120 40 w3
        (print_value-Writes g.n3 g.v3 _ (IsColumn-at 3 row (omega arith) w3)) in
    next_row-Writes s _ row w4

abbrev flat_names : List Group → List (List ℕ)
flat_names [] = []
flat_names (g ∷ gs) = g.n0 ∷ g.n1 ∷ g.n2 ∷ g.n3 ∷ flat_names gs

abbrev flat_values : List Group → List ℕ
flat_values [] = []
flat_values (g ∷ gs) = g.v0 ∷ g.v1 ∷ g.v2 ∷ g.v3 ∷ flat_values gs

abbrev AllShort : List Group → Type 0
AllShort [] = Unit {0}
AllShort (g ∷ gs) = IsShort g × AllShort gs

dump_rows-Writes :
    (gs : List Group) (s : Screen)
    → AllShort gs
    → s.cur % 4096 % 160 ≡ 0
    → s.cur % 4096 + 320 * length gs + 1 ≤ 4096
    → s.cur + 320 * length gs + 400 < 2 ^ 64
    → Writes (320 * length gs) s (dump_rows (flat_names gs) (flat_values gs) s)
unfolding dump_rows
dump_rows-Writes [] s short start room top = record { moved = omega arith; outside = λ a h. refl }
dump_rows-Writes (g ∷ gs) s short start room top =
    let row : IsRow s = record { start = start; room = omega arith; top = omega arith } in
    let names = names_row-Writes g s short.0 row in
    let row' : IsRow (names_row g s) = record {
      start = omega (arith, names.moved);
      room = omega (arith, names.moved);
      top = omega (arith, names.moved);
    } in
    let both = Writes-trans 160 160 names (values_row-Writes g (names_row g s) row') in
    let others =
      dump_rows-Writes gs (values_row g (names_row g s)) short.1 (omega (arith, both.moved))
        (omega (arith, both.moved)) (omega (arith, both.moved)) in
    record {
      moved = omega (arith, both.moved, others.moved);
      outside = λ a h. others.outside a (omega (arith, both.moved)) ∙ both.outside a (omega arith);
    }

-- If the screen stands at the start of a page, cr_clear_cpu_dump_regs() asks for the machine to be
-- stopped, leaves the cursor behind the 16 rows of names and values, and changes no byte outside the
-- 80 by 25 characters of the screen.
pub dump_regs-IsOnScreen :
    (st : ClearState) (a : ℕ)
    → st.clear_vga % 4096 ≡ 0
    → st.clear_vga + 8192 < 2 ^ 64
    → a < st.clear_vga ⊎ (st.clear_vga + 2 * 80 * 25 ≤ a)
    → ((dump_regs st).status ≡ stopped)
      × ((dump_regs st).state.clear_va_vga_cur ≡ st.clear_vga + 2 * 80 * 16)
      × ((dump_regs st).state.mem a ≡ st.mem a)
unfolding dump_regs
dump_regs-IsOnScreen st a page top out =
    let regs = st.regs in
    let group : (n0 n1 n2 n3 : List ℕ) (v0 v1 v2 v3 : ℕ) → Group = λ n0 n1 n2 n3 v0 v1 v2 v3.
      record { n0 = n0; n1 = n1; n2 = n2; n3 = n3; v0 = v0; v1 = v1; v2 = v2; v3 = v3 } in
    let gs : List Group =
      group (codes "CR0") (codes "CR2") (codes "CR3") (codes "CR4") regs.cr0 regs.cr2 regs.cr3
        regs.cr4
      ∷ group (codes "DS") (codes "ES") (codes "FS") (codes "GS") regs.ds regs.es regs.fs regs.gs
      ∷ group (codes "RAX") (codes "RBX") (codes "RCX") (codes "RDX") regs.rax regs.rbx regs.rcx
          regs.rdx
      ∷ group (codes "RSI") (codes "RDI") (codes "RBP") (codes "RSP") regs.rsi regs.rdi regs.rbp
          regs.rsp
      ∷ group (codes "R8") (codes "R9") (codes "R10") (codes "R11") regs.r8 regs.r9 regs.r10
          regs.r11
      ∷ group (codes "R12") (codes "R13") (codes "R14") (codes "R15") regs.r12 regs.r13 regs.r14
          regs.r15
      ∷ group (codes "") (codes "VECNO") (codes "ERRNO") (codes "ORIG_RIP") regs.unused0 regs.vecno
          regs.errno regs.orig_rip
      ∷ group (codes "ORIG_CS") (codes "ORIG_RFLAGS") (codes "ORIG_SS") (codes "") regs.orig_cs
          regs.orig_cflags regs.orig_ss regs.unused1
      ∷ [] in
    let blank =
      blank_cells-Writes (25 * 10) (screen st.clear_vga st.mem) (omega arith) (omega arith) in
    let dumped =
      dump_rows-Writes gs
        (screen st.clear_vga (blank_cells (25 * 10) (screen st.clear_vga st.mem)).mem) (omega arith)
        (omega arith) (omega arith) (omega arith) in
    (refl, dumped.moved, dumped.outside a (omega arith) ∙ blank.outside a (omega arith))
