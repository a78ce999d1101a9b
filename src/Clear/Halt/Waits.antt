-- ===== src/Clear/Halt/Waits.antt =====
-- crp_clear_halt() comes to its last instruction.
use clearram.Base.{ℕ, ◌≡◌, ◌+◌, ◌*◌, ◌≤◌, length, arith, refl, List, ◌∙◌}
use clearram.Amd64.Ports.{Writes}
use clearram.Amd64.Delay.{Answers}
use clearram.Amd64.Delay.Changes.{AllBytes}
use clearram.Amd64.Delay.Counting.{Counts, StillCounts, msleep-StillCounts}
use clearram.Clear.State.{ClearState, codes, print_cstr}
use clearram.Clear.Fill.{halt_messages}
use clearram.Clear.Halt.{Halted, at_ud2, message, clear_halt}

-- The changes of the count in a second.
abbrev pub second : ℕ
second = 1193317

-- A message, and the rest behind exactly a second.
message_lem :
    (str : List ℕ) (rest : Writes → Answers → ClearState → Halted) (w : Writes) (answers : Answers)
    (st : ClearState)
    → AllBytes answers
    → Counts 0x10000 answers
    → second ≤ length answers
    → (w' : Writes) × ((left : Answers) × (message str rest w answers st
          ≡ rest w' left (print_cstr str st))
        × StillCounts second answers left)
message_lem str rest w answers st bytes counts enough =
    let (t, (left, at, still)) = msleep-StillCounts 1000 w answers bytes counts enough in
    (t.writes, (left, rw at refl, still))

-- While the timer counts, crp_clear_halt() comes to its last instruction behind exactly three seconds of
-- counts, with the screen that its four messages leave when they are printed one behind the other.
pub clear_halt-at_ud2 :
    (w : Writes) (answers : Answers) (st : ClearState)
    → AllBytes answers
    → Counts 0x10000 answers
    → 3 * second ≤ length answers
    → (w' : Writes) × ((left : Answers) × (clear_halt w answers st
          ≡ at_ud2 w' left (halt_messages st))
        × (length left + 3 * second ≡ length answers))
unfolding clear_halt halt_messages
clear_halt-at_ud2 w answers st bytes counts enough =
    let last = λ (v : Writes) (more : Answers) (s : ClearState).
      at_ud2 v more (print_cstr (codes "resetting CPU#0.") s) in
    let third = message (codes "3...") last in
    let (w1, (left1, one, still1)) =
      message_lem (codes "1...") (message (codes "2...") third) w answers st bytes counts
        (omega (arith, enough)) in
    let (w2, (left2, two, still2)) =
      message_lem (codes "2...") third w1 left1 (print_cstr (codes "1...") st) still1.1 still1.2
        (omega (arith, enough, still1.0)) in
    let (w3, (left3, three, still3)) =
      message_lem (codes "3...") last w2 left2
        (print_cstr (codes "2...") (print_cstr (codes "1...") st)) still2.1 still2.2
        (omega (arith, enough, still1.0, still2.0)) in
    (w3, (left3, one ∙ two ∙ three, omega (arith, still1.0, still2.0, still3.0)))
