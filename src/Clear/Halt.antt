-- ===== src/Clear/Halt.antt =====
-- crp_clear_halt() of subr_clear.c without DEBUG, with its waits: the messages, a second behind each of
-- the first three, and `ud2`, which is exception 0x06.
pub mod Waits
mod Tests
use clearram.Base.{ℕ, List}
use clearram.Amd64.Ports.{Writes}
use clearram.Amd64.Delay.{Answers, Waited, ended, waiting, msleep}
use clearram.Clear.State.{ClearState, codes, print_cstr}

-- The machine is at `ud2`, with the answers of the timer that are left, or a wait goes on.
pub data Halted : Type 0 where
  at_ud2 : Writes → Answers → ClearState → Halted
  still_waiting : ClearState → Halted

-- What follows a call of cr_amd64_msleep().
abbrev pub behind_wait : Waited → ClearState → (Writes → Answers → ClearState → Halted) → Halted
behind_wait (ended t answers) st rest = rest t.writes answers st
behind_wait waiting st rest = still_waiting st

-- A message and a second.
abbrev pub message :
    List ℕ → (Writes → Answers → ClearState → Halted) → Writes → Answers → ClearState → Halted
message str rest w answers st = behind_wait (msleep 1000 w answers) (print_cstr str st) rest

unfoldable pub clear_halt : Writes → Answers → ClearState → Halted
clear_halt = message (codes "1...") (
    message (codes "2...") (
      message (codes "3...")
        (λ w answers st. at_ud2 w answers (print_cstr (codes "resetting CPU#0.") st))))
