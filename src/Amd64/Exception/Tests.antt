-- ===== src/Amd64/Exception/Tests.antt =====
-- Exceptions of a machine whose registers hold 0x100 and more, each its own value, with a handler
-- that skips an instruction of three bytes.
use clearram.Base.{ℕ, ◌≡◌, refl, arith, ◌+◌, ◌^◌, true, false, ◌-◌}
use clearram.Clear.Regs.{CpuRegs}
use clearram.Amd64.Exception.{
  Reg, Machine, Ended, Answer, Resumed, resumed, at_ud2, lost, number, exc_handler,
}
use clearram.Amd64.Exception.Restores.{
  exc_handler-ended, exc_handler-kept, ended, saved_regs, skipping, kept,
}

abbrev machine : Machine
machine = record { regs = λ r. 0x100 + number r; stack = λ i. 0x7000 + i }

abbrev status : CpuRegs → ℕ
status f = 0

abbrev next_rip : CpuRegs → ℕ
next_rip f = f.orig_rip + 3

abbrev memory : ℕ → ℕ
memory a = 0

abbrev old_words : ℕ → ℕ
old_words i = 0xabcd0000 + i

abbrev selectors : Ended → ℕ × ℕ × ℕ × ℕ
selectors (resumed r) = (r.regs Reg.ds, r.regs Reg.es, r.regs Reg.fs, r.regs Reg.gs)
selectors (at_ud2 a) = (0, 0, 0, 0)
selectors lost = (0, 0, 0, 0)

-- DS held 0x104, and GS 0x107.
page_fault_run :
    selectors (exc_handler memory old_words (skipping status next_rip) true 0x0e 0x4000 machine)
    ≡ (0x107, 0x106, 0x105, 0x104)
unfolding exc_handler
page_fault_run = refl

-- A sign in %rax leads to `ud2`.
refused_run :
    (a : Answer) × (exc_handler memory old_words
        (skipping (λ f. 2 ^ 64 - 1) next_rip)
        false
        0x03
        0x4000
        machine
      ≡ at_ud2 a)
unfolding exc_handler
refused_run = (_, refl)

exc_handler-ended_example :
    exc_handler memory old_words (skipping status next_rip) true 0x0e 0x4000 machine
    ≡ ended 0x4000 (skipping status next_rip (saved_regs memory old_words true 0x0e 0x4000 machine))
exc_handler-ended_example =
    exc_handler-ended memory old_words (skipping status next_rip) true 0x0e 0x4000 machine

exc_handler-kept_example :
    (r : Resumed) × (exc_handler memory old_words
        (skipping status next_rip)
        false
        0x03
        0x4000
        machine
      ≡ resumed r)
    × ((q : Reg) → r.regs q ≡ kept false machine q)
    × (r.rip ≡ 0x7003)
    × (r.cs ≡ 0x7001)
    × (r.rflags ≡ 0x7002)
    × (r.ss ≡ 0x7004)
exc_handler-kept_example =
    exc_handler-kept memory old_words status next_rip (λ f. omega arith) false 0x03 0x4000 machine
