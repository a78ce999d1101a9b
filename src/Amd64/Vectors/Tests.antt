-- ===== src/Amd64/Vectors/Tests.antt =====
-- Exceptions with the wrappers at 0xffffffffa0001000.
use clearram.Base.{ℕ, some, none, true, ◌≡◌, refl, ◌+◌}
use clearram.Amd64.Exception.{Machine, Answer, number}
use clearram.Amd64.Vectors.{wrapper_at, wrappers}
use clearram.Clear.Regs.{CpuRegs}

abbrev machine : Machine
machine = record { regs = λ r. 0x100 + number r; stack = λ i. 0x7000 + i }

abbrev memory : ℕ → ℕ
memory a = 0

-- A handler that skips an instruction of three bytes.
abbrev skip : CpuRegs → Answer
skip f = record { status = 0; cpu_regs = record f { orig_rip = f.orig_rip + 3 } }

-- The wrapper of the alignment check, and none behind the last.
wrappers_run :
    (wrapper_at wrappers 0x1000 0x1110 ≡ some (0x11, true))
    × (wrapper_at wrappers 0x1000 0x1130 ≡ none)
wrappers_run = (refl, refl)
