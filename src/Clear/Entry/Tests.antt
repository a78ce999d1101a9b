-- ===== src/Clear/Entry/Tests.antt =====
-- The entry on a machine with 1.5 GB to clear, whose screen controller selects register 3.
use clearram.Base.{ℕ, ◌≡◌, ◌||◌, ◌==◌, if◌then◌else◌, done, arith, [], refl, ◌+◌}
use clearram.Clear.State.{ClearState}
use clearram.Clear.Entry.{cpu_entry}
use clearram.Clear.Entry.Clears.{Crtc, crtc_run, cpu_entry-zero}
use clearram.Clear.Fill.Tests.{pages_present, machine, machine-IsLayout}

abbrev crtc : Crtc
crtc = record { index = 3; registers = λ r. 0x20 + r }

cpu_entry-zero_example :
    ((r : ℕ)
      → (crtc_run (cpu_entry pages_present [] machine).writes crtc).registers r
        ≡ (if (r == 12) || (r == 13) then 0 else 0x20 + r))
    × ((t : ClearState) × ((cpu_entry pages_present [] machine).cleared ≡ done t)
        × (t.mem 0x12345678 ≡ 0))
cpu_entry-zero_example =
    cpu_entry-zero pages_present [] machine crtc machine-IsLayout 0x12345678 (omega arith) refl
