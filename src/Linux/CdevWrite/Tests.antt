-- ===== src/Linux/CdevWrite/Tests.antt =====
-- CPU 0 of two writes to the device, on a machine with 1.5 GB to clear.
use clearram.Base.{ℕ, ◌≡◌, ◌≢◌, ◌⊎◌, ◌<◌, ◌/◌, true, done, arith, []}
use clearram.Clear.State.{ClearState}
use clearram.Clear.Entry.{Entered, cpu_entry}
use clearram.Clear.Fill.Tests.{pages_present, machine, machine-IsLayout}
use clearram.Clear.CpuSetup.Tests.{kernel, frame_of}
use clearram.Linux.StopCpus.{counted, halted, returned}
use clearram.Linux.StopCpus.Tests.{one_counted, stopped_one}
use clearram.Linux.CdevWrite.Clears.{cdev_write-cleared, then_cleared, stopping-Run}

abbrev behind_write : Entered
behind_write = cpu_entry pages_present [] machine

cdev_write-cleared_example :
    ((c : ℕ) → c < 2 → c ≢ 0 → (one_counted c ≡ counted) ⊎ (one_counted c ≡ halted))
    × ((a : ℕ)
        → a < 0x60000000
        → pages_present (a / 4096) ≡ true
        → (t : ClearState) × (behind_write.cleared ≡ done t) × (t.mem a ≡ 0))
cdev_write-cleared_example =
    cdev_write-cleared 0 2 (omega arith) frame_of 0x1000 0x2000 0x3000 0 0x8000 0x9000 0x9080 0x9100
      kernel pages_present [] machine
      (record { caller = returned; cpus = one_counted; ncpus_stopped = 1 }) behind_write
      (then_cleared 0 2 (omega arith) frame_of 0x1000 0x2000 0x3000 0 0x8000 0x9000 0x9080 0x9100
        kernel pages_present [] machine one_counted 1
        (stopping-Run 0 2 (omega arith) frame_of 0x1000 0x2000 0x3000 0 0x8000 0x9000 0x9080 0x9100
          kernel pages_present [] machine _ stopped_one))
      machine-IsLayout
