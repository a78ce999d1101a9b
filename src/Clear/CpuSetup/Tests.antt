-- ===== src/Clear/CpuSetup/Tests.antt =====
-- A switch from the kernel's page tables.
use clearram.Base.{ℕ, true, false, ◌*◌, arith}
use clearram.Clear.CpuSetup.{TableRegister, Machine, cpu_setup}
use clearram.Clear.CpuSetup.Switched.{IsSwitched, cpu_setup-IsSwitched}

abbrev pub no_table : TableRegister
no_table = record { limit = 0; base = 0 }

abbrev pub kernel : Machine
kernel = record {
  interrupts = true;
  direction = false;
  cr3 = 0x1aa000;
  cr4 = 0x6f0;
  gdtr = no_table;
  idtr = no_table;
  cs = 0x10;
  ds = 0;
  es = 0;
  fs = 0;
  gs = 0;
  ss = 0x18;
  rsp = 0xffffc90000000000;
  rip = 0;
  stack = λ a. 0;
}

abbrev pub frame_of : ℕ → ℕ
frame_of va = 0x1234

cpu_setup-IsSwitched_example :
    IsSwitched 0x1234 0xffffffffa0001000 0xffffffffa0002000
      (0xffffffffa000700 * 16)
      0xffffffffa0009000
      0xffffffffa0009100
      0x6f0
      (cpu_setup frame_of 0xffffffffa0000000 0xffffffffa0001000 0xffffffffa0002000 0
        (0xffffffffa000700 * 16)
        0xffffffffa0009000
        0xffffffffa0009080
        0xffffffffa0009100
        kernel).machine
cpu_setup-IsSwitched_example =
    cpu_setup-IsSwitched frame_of 0xffffffffa0000000 0xffffffffa0001000 0xffffffffa0002000 0
      0xffffffffa000700 0xffffffffa0009000 0xffffffffa0009080 0xffffffffa0009100 kernel
      (omega arith) (omega arith) (omega arith) (omega arith) (omega arith) (omega arith)
