-- ===== src/Linux/StopCpus/Tests.antt =====
-- CPU 0 of two stops CPU 1.
use clearram.Base.{ℕ, arith, ◌≡◌, ◌⊎◌, refl}
use clearram.Linux.StopCpus.{
  Cpu, running, called, counted, halted, returned, set_cpu, call, pass_self, all_called, stop_one,
  finish, Reachable, at_begin, then_step,
}
use clearram.Linux.StopCpus.Laws.{cpu_stop_all-stopped}

abbrev pub all_running : ℕ → Cpu
all_running c = running

abbrev pub one_called : ℕ → Cpu
one_called = set_cpu 1 called all_running

abbrev pub one_counted : ℕ → Cpu
one_counted = set_cpu 1 counted one_called

-- The call returns before the other CPU has come to its `hlt`.
pub stopped_one :
    Reachable 0 2 (record { caller = returned; cpus = one_counted; ncpus_stopped = 1 })
stopped_one =
    then_step _ _
      (then_step _ _
        (then_step _ _
          (then_step _ _ (then_step _ _ at_begin (pass_self all_running 0 (omega arith)))
            (call 1 all_running 0 (omega arith) (omega arith)))
          (all_called one_called 0))
        (stop_one _ 1 one_called 0 refl))
      (finish one_counted 1 (omega arith))

cpu_stop_all-stopped_example : (one_counted 1 ≡ counted) ⊎ (one_counted 1 ≡ halted)
cpu_stop_all-stopped_example =
    cpu_stop_all-stopped 0 2 one_counted 1 1 (omega arith) stopped_one (omega arith) (omega arith)
