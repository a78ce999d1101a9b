-- ===== src/Linux/StopCpus.antt =====
-- cr_host_cpu_stop_all() and crp_host_cpu_stop_one() of subr_Linux.c, with CONFIG_SMP, as steps of
-- the CPU that calls and of the others, in any order. `cli` and `ncpus_stopped++` under the spin lock are
-- one step, and `hlt` behind the lock is another, with any steps of others between them. A call
-- of smp_call_function_single() on another CPU makes it run the function at some later time.
mod Counts
pub mod Laws
pub mod Tests
use clearram.Base.{ℕ, suc, ◌+◌, ◌-◌, ◌<◌, ◌≤◌, if◌then◌else◌, ◌==◌, ◌≡◌, ◌≢◌}

-- What a CPU does: its own work; the same with a call of crp_host_cpu_stop_one() pending; what is behind
-- the lock of `ncpus_stopped++` and before `hlt`, without interrupts; or `hlt` for ever.
pub data Cpu : Type 0 where
  running : Cpu
  called : Cpu
  counted : Cpu
  halted : Cpu

-- Where the calling CPU is: in the loop that calls the others, at the next `ncpu`; in the loop that
-- waits; behind it.
pub data Caller : Type 0 where
  calling : ℕ → Caller
  waiting : Caller
  returned : Caller

pub record Cpus : Type 0 where
  pub caller : Caller
  pub cpus : ℕ → Cpu
  pub ncpus_stopped : ℕ

abbrev pub set_cpu : ℕ → Cpu → (ℕ → Cpu) → ℕ → Cpu
set_cpu c v cpus d = if d == c then v else cpus d

module _ (ncpu_this ncpus : ℕ) where
  abbrev pub begin : Cpus
  begin = record { caller = calling 0; cpus = λ c. running; ncpus_stopped = 0 }

  pub data Step : Cpus → Cpus → Type 0 where
    call :
        (ncpu : ℕ) (cpus : ℕ → Cpu) (n : ℕ)
        → ncpu < ncpus
        → ncpu ≢ ncpu_this
        → Step
            (record { caller = calling ncpu; cpus = cpus; ncpus_stopped = n })
            (record {
              caller = calling (suc ncpu);
              cpus = set_cpu ncpu called cpus;
              ncpus_stopped = n;
            })
    pass_self :
        (cpus : ℕ → Cpu) (n : ℕ)
        → ncpu_this < ncpus
        → Step
            (record { caller = calling ncpu_this; cpus = cpus; ncpus_stopped = n })
            (record { caller = calling (suc ncpu_this); cpus = cpus; ncpus_stopped = n })
    all_called :
        (cpus : ℕ → Cpu) (n : ℕ)
        → Step
            (record { caller = calling ncpus; cpus = cpus; ncpus_stopped = n })
            (record { caller = waiting; cpus = cpus; ncpus_stopped = n })
    stop_one :
        (w : Caller) (c : ℕ) (cpus : ℕ → Cpu) (n : ℕ)
        → cpus c ≡ called
        → Step
            (record { caller = w; cpus = cpus; ncpus_stopped = n })
            (record { caller = w; cpus = set_cpu c counted cpus; ncpus_stopped = n + 1 })
    halt :
        (w : Caller) (c : ℕ) (cpus : ℕ → Cpu) (n : ℕ)
        → cpus c ≡ counted
        → Step
            (record { caller = w; cpus = cpus; ncpus_stopped = n })
            (record { caller = w; cpus = set_cpu c halted cpus; ncpus_stopped = n })
    poll :
        (cpus : ℕ → Cpu) (n : ℕ)
        → n < ncpus - 1
        → Step
            (record { caller = waiting; cpus = cpus; ncpus_stopped = n })
            (record { caller = waiting; cpus = cpus; ncpus_stopped = n })
    finish :
        (cpus : ℕ → Cpu) (n : ℕ)
        → ncpus - 1 ≤ n
        → Step
            (record { caller = waiting; cpus = cpus; ncpus_stopped = n })
            (record { caller = returned; cpus = cpus; ncpus_stopped = n })

  pub data Reachable : Cpus → Type 0 where
    at_begin : Reachable begin
    then_step : (s t : Cpus) → Reachable s → Step s t → Reachable t
