-- ===== src/Linux/CdevWrite.antt =====
-- cr_host_cdev_write() of subr_Linux.c and cr_clear_cpu_entry() of subr_clear.c, which it calls: the
-- other CPUs are stopped, this one switches to the program's map and stack, and the function at
-- `crp_clear_cpu_entry` clears memory. The steps of the other CPUs go on in any order, also behind
-- cr_host_cpu_stop_all().
pub mod Clears
mod Tests
use clearram.Base.{ℕ, Bool, ◌≡◌}
use clearram.Amd64.Ports.{Writes}
use clearram.Clear.State.{ClearState}
use clearram.Clear.CpuSetup.{Machine, cpu_setup}
use clearram.Clear.Entry.{Entered, cpu_entry}
use clearram.Linux.StopCpus.{Cpu, Cpus, returned, begin, Step}

-- Where the call is: in cr_host_cpu_stop_all(), behind cr_clear_cpu_setup() with the registers of the
-- CPU, or behind crp_clear_cpu_entry().
pub data Phase : Type 0 where
  stopping : Cpus → Phase
  switched : Cpus → Machine → Phase
  cleared : Cpus → Entered → Phase

module _ (ncpu_this ncpus : ℕ) (virt_to_phys : ℕ → ℕ) (clear_pml4 clear_gdt clear_idt clear_cr3 : ℕ)
    (stack_top crp_clear_cpu_entry crp_clear_start behind : ℕ) (kernel : Machine)
    (present : ℕ → Bool) (w : Writes) (st : ClearState) where
  pub data WriteStep : Phase → Phase → Type 0 where
    stop_step : (s t : Cpus) → Step ncpu_this ncpus s t → WriteStep (stopping s) (stopping t)
    set_up :
        (cpus : ℕ → Cpu) (n : ℕ)
        → WriteStep (stopping (record { caller = returned; cpus = cpus; ncpus_stopped = n })) (
            switched
              (record { caller = returned; cpus = cpus; ncpus_stopped = n })
              (cpu_setup virt_to_phys clear_pml4 clear_gdt clear_idt clear_cr3 stack_top
                crp_clear_cpu_entry crp_clear_start behind kernel).machine)
    enter :
        (s : Cpus) (m : Machine)
        → m.rip ≡ crp_clear_cpu_entry
        → WriteStep (switched s m) (cleared s (cpu_entry present w st))
    switched_step :
        (s t : Cpus) (m : Machine)
        → Step ncpu_this ncpus s t
        → WriteStep (switched s m) (switched t m)
    cleared_step :
        (s t : Cpus) (e : Entered)
        → Step ncpu_this ncpus s t
        → WriteStep (cleared s e) (cleared t e)

  pub data Reaches : Phase → Type 0 where
    at_write : Reaches (stopping (begin ncpu_this ncpus))
    then_write : (p q : Phase) → Reaches p → WriteStep p q → Reaches q
