-- ===== src/Linux/CdevWrite/Clears.antt =====
-- What holds behind a write to the device.
use clearram.Base.{ℕ, Bool, ◌≡◌, ◌≢◌, ◌⊎◌, refl, ◌<◌, ◌/◌, true, done, ap, ◌∙◌}
use clearram.Amd64.Ports.{Writes}
use clearram.Clear.State.{ClearState}
use clearram.Clear.CpuSetup.{Machine, cpu_setup, set_segments}
use clearram.Clear.Entry.{cpu_entry, Entered}
use clearram.Clear.Entry.Clears.{Crtc, cpu_entry-zero}
use clearram.Clear.Fill.Blocks.{IsLayout}
use clearram.Linux.StopCpus.{Cpu, counted, halted, returned, Reachable, at_begin, then_step}
use clearram.Linux.StopCpus.Laws.{IsBack, Step-IsBack, back-stopped}
use clearram.Linux.CdevWrite.{
  Phase, stopping, switched, cleared, stop_step, set_up, enter, switched_step, cleared_step,
  Reaches, at_write, then_write, Cpus,
}

abbrev no_crtc : Crtc
no_crtc = record { index = 0; registers = λ r. 0 }

module _ (ncpu_this ncpus : ℕ) (here : ncpu_this < ncpus) (virt_to_phys : ℕ → ℕ)
    (clear_pml4 clear_gdt clear_idt clear_cr3 : ℕ)
    (stack_top crp_clear_cpu_entry crp_clear_start behind : ℕ) (kernel : Machine)
    (present : ℕ → Bool) (w : Writes) (st : ClearState) where
  -- Every other CPU has its interrupts off and only `hlt` before it, or is halted.
  abbrev pub AllStopped : Cpus → Type 0
  AllStopped s = (c : ℕ) → c < ncpus → c ≢ ncpu_this → (s.cpus c ≡ counted) ⊎ (s.cpus c ≡ halted)

  abbrev IsPhase : Phase → Type 0
  IsPhase (stopping s) = Reachable ncpu_this ncpus s
  IsPhase (switched s m) = Reachable ncpu_this ncpus s × IsBack s.caller
  IsPhase (cleared s e) =
      Reachable ncpu_this ncpus s × IsBack s.caller × (e ≡ cpu_entry present w st)

  abbrev pub Run : Phase → Type 0
  Run =
      Reaches ncpu_this ncpus virt_to_phys clear_pml4 clear_gdt clear_idt clear_cr3 stack_top
        crp_clear_cpu_entry crp_clear_start behind kernel present w st

  Run-IsPhase : (p : Phase) → Run p → IsPhase p
  Run-IsPhase _ at_write = at_begin
  Run-IsPhase _ (then_write _ _ run (stop_step s t step)) =
      then_step s t (Run-IsPhase (stopping s) run) step
  Run-IsPhase _ (then_write _ _ run (set_up cpus n)) = (
    Run-IsPhase (stopping (record { caller = returned; cpus = cpus; ncpus_stopped = n })) run,
    tt,
  )
  Run-IsPhase _ (then_write _ _ run (enter s m at)) =
      let was = Run-IsPhase (switched s m) run in (was.0, was.1, refl)
  Run-IsPhase _ (then_write _ _ run (switched_step s t m step)) =
      let was = Run-IsPhase (switched s m) run in
      (then_step s t was.0 step, Step-IsBack ncpu_this ncpus s t step was.1)
  Run-IsPhase _ (then_write _ _ run (cleared_step s t e step)) =
      let was = Run-IsPhase (cleared s e) run in
      (then_step s t was.0 step, Step-IsBack ncpu_this ncpus s t step was.1, was.2)

  -- Let the map of all RAM have page 0, and the screen be behind it, with room for the messages. In every
  -- order of the steps of the CPUs, in each state from the clearing on, each CPU but the one that writes
  -- is behind the lock of crp_host_cpu_stop_one() with its interrupts off and only `hlt` before it, or is
  -- halted; and the clearing has ended, with every byte of the pages below `clear_va_top` zero.
  pub cdev_write-cleared :
      (s : Cpus) (e : Entered)
      → Reaches ncpu_this ncpus virt_to_phys clear_pml4 clear_gdt clear_idt clear_cr3 stack_top
          crp_clear_cpu_entry crp_clear_start behind kernel present w st
          (cleared s e)
      → IsLayout present st.clear_vga st.clear_va_top
      → ((c : ℕ) → c < ncpus → c ≢ ncpu_this → (s.cpus c ≡ counted) ⊎ (s.cpus c ≡ halted))
        × ((a : ℕ)
            → a < st.clear_va_top
            → present (a / 4096) ≡ true
            → (t : ClearState) × (e.cleared ≡ done t) × (t.mem a ≡ 0))
  cdev_write-cleared s e run layout =
      let (reach, back, ran) = Run-IsPhase (cleared s e) run in
      (
        λ c. back-stopped ncpu_this ncpus s.caller s.cpus s.ncpus_stopped c here back reach,
        λ a below on.
            let (t, ended, zero_at) = (cpu_entry-zero present w st no_crtc layout a below on).1 in
            (t, ap (λ (r : Entered). r.cleared) ran ∙ ended, zero_at),
      )

  -- Once cr_host_cpu_stop_all() has returned, the clearing is reached.
  pub then_cleared :
      (cpus : ℕ → Cpu) (n : ℕ)
      → Run (stopping (record { caller = returned; cpus = cpus; ncpus_stopped = n }))
      → Run (
          cleared
            (record { caller = returned; cpus = cpus; ncpus_stopped = n })
            (cpu_entry present w st))
  unfolding cpu_setup set_segments
  then_cleared cpus n run =
      then_write _ _ (then_write _ _ run (set_up cpus n))
        (enter (record { caller = returned; cpus = cpus; ncpus_stopped = n }) _ refl)

  pub stopping-Run : (s : Cpus) → Reachable ncpu_this ncpus s → Run (stopping s)
  stopping-Run _ at_begin = at_write
  stopping-Run _ (then_step s t reach step) =
      then_write (stopping s) (stopping t) (stopping-Run s reach) (stop_step s t step)
