-- ===== src/Linux/StopCpus/Laws.antt =====
-- When cr_host_cpu_stop_all() returns, every other CPU is counted as stopped.
use clearram.Base.{
  ℕ, zero, suc, ◌+◌, ◌-◌, ◌<◌, ◌≤◌, ◌≡◌, ◌≢◌, refl, arith, ◌⊎◌, Bool-cases, inl, inr, ◌∙◌, ltb, ap,
  ltb→lt, ltb→le,
}
use clearram.Linux.StopCpus.{
  Cpu, running, called, counted, halted, Caller, calling, waiting, returned, Cpus, set_cpu, Step,
  call, pass_self, all_called, stop_one, halt, poll, finish, Reachable, at_begin, then_step,
}
use clearram.Linux.StopCpus.Counts.{weight, count, count-set_cpu, two_awake}

-- A number for each state, to tell them apart.
abbrev code : Cpu → ℕ
code running = 0
code called = 1
code counted = 2
code halted = 3

set_cpu-other : (c d : ℕ) (v : Cpu) (cpus : ℕ → Cpu) → c ≢ d → set_cpu c v cpus d ≡ cpus d
set_cpu-other c d v cpus ne = ground arith

apart : (cpus : ℕ → Cpu) (c d : ℕ) → code (cpus c) ≢ 0 → cpus d ≡ running → c ≢ d
apart cpus c d was runs same = omega (arith, was, ap code runs, ap (λ (e : ℕ). code (cpus e)) same)

module _ (ncpu_this ncpus : ℕ) (here : ncpu_this < ncpus) where
  abbrev Fresh : Caller → (ℕ → Cpu) → Type 0
  Fresh (calling k) cpus = k ≤ ncpus × ((c : ℕ) → k ≤ c → cpus c ≡ running)
  Fresh waiting cpus = (c : ℕ) → ncpus ≤ c → cpus c ≡ running
  Fresh returned cpus = (c : ℕ) → ncpus ≤ c → cpus c ≡ running

  abbrev Enough : Caller → ℕ → Type 0
  Enough (calling k) n = Unit {0}
  Enough waiting n = Unit {0}
  Enough returned n = ncpus - 1 ≤ n

  record Inv (s : Cpus) : Type 0 where
    self : s.cpus ncpu_this ≡ running
    tally : count ncpus s.cpus ≡ s.ncpus_stopped
    fresh : Fresh s.caller s.cpus
    enough : Enough s.caller s.ncpus_stopped

  outside : (w : Caller) (cpus : ℕ → Cpu) → Fresh w cpus → (c : ℕ) → ncpus ≤ c → cpus c ≡ running
  outside (calling k) cpus fresh c h = fresh.1 c (omega arith)
  outside waiting cpus fresh c h = fresh c h
  outside returned cpus fresh c h = fresh c h

  inside : (w : Caller) (cpus : ℕ → Cpu) → Fresh w cpus → (c : ℕ) → code (cpus c) ≢ 0 → c < ncpus
  inside w cpus fresh c awake = elim (Bool-cases (ltb c ncpus)) [
    | inl e ↦ ltb→lt c ncpus e
    | inr e ↦ absurd (awake (ap code (outside w cpus fresh c (ltb→le c ncpus e))))
  ]

  stopped-Fresh :
      (w : Caller) (c : ℕ) (v : Cpu) (cpus : ℕ → Cpu)
      → code (cpus c) ≢ 0
      → Fresh w cpus
      → Fresh w (set_cpu c v cpus)
  stopped-Fresh (calling k) c v cpus was fresh =
      (fresh.0, λ d h. set_cpu-other c d v cpus (apart cpus c d was (fresh.1 d h)) ∙ fresh.1 d h)
  stopped-Fresh waiting c v cpus was fresh =
      λ d h. set_cpu-other c d v cpus (apart cpus c d was (fresh d h)) ∙ fresh d h
  stopped-Fresh returned c v cpus was fresh =
      λ d h. set_cpu-other c d v cpus (apart cpus c d was (fresh d h)) ∙ fresh d h

  more-Enough : (w : Caller) (n : ℕ) → Enough w n → Enough w (n + 1)
  more-Enough (calling k) n h = tt
  more-Enough waiting n h = tt
  more-Enough returned n h = omega arith

  count_none : (n : ℕ) → count n (λ c. running) ≡ 0
  count_none zero = refl
  count_none (suc n) = omega (arith, count_none n)

  Step-Inv : (s t : Cpus) → Step ncpu_this ncpus s t → Inv s → Inv t
  Step-Inv _ _ (call ncpu cpus n more other) inv =
      let runs : cpus ncpu ≡ running = inv.fresh.1 ncpu (omega arith) in
      record {
        self = set_cpu-other ncpu ncpu_this called cpus other ∙ inv.self;
        tally = omega (arith, inv.tally, count-set_cpu ncpus ncpu called cpus more, ap weight runs);
        fresh = (
          omega arith,
          λ c h. set_cpu-other ncpu c called cpus (omega arith) ∙ inv.fresh.1 c (omega arith),
        );
        enough = tt;
      }
  Step-Inv _ _ (pass_self cpus n more) inv = record {
    self = inv.self;
    tally = inv.tally;
    fresh = (omega arith, λ c h. inv.fresh.1 c (omega arith));
    enough = tt;
  }
  Step-Inv _ _ (all_called cpus n) inv = record {
    self = inv.self;
    tally = inv.tally;
    fresh = inv.fresh.1;
    enough = tt;
  }
  Step-Inv _ _ (stop_one w c cpus n was) inv =
      let awake : code (cpus c) ≢ 0 = omega (arith, ap code was) in
      record {
        self =
            set_cpu-other c ncpu_this counted cpus (apart cpus c ncpu_this awake inv.self)
            ∙ inv.self;
        tally = omega (
          arith,
          inv.tally,
          count-set_cpu ncpus c counted cpus (inside w cpus inv.fresh c awake),
          ap weight was,
        );
        fresh = stopped-Fresh w c counted cpus awake inv.fresh;
        enough = more-Enough w n inv.enough;
      }
  Step-Inv _ _ (halt w c cpus n was) inv =
      let awake : code (cpus c) ≢ 0 = omega (arith, ap code was) in
      record {
        self =
            set_cpu-other c ncpu_this halted cpus (apart cpus c ncpu_this awake inv.self)
            ∙ inv.self;
        tally = omega (
          arith,
          inv.tally,
          count-set_cpu ncpus c halted cpus (inside w cpus inv.fresh c awake),
          ap weight was,
        );
        fresh = stopped-Fresh w c halted cpus awake inv.fresh;
        enough = inv.enough;
      }
  Step-Inv _ _ (poll cpus n more) inv = inv
  Step-Inv _ _ (finish cpus n all) inv = record {
    self = inv.self;
    tally = inv.tally;
    fresh = inv.fresh;
    enough = all;
  }

  Reachable-Inv : (s : Cpus) → Reachable ncpu_this ncpus s → Inv s
  Reachable-Inv _ at_begin = record {
    self = refl;
    tally = count_none ncpus;
    fresh = (omega arith, λ c h. refl);
    enough = tt;
  }
  Reachable-Inv t (then_step s _ before step) = Step-Inv s t step (Reachable-Inv s before)

-- Whatever the order of the steps, when cr_host_cpu_stop_all() has returned every CPU but the one
-- that called it has been counted: behind the lock, with its interrupts off and only its `hlt` before
-- it, or halted.
pub cpu_stop_all-stopped :
    (ncpu_this ncpus : ℕ) (cpus : ℕ → Cpu) (n c : ℕ)
    → ncpu_this < ncpus
    → Reachable ncpu_this ncpus (record { caller = returned; cpus = cpus; ncpus_stopped = n })
    → c < ncpus
    → c ≢ ncpu_this
    → (cpus c ≡ counted) ⊎ (cpus c ≡ halted)
cpu_stop_all-stopped ncpu_this ncpus cpus n c here reach inside other =
    let inv = Reachable-Inv ncpu_this ncpus here _ reach in
    let awake : weight (cpus c) ≡ 0 → count ncpus cpus + 2 ≤ ncpus = λ light_c.
      elim (Bool-cases (ltb c ncpu_this)) [
        | inl e ↦
            two_awake ncpus c ncpu_this cpus (ltb→lt c ncpu_this e) here light_c
              (ap weight inv.self)
        | inr e ↦
            two_awake ncpus ncpu_this c cpus (omega (arith, ltb→le c ncpu_this e)) inside
              (ap weight inv.self) light_c
      ] in
    weighs_one (cpus c) λ light_c. omega (arith, inv.enough, inv.tally, awake light_c)
  where
    weighs_one : (v : Cpu) → (weight v ≢ 0) → (v ≡ counted) ⊎ (v ≡ halted)
    weighs_one running h = absurd (h refl)
    weighs_one called h = absurd (h refl)
    weighs_one counted h = inl refl
    weighs_one halted h = inr refl

-- cr_host_cpu_stop_all() has returned.
abbrev pub IsBack : Caller → Type 0
IsBack (calling k) = ⊥
IsBack waiting = ⊥
IsBack returned = Unit {0}

-- It stays so, whatever the other CPUs do.
pub Step-IsBack :
    (ncpu_this ncpus : ℕ) (s t : Cpus)
    → Step ncpu_this ncpus s t
    → IsBack s.caller
    → IsBack t.caller
Step-IsBack _ _ _ _ (call ncpu cpus n more other) back = absurd back
Step-IsBack _ _ _ _ (pass_self cpus n more) back = absurd back
Step-IsBack _ _ _ _ (all_called cpus n) back = absurd back
Step-IsBack _ _ _ _ (stop_one w c cpus n was) back = back
Step-IsBack _ _ _ _ (halt w c cpus n was) back = back
Step-IsBack _ _ _ _ (poll cpus n more) back = absurd back
Step-IsBack _ _ _ _ (finish cpus n all) back = absurd back

pub back-stopped :
    (ncpu_this ncpus : ℕ) (w : Caller) (cpus : ℕ → Cpu) (n c : ℕ)
    → ncpu_this < ncpus
    → IsBack w
    → Reachable ncpu_this ncpus (record { caller = w; cpus = cpus; ncpus_stopped = n })
    → c < ncpus
    → c ≢ ncpu_this
    → (cpus c ≡ counted) ⊎ (cpus c ≡ halted)
back-stopped ncpu_this ncpus (calling k) cpus n c here back reach = absurd back
back-stopped ncpu_this ncpus waiting cpus n c here back reach = absurd back
back-stopped ncpu_this ncpus returned cpus n c here back reach =
    cpu_stop_all-stopped ncpu_this ncpus cpus n c here reach
