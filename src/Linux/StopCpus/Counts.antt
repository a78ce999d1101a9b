-- ===== src/Linux/StopCpus/Counts.antt =====
-- How many CPUs are counted as stopped.
use clearram.Base.{
  ℕ, zero, suc, ◌+◌, ◌<◌, ◌≤◌, ◌≡◌, refl, arith, Bool-cases, inl, inr, ltb, ap, ltb→lt, ltb→le,
}
use clearram.Linux.StopCpus.{Cpu, running, called, counted, halted, set_cpu}

abbrev pub weight : Cpu → ℕ
weight running = 0
weight called = 0
weight counted = 1
weight halted = 1

-- How many of the first `n` CPUs are counted or halted.
abbrev pub count : ℕ → (ℕ → Cpu) → ℕ
count zero cpus = 0
count (suc n) cpus = count n cpus + weight (cpus n)

count-above :
    (n c : ℕ) (v : Cpu) (cpus : ℕ → Cpu) → n ≤ c → count n (set_cpu c v cpus) ≡ count n cpus
count-above zero c v cpus h = refl
count-above (suc n) c v cpus h = ground (arith, count-above n c v cpus)

pub count-set_cpu :
    (n c : ℕ) (v : Cpu) (cpus : ℕ → Cpu)
    → c < n
    → count n (set_cpu c v cpus) + weight (cpus c) ≡ count n cpus + weight v
count-set_cpu zero c v cpus h = absurd (omega arith)
count-set_cpu (suc n) c v cpus h = ground (arith, count-set_cpu n c v cpus, count-above n c v cpus)

light : (v : Cpu) → weight v ≤ 1
light running = omega arith
light called = omega arith
light counted = omega arith
light halted = omega arith

count_bound : (n : ℕ) (cpus : ℕ → Cpu) → count n cpus ≤ n
count_bound zero cpus = omega arith
count_bound (suc n) cpus = omega (arith, count_bound n cpus, light (cpus n))

one_awake : (n a : ℕ) (cpus : ℕ → Cpu) → a < n → weight (cpus a) ≡ 0 → count n cpus + 1 ≤ n
one_awake zero a cpus h w = absurd (omega arith)
one_awake (suc n) a cpus h w = elim (Bool-cases (ltb a n)) [
  | inl below ↦ omega (arith, one_awake n a cpus (ltb→lt a n below) w, light (cpus n))
  | inr at ↦
      let last : a ≡ n = omega (arith, ltb→le a n at) in
      omega (arith, ap (λ (c : ℕ). weight (cpus c)) last, count_bound n cpus)
]

pub two_awake :
    (n a b : ℕ) (cpus : ℕ → Cpu)
    → a < b
    → b < n
    → weight (cpus a) ≡ 0
    → weight (cpus b) ≡ 0
    → count n cpus + 2 ≤ n
two_awake zero a b cpus h k w v = absurd (omega arith)
two_awake (suc n) a b cpus h k w v = elim (Bool-cases (ltb b n)) [
  | inl below ↦ omega (arith, two_awake n a b cpus h (ltb→lt b n below) w v, light (cpus n))
  | inr at ↦
      let last : b ≡ n = omega (arith, ltb→le b n at) in
      omega (arith, ap (λ (c : ℕ). weight (cpus c)) last, one_awake n a cpus (omega arith) w)
]
