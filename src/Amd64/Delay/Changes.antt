-- ===== src/Amd64/Delay/Changes.antt =====
-- The wait of cr_amd64_msleep() in changes of the count.
use clearram.Base.{
  ℕ, zero, suc, ◌+◌, ◌-◌, ◌*◌, ◌/◌, ◌%◌, ◌^◌, ◌≤◌, ◌<◌, [], ◌∷◌, if◌then◌else◌, ltb, leb, ◌==◌,
  length, u32_mod, add32, sub32, Option, none, some, ◌≡◌, refl, Bool-cases, inl, inr, arith, true,
  false, ==_iff,
}
use clearram.Base.Bits.{bit_or_fields}
use clearram.Amd64.Ports.{Writes}
use clearram.Amd64.Delay.{
  Answers, Timer, Waited, ended, waiting, count_of, latch, tick, latch_loop, start_round, go_on,
  wait_loop, msleep,
}

-- The answers behind the k-th change. A count changes if it is not the one before, or the start of its
-- round, which ends where 8192 or more have been counted.
abbrev pub behind_changes : (k last : ℕ) → Answers → Option Answers
behind_changes k last [] = none
behind_changes k last ((lo, hi) ∷ answers) =
    let count = hi * 256 + lo in
    let same = behind_changes k last answers in
    let next = behind_changes (k - 1) (if leb count 0xe000 then 0x10000 else count) answers in
    if count == last then same else if k == 1 then some answers else next

abbrev pub changes_of : (ns : ℕ) → ℕ
changes_of ns = if ltb ns 838 then 1 else ns / 838

abbrev pub AllBytes : Answers → Type 0
AllBytes [] = Unit {0}
AllBytes ((lo, hi) ∷ answers) = (lo < 256) × (hi < 256) × AllBytes answers

abbrev pub left_of : Waited → Option Answers
left_of (ended t answers) = some answers
left_of waiting = none

-- A round in which the count `last` has been read.
abbrev InRound : (last : ℕ) → Timer → Type 0
InRound last t = (t.count_1 ≡ last) × (t.niter + last ≡ 0x10000) × (0xe000 < last)

abbrev loop_from : (fuel : ℕ) → (ns : ℕ) → Writes → Answers → Waited
loop_from fuel ns w answers = wait_loop fuel ns w answers

latch_loop-ended :
    (answers : Answers) (t : Timer) → 8192 ≤ t.niter → latch_loop answers t ≡ ended t answers
unfolding latch_loop
latch_loop-ended [] t over = ground arith
latch_loop-ended (answer ∷ answers) t over =
    let closed : ltb t.niter 8192 ≡ false = ground arith in rw closed refl

count_lem : (lo hi : ℕ) → lo < 256 → count_of (lo, hi) ≡ hi * 256 + lo
count_lem lo hi low = bit_or_fields 8 hi lo low

-- One answer, by its count.
latch_step :
    (lo hi last : ℕ) (answers : Answers) (t : Timer)
    → lo < 256
    → hi < 256
    → InRound last t
    → latch_loop ((lo, hi) ∷ answers) t ≡ (
        let t' = latch (lo, hi) t in
        if (hi * 256 + lo) == last
        then latch_loop answers t'
        else if ltb (tick t.ns) 838
        then ended (record t' { ns = tick t.ns }) answers
        else latch_loop answers (record t' { ns = tick t.ns; niter = 0x10000 - (hi * 256 + lo) }))
unfolding latch_loop
latch_step lo hi last answers t low high (at, counted, inside) =
    let open_round : ltb t.niter 8192 ≡ true = ground arith in
    let c = hi * 256 + lo in
    let same : (sub32 t.count_1 (count_of (lo, hi)) == 0) ≡ (c == last) =
      rw (at, count_lem lo hi low) (ground arith) in
    let added : add32 t.niter (sub32 t.count_1 (count_of (lo, hi))) ≡ 0x10000 - c =
      omega (arith, at, count_lem lo hi low) in
    rw (open_round, same, added) refl

round_lem :
    (answers : Answers) (fuel last : ℕ) (t : Timer)
    → AllBytes answers
    → length answers ≤ fuel
    → InRound last t
    → left_of (go_on (loop_from fuel) (latch_loop answers t))
      ≡ behind_changes (changes_of t.ns) last answers
unfolding latch_loop wait_loop
round_lem [] fuel last t bytes enough (at, counted, inside) =
    let open_round : ltb t.niter 8192 ≡ true = ground arith in rw open_round refl
round_lem ((lo, hi) ∷ answers) zero last t bytes enough round = absurd (omega arith)
round_lem ((lo, hi) ∷ answers) (suc fuel) last t (low, high, bytes) enough round =
    let c = hi * 256 + lo in
    let t' = latch (lo, hi) t in
    let next : Timer = record t' { ns = tick t.ns; niter = 0x10000 - c } in
    let count : t'.count_1 ≡ c = count_lem lo hi low in
    rw (latch_step lo hi last answers t low high round) (elim (Bool-cases (c == last)) [
      | inl same ↦ rw same (
          round_lem answers (suc fuel) last t' bytes (omega arith)
            (omega (arith, count, (==_iff c last).0 same), round.1, round.2))
      | inr changed ↦ rw changed (elim (Bool-cases (ltb (tick t.ns) 838)) [
        | inl over ↦
            let last_change : (changes_of t.ns == 1) ≡ true = ground (arith, over) in
            let stop : leb 838 (tick t.ns) ≡ false = ground (arith, over) in
            rw (over, last_change, stop) refl
        | inr on ↦
            let more : (changes_of t.ns == 1) ≡ false = ground (arith, on) in
            let fewer : changes_of t.ns - 1 ≡ changes_of (tick t.ns) = ground (arith, on) in
            rw (on, more, fewer)
              (elim (Bool-cases (leb c 0xe000)) [
                | inr inside ↦ rw inside (
                    round_lem answers (suc fuel) c next bytes (omega arith)
                      (count, ground arith, ground (arith, inside)))
                | inl behind ↦
                    let again : leb 838 (tick t.ns) ≡ true = ground (arith, on) in
                    rw (behind, latch_loop-ended answers next (ground (arith, behind)), again)
                      (round_lem answers fuel 0x10000 (start_round next.ns next.writes) bytes
                        (omega arith) (refl, refl, omega arith))
              ])
      ])
    ])

-- With the bytes of the timer below 256, cr_amd64_msleep() returns with the answers that are left behind
-- as many changes of the count as 838 ns go into its time, and behind the first change for less than
-- that; it waits for more answers where there are not so many changes. The time in ns is
-- ms · 1000000 modulo 2 ^ 32.
pub msleep_lem :
    (ms : ℕ) (w : Writes) (answers : Answers)
    → AllBytes answers
    → left_of (msleep ms w answers)
      ≡ behind_changes (changes_of (ms * 1000000 % 2 ^ 32)) 0x10000 answers
unfolding msleep wait_loop
msleep_lem ms w answers bytes =
    let time : ms * 1000 % u32_mod * 1000 % u32_mod ≡ ms * 1000000 % 2 ^ 32 = omega arith in
    rw time (
      round_lem answers (length answers) 0x10000 (start_round (ms * 1000000 % 2 ^ 32) w) bytes
        (omega arith) (refl, refl, omega arith))
