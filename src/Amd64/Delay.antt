-- ===== src/Amd64/Delay.antt =====
-- cr_amd64_msleep() of subr_amd64.c on counter 0 of the interval timer. What the timer answers is a
-- parameter: for each latched count the two bytes that cr_amd64_inb() reads, the low one first.
pub mod Changes
pub mod Counting
mod Tests
use clearram.Base.{
  ℕ, zero, suc, ◌+◌, ◌-◌, ◌*◌, ◌%◌, ◌^◌, List, [], ◌∷◌, if◌then◌else◌, ltb, leb, ◌==◌, length,
  bit_or, u32_mod, add32, sub32, Option, none, some,
}
use clearram.Amd64.Ports.{Writes, outb}

abbrev pub Answers : Type 0
Answers = List (ℕ × ℕ)

-- The variables of the loops, and what has been written to ports.
pub record Timer : Type 0 where
  pub ns : ℕ
  pub count_0 : ℕ
  pub count_1 : ℕ
  pub niter : ℕ
  pub writes : Writes

-- A loop has ended, with the answers that are left; or it waits for another answer.
pub data Waited : Type 0 where
  ended : Timer → Answers → Waited
  waiting : Waited

-- `(hi << 8) | lo` of two bytes.
abbrev pub count_of : ℕ × ℕ → ℕ
count_of (lo, hi) = bit_or (hi * 2 ^ 8) lo

-- From the latch to the new count.
abbrev pub latch : ℕ × ℕ → Timer → Timer
latch answer t = record t {
  count_0 = t.count_1;
  count_1 = count_of answer;
  writes = outb 0x43 0x00 t.writes;
}

abbrev pub tick : (ns : ℕ) → ℕ
tick ns = if leb 838 ns then ns - 838 else ns

-- The `for` loop.
unfoldable pub latch_loop : Answers → Timer → Waited
latch_loop [] t = if ltb t.niter 8192 then waiting else ended t []
latch_loop (answer ∷ answers) t =
    let t' = latch answer t in
    let delta = sub32 t'.count_0 t'.count_1 in
    let t'' = record t' { ns = tick t'.ns } in
    let again = latch_loop answers t' in
    let rest = latch_loop answers (record t'' { niter = add32 t''.niter delta }) in
    if ltb t.niter 8192
    then (if delta == 0 then again else if ltb t''.ns 838 then ended t'' answers else rest)
    else ended t (answer ∷ answers)

-- The start of a round: the counter is set to 0, which it takes for 0x10000.
abbrev pub start_round : (ns : ℕ) → Writes → Timer
start_round ns w = record {
  ns = ns;
  count_0 = 0x10000;
  count_1 = 0x10000;
  niter = 0;
  writes = outb 0x40 0x00 (outb 0x40 0x00 (outb 0x43 0x30 w));
}

-- The test of `do ... while (ns >= 838)`, with the loop as the way to go on.
abbrev pub go_on : ((ns : ℕ) → Writes → Answers → Waited) → Waited → Waited
go_on loop waiting = waiting
go_on loop (ended t answers) = if leb 838 t.ns then loop t.ns t.writes answers else ended t answers

-- The rounds left are the fuel; without one the call waits.
unfoldable pub wait_loop : (fuel ns : ℕ) → Writes → Answers → Waited
unfolding latch_loop
wait_loop zero ns w answers = waiting
wait_loop (suc fuel) ns w answers =
    go_on (λ ns' w' answers'. wait_loop fuel ns' w' answers')
      (latch_loop answers (start_round ns w))

-- `ms * 1000 * 1000` is computed with 32 bits. Each round takes an answer at least.
unfoldable pub msleep : (ms : ℕ) → Writes → Answers → Waited
msleep ms w answers =
    wait_loop (suc (length answers)) (ms * 1000 % u32_mod * 1000 % u32_mod) w answers
