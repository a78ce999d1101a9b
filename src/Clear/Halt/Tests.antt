-- ===== src/Clear/Halt/Tests.antt =====
-- A timer whose count goes up and down by one.
use clearram.Base.{ℕ, zero, suc, [], ◌∷◌, ◌≡◌, ◌+◌, ◌*◌, ◌%◌, ◌≢◌, length, arith, refl, ap, ◌≤◌}
use clearram.Amd64.Delay.{Answers}
use clearram.Amd64.Ports.{Writes}
use clearram.Amd64.Delay.Changes.{AllBytes}
use clearram.Amd64.Delay.Counting.{Counts}
use clearram.Clear.Fill.{halt_messages}
use clearram.Clear.Fill.Tests.{machine}
use clearram.Clear.Halt.{at_ud2, clear_halt}
use clearram.Clear.Halt.Waits.{second, clear_halt-at_ud2}

unfoldable ticks : ℕ → Answers
ticks zero = []
ticks (suc n) = (n % 2, 0) ∷ ticks n

length-ticks : (n : ℕ) → length (ticks n) ≡ n
unfolding ticks
length-ticks zero = refl
length-ticks (suc n) = ap suc (length-ticks n)

ticks-AllBytes : (n : ℕ) → AllBytes (ticks n)
unfolding ticks
ticks-AllBytes zero = tt
ticks-AllBytes (suc n) = (omega arith, omega arith, ticks-AllBytes n)

ticks-Counts : (n last : ℕ) → ((k : ℕ) → n ≡ suc k → 0 * 256 + k % 2 ≢ last) → Counts last (ticks n)
unfolding ticks
ticks-Counts zero last differs = tt
ticks-Counts (suc n) last differs =
    (differs n refl, ticks-Counts n (0 * 256 + n % 2) (λ k e. omega (arith, e)))

enough_ticks : 3 * second ≤ length (ticks 3600000)
enough_ticks = rw (length-ticks 3600000) (omega arith)

clear_halt-at_ud2_example :
    (w : Writes) × ((left : Answers) × (clear_halt [] (ticks 3600000) machine
        ≡ at_ud2 w left (halt_messages machine))
      × (length left + 3 * second ≡ length (ticks 3600000)))
clear_halt-at_ud2_example =
    clear_halt-at_ud2 [] (ticks 3600000) machine (ticks-AllBytes 3600000)
      (ticks-Counts 3600000 0x10000 (λ k e. λ e'. omega (arith, e'))) enough_ticks
