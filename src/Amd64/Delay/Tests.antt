-- ===== src/Amd64/Delay/Tests.antt =====
-- Waits of a millisecond that wraps to a few changes, and the answers of a timer that counts down.
use clearram.Base.{ℕ, zero, suc, ◌*◌, ◌/◌, ◌%◌, ◌-◌, [], ◌∷◌, some, none, ◌≡◌, refl, arith, ◌^◌}
use clearram.Amd64.Delay.{Answers, msleep, wait_loop, latch_loop}
use clearram.Amd64.Delay.Changes.{left_of, behind_changes, changes_of, msleep_lem}

-- 4295 ms are 32704 ns with 32 bits: 39 changes.
wrapped_time : changes_of (4295 * 1000000 % 2 ^ 32) ≡ 39
wrapped_time = refl

abbrev counting_down : (answers count : ℕ) → Answers
counting_down zero count = []
counting_down (suc n) count = (count % 256, count / 256) ∷ counting_down n (count - 0x600)

-- Of 41 answers two are left; a round ends with each sixth.
wrapped_run :
    left_of (msleep 4295 [] (counting_down 41 0xffff))
    ≡ some (counting_down 2 (0xffff - 39 * 0x600))
unfolding msleep wait_loop latch_loop
wrapped_run = refl

-- A timer that stands still is waited for.
still_run : left_of (msleep 1 [] ((0xff, 0xff) ∷ (0xff, 0xff) ∷ (0xff, 0xff) ∷ [])) ≡ none
unfolding msleep wait_loop latch_loop
still_run = refl

msleep_lem_example :
    left_of (msleep 0 [] ((0, 0x10) ∷ (1, 0x10) ∷ []))
    ≡ behind_changes 1 0x10000 ((0, 0x10) ∷ (1, 0x10) ∷ [])
msleep_lem_example = msleep_lem 0 [] ((0, 0x10) ∷ (1, 0x10) ∷ []) (omega arith)
