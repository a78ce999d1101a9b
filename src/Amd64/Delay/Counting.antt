-- ===== src/Amd64/Delay/Counting.antt =====
-- The wait of cr_amd64_msleep() while the timer counts.
use clearram.Base.{
  ℕ, ◌+◌, ◌-◌, ◌*◌, ◌%◌, ◌^◌, ◌≤◌, ◌<◌, [], ◌∷◌, if◌then◌else◌, leb, ◌==◌, length, Option, none,
  some, ◌≡◌, refl, Bool-cases, inl, inr, arith, false, ◌⊎◌, ◌∙◌, ◌≢◌, different, ap,
}
use clearram.Amd64.Ports.{Writes}
use clearram.Amd64.Delay.{Answers, Timer, Waited, ended, waiting, msleep}
use clearram.Amd64.Delay.Changes.{behind_changes, changes_of, AllBytes, left_of, msleep_lem}

-- The timer counts: no count is the one before.
abbrev pub Counts : (last : ℕ) → Answers → Type 0
Counts last [] = Unit {0}
Counts last ((lo, hi) ∷ answers) = (hi * 256 + lo ≢ last) × Counts (hi * 256 + lo) answers

-- At the start of a round no count is the one before.
Counts-start :
    (last : ℕ) (answers : Answers) → AllBytes answers → Counts last answers → Counts 0x10000 answers
Counts-start last [] bytes counts = tt
Counts-start last ((lo, hi) ∷ answers) (low, high, bytes) (changed, counts) =
    (λ e. omega (arith, e, low, high), counts)

-- The answers that are left behind `k` of them are those of a timer that counts.
abbrev pub StillCounts : (k : ℕ) (answers rest : Answers) → Type 0
StillCounts k answers rest =
    (length rest + k ≡ length answers) × AllBytes rest × Counts 0x10000 rest

behind_changes-Counts :
    (answers : Answers) (k last before : ℕ)
    → AllBytes answers
    → Counts before answers
    → ((last ≡ before) ⊎ (last ≡ 0x10000))
    → 0 < k
    → k ≤ length answers
    → (rest : Answers) × (behind_changes k last answers ≡ some rest) × StillCounts k answers rest
behind_changes-Counts [] k last before bytes counts from pos enough = absurd (omega arith)
behind_changes-Counts ((lo, hi) ∷ answers) k last before (low, high, bytes) (changed, counts) from
      pos enough =
    let c = hi * 256 + lo in
    let differs : (c == last) ≡ false =
      different c last
        (λ e. elim from [ inl old ↦ changed (e ∙ old) | inr start ↦ omega (arith, e, start) ]) in
    elim (Bool-cases (k == 1)) [
      | inl one ↦ (
        answers,
        rw (differs, one) refl,
        (ground (arith, one), bytes, Counts-start c answers bytes counts),
      )
      | inr more ↦
          let next = if leb c 0xe000 then 0x10000 else c in
          let follows : (next ≡ c) ⊎ (next ≡ 0x10000) = elim (Bool-cases (leb c 0xe000)) [
            | inl behind ↦ inr (rw behind refl)
            | inr inside ↦ inl (rw inside refl)
          ] in
          let (rest, found, still) =
            behind_changes-Counts answers (k - 1) next c bytes counts follows (ground (arith, more))
              (ground (arith, more)) in
          (rest, rw (differs, more) found, (ground (arith, more, still.0), still.1, still.2))
    ]

left_of-ended :
    (m : Waited) (rest : Answers) → left_of m ≡ some rest → (t : Timer) × (m ≡ ended t rest)
left_of-ended (ended t answers) rest e =
    (t, ap (ended t) (ap (λ (o : Option Answers). elim o [ some a ↦ a | none ↦ answers ]) e))
left_of-ended waiting rest e =
    absurd (omega (arith, ap {B = ℕ} (λ (o : Option Answers). elim o [ some a ↦ 1 | none ↦ 0 ]) e))

-- The answers, in number, that a wait takes while the timer counts.
pub msleep-StillCounts :
    (ms : ℕ) (w : Writes) (answers : Answers)
    → AllBytes answers
    → Counts 0x10000 answers
    → changes_of (ms * 1000000 % 2 ^ 32) ≤ length answers
    → (t : Timer) × ((rest : Answers) × (msleep ms w answers ≡ ended t rest)
        × StillCounts (changes_of (ms * 1000000 % 2 ^ 32)) answers rest)
msleep-StillCounts ms w answers bytes counts enough =
    let time = ms * 1000000 % 2 ^ 32 in
    let (rest, found, still) =
      behind_changes-Counts answers (changes_of time) 0x10000 0x10000 bytes counts (inl refl)
        (ground arith) enough in
    let (t, at) =
      left_of-ended (msleep ms w answers) rest (msleep_lem ms w answers bytes ∙ found) in
    (t, (rest, at, still))
