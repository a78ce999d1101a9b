-- ===== src/Amd64/Vectors.antt =====
-- The wrappers of the exception vectors 0x00 to 0x12 in subr_amd64.c, and the way from a vector through
-- the IDT to one of them. A wrapper is 13 or 15 bytes long, so that `.align 0x10` puts each 16 bytes
-- behind the one before.
pub mod Dispatch
mod Tests
use clearram.Base.{
  ℕ, Bool, true, false, List, [], ◌∷◌, Option, none, some, if◌then◌else◌, ◌==◌, add64,
}
use clearram.Amd64.Descriptors.{Table}
use clearram.Amd64.Descriptors.Laws.{gate_offset}
use clearram.Amd64.Exception.{Machine, Ended, Answer, exc_handler}
use clearram.Clear.Regs.{CpuRegs}

-- The vector that a wrapper pushes, and whether the processor has pushed an error code before:
-- CRA_DECL_EXC_HANDLER_NOCODE pushes a zero in its place.
abbrev pub wrappers : List (ℕ × Bool)
wrappers =
    (0x00, false)
    ∷ (0x01, false)
    ∷ (0x02, false)
    ∷ (0x03, false)
    ∷ (0x04, false)
    ∷ (0x05, false)
    ∷ (0x06, false)
    ∷ (0x07, false)
    ∷ (0x08, true)
    ∷ (0x09, false)
    ∷ (0x0a, true)
    ∷ (0x0b, true)
    ∷ (0x0c, true)
    ∷ (0x0d, true)
    ∷ (0x0e, true)
    ∷ (0x0f, false)
    ∷ (0x10, false)
    ∷ (0x11, true)
    ∷ (0x12, false)
    ∷ []

-- The wrapper at an address, with the first at `base`.
abbrev pub wrapper_at : List (ℕ × Bool) → (base address : ℕ) → Option (ℕ × Bool)
wrapper_at [] base address = none
wrapper_at (w ∷ ws) base address =
    if address == base then some w else wrapper_at ws (add64 base 0x10) address

module _ (word_at below : ℕ → ℕ) (cpu_exception : CpuRegs → Answer) where
  -- The gate of the vector leads to a wrapper, which calls cr_amd64_exception(). `m` has the words that
  -- the processor has pushed on its stack.
  unfoldable pub deliver : (idt : Table) (base vector return_to : ℕ) → Machine → Option Ended
  deliver idt base vector return_to m = elim (wrapper_at wrappers base (gate_offset (idt vector))) [
    | none ↦ none
    | some (vec_hex, code) ↦ some (exc_handler word_at below cpu_exception code vec_hex return_to m)
  ]
