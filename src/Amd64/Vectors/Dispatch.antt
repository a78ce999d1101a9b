-- ===== src/Amd64/Vectors/Dispatch.antt =====
-- Each vector comes to its own wrapper, of the right kind.
use clearram.Base.{ℕ, zero, suc, Bool, List, [], ◌∷◌, ◌+◌, ◌==◌, ◌||◌, leb, ◌&&◌}

-- The exceptions up to 0x12 that the processor pushes an error code for: double fault, invalid TSS,
-- segment not present, stack, general protection, page fault and alignment check.
abbrev pub pushes_code : (vector : ℕ) → Bool
pushes_code vector = (vector == 8) || ((leb 10 vector && leb vector 14) || (vector == 17))

-- The wrappers that there should be, from a vector on: `expected 19 0` is `wrappers`.
abbrev expected : (left vector : ℕ) → List (ℕ × Bool)
expected zero vector = []
expected (suc left) vector = (vector, pushes_code vector) ∷ expected left (vector + 1)
