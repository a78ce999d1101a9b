-- ===== src/Amd64/Ports.antt =====
-- cr_amd64_outb() of subr_amd64.c: the instruction, as the list of what has been written to ports, the
-- last one at the end.
use clearram.Base.{ℕ, List, [], ◌∷◌, ◌++◌, ◌%◌, ◌^◌}

-- A port and a byte.
abbrev pub Writes : Type 0
Writes = List (ℕ × ℕ)

abbrev pub outb : (port byte : ℕ) → Writes → Writes
outb port byte w = w ++ (port % 2 ^ 16, byte % 2 ^ 8) ∷ []
