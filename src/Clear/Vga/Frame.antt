-- ===== src/Clear/Vga/Frame.antt =====
-- cr_clear_vga_clear() over the 4000 bytes of the text screen.
use clearram.Base.{
  ℕ, zero, suc, ◌+◌, ◌-◌, ◌*◌, ◌%◌, if◌then◌else◌, ltb, leb, ◌==◌, ◌&&◌, ◌≡◌, arith,
}
use clearram.Clear.Vga.{Memory, write_long, vga_blank, clear_loop, vga_clear}

-- One step: the eight bytes of four blank characters, and no other.
write_blank :
    (p : ℕ) (m : Memory) (a : ℕ)
    → write_long 8 p vga_blank m a
      ≡ (if leb p a && ltb a (p + 8) then (if ((a - p) % 2) == 0 then 0 else 0x1f) else m a)
write_blank p m a = ground arith

-- All the steps from `va` on.
clear_loop_lem :
    (rounds va : ℕ) (m : Memory) (a : ℕ)
    → clear_loop rounds va m a ≡ (
        if leb va a && ltb a (va + 8 * rounds)
        then (if ((a - va) % 2) == 0 then 0 else 0x1f)
        else m a)
unfolding clear_loop
clear_loop_lem zero va m a = ground arith
clear_loop_lem (suc rounds) va m a =
    ground
      (arith, clear_loop_lem rounds (va + 8) (write_long 8 va vga_blank m) a, write_blank va m a)

-- Every character of the 80 by 25 screen is 0 with the attribute 0x1f afterwards, and no other byte of
-- memory is changed.
pub vga_clear_lem :
    (clear_vga : ℕ) (m : Memory) (a : ℕ)
    → vga_clear clear_vga m a ≡ (
        if leb clear_vga a && ltb a (clear_vga + 2 * 80 * 25)
        then (if ((a - clear_vga) % 2) == 0 then 0 else 0x1f)
        else m a)
unfolding vga_clear
vga_clear_lem clear_vga m a = clear_loop_lem 500 clear_vga m a
