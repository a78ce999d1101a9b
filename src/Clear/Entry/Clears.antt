-- ===== src/Clear/Entry/Clears.antt =====
-- The screen controller and memory behind crp_clear_cpu_entry().
use clearram.Base.{
  ℕ, Bool, true, ◌≡◌, refl, ◌<◌, ◌/◌, ◌||◌, ◌==◌, [], ◌∷◌, if◌then◌else◌, done, arith, ◌%◌, ◌^◌,
}
use clearram.Amd64.Ports.{Writes, outb}
use clearram.Clear.State.{ClearState}
use clearram.Clear.Fill.Blocks.{IsLayout, clear_clear-zero}
use clearram.Clear.Vga.{vga_clear}
use clearram.Clear.Entry.{vga_reset, cpu_entry}

-- The screen controller: port 0x3d4 selects a register, port 0x3d5 writes the one selected.
pub record Crtc : Type 0 where
  pub index : ℕ
  pub registers : ℕ → ℕ

abbrev pub crtc_write : ℕ × ℕ → Crtc → Crtc
crtc_write (port, byte) c =
    if port == 0x3d4
    then record c { index = byte }
    else if port == 0x3d5
    then record c { registers = λ r. if r == c.index then byte else c.registers r }
    else c

abbrev pub crtc_run : Writes → Crtc → Crtc
crtc_run [] c = c
crtc_run (w ∷ ws) c = crtc_run ws (crtc_write w c)

crtc_run-outb :
    (w : Writes) (port byte : ℕ) (c : Crtc)
    → crtc_run (outb port byte w) c ≡ crtc_write (port % 2 ^ 16, byte % 2 ^ 8) (crtc_run w c)
crtc_run-outb [] port byte c = refl
crtc_run-outb ((p, b) ∷ w) port byte c = crtc_run-outb w port byte (crtc_write (p, b) c)

vga_reset-registers :
    (w : Writes) (c : Crtc) (r : ℕ)
    → (crtc_run (vga_reset w) c).registers r
      ≡ (if (r == 12) || (r == 13) then 0 else (crtc_run w c).registers r)
unfolding vga_reset
vga_reset-registers w c r =
    let w1 = outb 0x3d4 0x0c w in
    let w2 = outb 0x3d5 0x00 w1 in
    let w3 = outb 0x3d4 0x0d w2 in
    rw
      (
        crtc_run-outb w3 0x3d5 0x00 c,
        crtc_run-outb w2 0x3d4 0x0d c,
        crtc_run-outb w1 0x3d5 0x00 c,
        crtc_run-outb w 0x3d4 0x0c c,
      )
      (ground arith)

-- Let the map have page 0, and the screen be behind it, at an even address with room for the messages.
-- Whatever other pages the map lacks, and whatever has been
-- written to ports and to the screen before, crp_clear_cpu_entry() sets the two registers of the screen
-- controller that hold the start of the screen to zero and no other, and comes to its end with every
-- byte of the pages below `clear_va_top` zero.
pub cpu_entry-zero :
    (present : ℕ → Bool) (w : Writes) (st : ClearState) (c : Crtc)
    → IsLayout present st.clear_vga st.clear_va_top
    → (a : ℕ) → a < st.clear_va_top
    → present (a / 4096) ≡ true
    → let after = cpu_entry present w st in
      ((r : ℕ)
        → (crtc_run after.writes c).registers r
          ≡ (if (r == 12) || (r == 13) then 0 else (crtc_run w c).registers r))
      × ((t : ClearState) × (after.cleared ≡ done t) × (t.mem a ≡ 0))
unfolding cpu_entry
cpu_entry-zero present w st c layout a below on = (
  vga_reset-registers w c,
  clear_clear-zero present (record st { mem = vga_clear st.clear_vga st.mem }) layout a below on,
)
