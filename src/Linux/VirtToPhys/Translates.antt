-- ===== src/Linux/VirtToPhys/Translates.antt =====
-- The processor's translation of an address through a page of each size, and cr_host_virt_to_phys()
-- as the number of its frame.
use clearram.Base.{
  ℕ, inl, inr, Bool, not, ◌%◌, if◌then◌else◌, ◌≡◌, ◌/◌, bit_and, ◌^◌, ◌==◌, ◌*◌, Bool-cases, ◌+◌,
  arith, ◌<◌, ◌∙◌, bit_or,
}
use clearram.Base.Bits.{bit_and_low, bit_and_field, bit_or_fields}
use clearram.Map.Layout.{va_to_pe_idx}
use clearram.Linux.VirtToPhys.{virt_to_phys, page_pse, shl}

-- The address that the entry of a page of `2 ^ size` bytes leads to: the entry's bits from `size` up
-- to 51, and the offset in the page.
abbrev pub through : (size pe va : ℕ) → ℕ
through size pe va = pe % 2 ^ 52 / 2 ^ size * 2 ^ size + va % 2 ^ size

-- Bit 7 of an entry above the level of the 4K pages ends the walk.
abbrev pub is_large : (pe : ℕ) → Bool
is_large pe = (pe / 128 % 2) == 1

abbrev pub physical : (pud pmd pte : ℕ → ℕ) → (va : ℕ) → ℕ
physical pud pmd pte va =
    if is_large (pud va)
    then through 30 (pud va) va
    else if is_large (pmd va)
    then through 21 (pmd va) va
    else through 12 (pte va) va

large_lem : (pe : ℕ) → not (bit_and pe page_pse == 0) ≡ is_large pe
large_lem pe = ground (arith, bit_and_field 7 1 pe)

frame_and_indices :
    (a i j : ℕ)
    → a < 2 ^ 22
    → i < 512
    → j < 512
    → bit_or (bit_or (shl a 18) (i * 512)) j ≡ a * 2 ^ 18 + i * 512 + j
frame_and_indices a i j h k l =
    let shifted : shl a 18 ≡ a * 2 ^ 18 = omega arith in
    let joined : bit_or (shl a 18) (i * 512) ≡ (a * 512 + i) * 2 ^ 9 =
      rw shifted (omega (arith, bit_or_fields 18 a (i * 512) (omega arith))) in
    rw joined (omega (arith, bit_or_fields 9 (a * 512 + i) j l))

frame_and_index : (a j : ℕ) → a < 2 ^ 31 → j < 512 → bit_or (shl a 9) j ≡ a * 2 ^ 9 + j
frame_and_index a j h l =
    let shifted : shl a 9 ≡ a * 2 ^ 9 = omega arith in rw shifted (bit_or_fields 9 a j l)

-- For every address and all entries of the kernel's page tables, taken as present,
-- cr_host_virt_to_phys() is the number
-- of the 4K frame that the processor translates the address to, through pages of 1G, 2M and 4K.
pub virt_to_phys-physical :
    (pud pmd pte : ℕ → ℕ) (va : ℕ) → virt_to_phys pud pmd pte va ≡ physical pud pmd pte va / 4096
unfolding virt_to_phys va_to_pe_idx
virt_to_phys-physical pud pmd pte va =
    rw (large_lem (pud va), large_lem (pmd va))
      (elim (Bool-cases (is_large (pud va))) [
        | inl huge ↦ rw huge (
            rw (bit_and_low 9 (va / 2 ^ 21), bit_and_low 9 (va / 2 ^ 12))
              (frame_and_indices (pud va / 2 ^ 30 % 2 ^ 22) (va / 2 ^ 21 % 512) (va / 2 ^ 12 % 512)
                  (omega arith) (omega arith) (omega arith)
                ∙ omega arith))
        | inr not_huge ↦ rw not_huge (elim (Bool-cases (is_large (pmd va))) [
          | inl large ↦ rw large (
              rw (bit_and_low 9 (va / 2 ^ 12)) (
                frame_and_index (pmd va / 2 ^ 21 % 2 ^ 31) (va / 2 ^ 12 % 512) (omega arith)
                  (omega arith)
                ∙ omega arith))
          | inr small ↦ rw small (omega arith)
        ])
      ])
