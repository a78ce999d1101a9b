-- ===== src/Map/Layout.antt =====
-- The constants of mapdef.h: levels of the page tables and page sizes in page frames, and the
-- conversion of a virtual address to its table indices.
use clearram.Base.{ℕ, ◌+◌, ◌-◌, ◌*◌, ◌%◌, ◌^◌, if◌then◌else◌, ltb, ◌==◌, shr, add64, bit_and}

abbrev pub lvl_pt : ℕ
lvl_pt = 1

abbrev pub lvl_pd : ℕ
lvl_pd = 2

abbrev pub lvl_pdp : ℕ
lvl_pdp = 3

abbrev pub lvl_pml4 : ℕ
lvl_pml4 = 4

abbrev pub ps_4k : ℕ
ps_4k = 1

abbrev pub ps_2m : ℕ
ps_2m = 512

abbrev pub ps_1g : ℕ
ps_1g = 512 * 512

abbrev pub idx_mask : ℕ
idx_mask = 0x1ff

-- CRA_VA_TO_PE_IDX: the index of a virtual address in the table of a level.
unfoldable pub va_to_pe_idx : ℕ → ℕ → ℕ
va_to_pe_idx va level =
    if level == 4
    then bit_and (shr va 39) idx_mask
    else if level == 3
    then bit_and (shr va 30) idx_mask
    else if level == 2
    then bit_and (shr va 21) idx_mask
    else bit_and (shr va 12) idx_mask

-- CRA_VA_INCR: the sum, cut to 48 bits and sign-extended to 64 bits.
unfoldable pub va_incr : ℕ → ℕ → ℕ
va_incr va incr =
    let low = add64 va incr % 2 ^ 48 in if ltb low (2 ^ 47) then low else low + (2 ^ 64 - 2 ^ 48)
