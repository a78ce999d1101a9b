-- ===== src/Amd64/PageEnt/Laws.antt =====
-- What the processor reads from an entry that cr_amd64_init_page_ent() wrote.
use clearram.Base.{
  ℕ, ◌^◌, ◌<◌, true, false, bit_or, get_field, ◌≡◌, arith, ◌≢◌, ◌%◌, ◌*◌, ◌&&◌, ◌==◌, ◌||◌,
}
use clearram.Base.Bits.{bit_or_bound}
use clearram.Amd64.PageEnt.{
  pe_bits, pe_nx, pe_pfn_base, pe_page_size, pe_present, init_page_ent, pe_1g_pfn_base,
  pe_2m_pfn_base, Bool,
}

-- The flags stay within their nine bits.
flags_fit :
    (x : ℕ)
    → x < 512
    → (bit_or pe_present x < 512) × (bit_or (bit_or pe_present x) pe_page_size < 512)
flags_fit x h =
    let present = bit_or_bound 9 pe_present x (omega arith) h in
    (present, bit_or_bound 9 (bit_or pe_present x) pe_page_size present (omega arith))

-- An entry of a 4K page (`map_direct` at level 1) or for a lower table (not `map_direct`), as every
-- entry but those of large pages, made of nine flag bits, an NX bit and a frame number of 40 bits, holds the flags with the present bit, that NX bit and that frame, and fits 64 bits.
pub init_page_ent-fields :
    (pfn extra nx level : ℕ) (direct : Bool)
    → (direct && ((level == 2) || (level == 3))) ≡ false
    → extra < 2 ^ 9
    → nx < 2
    → pfn < 2 ^ 40
    → (get_field pe_bits (init_page_ent pfn extra nx level direct) ≡ bit_or pe_present extra)
      × (get_field pe_nx (init_page_ent pfn extra nx level direct) ≡ nx)
      × (get_field pe_pfn_base (init_page_ent pfn extra nx level direct) ≡ pfn)
      × (init_page_ent pfn extra nx level direct < 2 ^ 64)
unfolding init_page_ent
init_page_ent-fields pfn extra nx level false small h k p = ground (arith, flags_fit extra h)
init_page_ent-fields pfn extra nx level true small h k p =
    let lower : (level == 2) ≡ false = ground (arith, small) in
    let low : (level == 3) ≡ false = ground (arith, small) in
    ground (arith, flags_fit extra h, lower, low)

-- The frame that the processor maps through a 1G and through a 2M entry, in 4K frames.
abbrev pub frame_1g : ℕ → ℕ
frame_1g pe = get_field pe_1g_pfn_base pe * 262144

abbrev pub frame_2m : ℕ → ℕ
frame_2m pe = get_field pe_2m_pfn_base pe * 512

-- A large entry keeps its flags, with the page size flag, and the low bits of the frame number
-- that it was given, unshifted.
pub init_page_ent-large :
    (pfn extra nx : ℕ)
    → extra < 2 ^ 9
    → nx < 2
    → (get_field pe_1g_pfn_base (init_page_ent pfn extra nx 3 true) ≡ pfn % 2 ^ 22)
      × (get_field pe_2m_pfn_base (init_page_ent pfn extra nx 2 true) ≡ pfn % 2 ^ 31)
      × (get_field pe_bits (init_page_ent pfn extra nx 3 true)
          ≡ bit_or (bit_or pe_present extra) pe_page_size)
      × (get_field pe_bits (init_page_ent pfn extra nx 2 true)
          ≡ bit_or (bit_or pe_present extra) pe_page_size)
unfolding init_page_ent
init_page_ent-large pfn extra nx h k = (
  ground (arith, flags_fit extra h),
  ground (arith, flags_fit extra h),
  ground (arith, flags_fit extra h),
  ground (arith, flags_fit extra h),
)

-- For nine flag bits, an NX bit and a frame number of 40 bits that is not zero, the processor maps
-- another frame than that through the 1G and through the 2M entry: the field counts units of the
-- large page, and is given the number of a 4K frame.
pub init_page_ent-large_frame :
    (pfn extra nx : ℕ)
    → extra < 2 ^ 9
    → nx < 2
    → 0 < pfn
    → pfn < 2 ^ 40
    → (frame_1g (init_page_ent pfn extra nx 3 true) ≢ pfn)
      × (frame_2m (init_page_ent pfn extra nx 2 true) ≢ pfn)
init_page_ent-large_frame pfn extra nx h k pos small =
    omega (arith, init_page_ent-large pfn extra nx h k)
