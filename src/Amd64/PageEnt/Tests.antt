-- ===== src/Amd64/PageEnt/Tests.antt =====
-- Entries as words, and the theorems about them at concrete values.
use clearram.Base.{◌≡◌, ◌≢◌, refl, arith, true, ◌^◌, ◌<◌, bit_or, get_field}
use clearram.Amd64.PageEnt.{init_page_ent, pe_bits, pe_nx, pe_pfn_base, pe_present}
use clearram.Amd64.PageEnt.Laws.{
  init_page_ent-fields, frame_1g, frame_2m, init_page_ent-large_frame,
}

page_ent_word : init_page_ent 0x12345 0x12 1 1 true ≡ 0x8000000012345013
unfolding init_page_ent
page_ent_word = refl

init_page_ent-fields_example :
    (get_field pe_bits (init_page_ent 0xb8 0x12 1 1 true) ≡ bit_or pe_present 0x12)
    × (get_field pe_nx (init_page_ent 0xb8 0x12 1 1 true) ≡ 1)
    × (get_field pe_pfn_base (init_page_ent 0xb8 0x12 1 1 true) ≡ 0xb8)
    × (init_page_ent 0xb8 0x12 1 1 true < 2 ^ 64)
init_page_ent-fields_example =
    init_page_ent-fields 0xb8 0x12 1 1 true refl (omega arith) (omega arith) (omega arith)

init_page_ent-large_frame_example :
    (frame_1g (init_page_ent 0x40000 2 1 3 true) ≢ 0x40000)
    × (frame_2m (init_page_ent 0x40000 2 1 2 true) ≢ 0x40000)
init_page_ent-large_frame_example =
    init_page_ent-large_frame 0x40000 2 1 (omega arith) (omega arith) (omega arith) (omega arith)
