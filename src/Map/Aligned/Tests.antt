-- ===== src/Map/Aligned/Tests.antt =====
-- Runs with page tables from 0x100000 on, and a host that counts them.
use clearram.Base.{
  ℕ, ◌+◌, ◌*◌, ◌/◌, ◌<◌, ◌-◌, min, Bool, true, Outcome, done, Result, ok, ◌≡◌, refl, arith, Ends,
}
use clearram.Map.Layout.{va_to_pe_idx, va_incr}
use clearram.Amd64.PageEnt.{init_page_ent}
use clearram.Map.Aligned.{
  Tables, Filling, NewTable, Params, write_entry, fill_table, next_table, aligned_rounds,
  map_pages_aligned,
}
use clearram.Map.Aligned.Returns.{Returns, map_pages_aligned-Returns}
use clearram.Map.Aligned.Fill.{IsFilled, fill_table-IsFilled, params_4k}

abbrev params : Params
params = params_4k 2 1

abbrev linked : (pfn va : ℕ) → ℕ → Outcome ℕ
linked pfn va host = done host

-- The next free page as a table.
abbrev bump : (va level : ℕ) (map_direct : Bool) (table idx : ℕ) → Tables ℕ → Outcome (NewTable ℕ)
bump va level map_direct table idx t = done (record {
  pt_next = t.host;
  tables = record {
    entries =
        write_entry table idx (init_page_ent (t.host / 0x1000) 2 1 level map_direct) t.entries;
    va_base = t.va_base;
    host = t.host + 0x1000;
  };
})

abbrev identity : (pfn : ℕ) → ℕ → Result ℕ
identity pfn host = ok (pfn * 0x1000)

abbrev empty_tables : ℕ → Tables ℕ
empty_tables va = record { entries = λ q j. 0; va_base = va; host = 0x101000 }

abbrev entry : Outcome (Tables ℕ) → ℕ → ℕ → ℕ
entry (done t) q j = t.entries q j
entry _ q j = 0

-- Three frames from the last page of a table on: two tables of pages.
three_pages :
    let after =
      map_pages_aligned params linked bump identity 0x1237 0x100000 0x1234
        (empty_tables 0x1ff000) in
    (entry after 0x103000 511 ≡ 0x8000000001234003) × (entry after 0x104000 1 ≡ 0x8000000001236003)
unfolding map_pages_aligned aligned_rounds next_table fill_table init_page_ent va_to_pe_idx va_incr
three_pages = (refl, refl)

abbrev half_full : Filling ℕ
half_full = record { pfn_cur = 0x1234; pt_idx = 510; tables = empty_tables 0x1fe000 }

fill_table-IsFilled_example :
    Ends
      (IsFilled 2 1 1 true 0x103000 (min 2 (0x1300 - 0x1234)) half_full)
      (λ g. (m : ℕ) × (m < min 2 (0x1300 - 0x1234)) × IsFilled 2 1 1 true 0x103000 m half_full g)
      (fill_table params linked 2 0x1300 1 true 0x103000 half_full)
fill_table-IsFilled_example =
    fill_table-IsFilled 2 1 linked (λ pfn va h. tt) 2 0x1300 1 true 0x103000 half_full (omega arith)
      (omega arith) (omega arith) refl

map_pages_aligned-Returns_example :
    Returns
      (λ u. Unit {0})
      (map_pages_aligned params linked bump identity 0x1237 0x100000 0x1234 (empty_tables 0x1ff000))
map_pages_aligned-Returns_example =
    map_pages_aligned-Returns 2 1 linked bump identity (λ pfn va h. tt)
      (λ va level map_direct table idx t. tt) 0x1237 (omega arith) 0x100000 0x1234
      (empty_tables 0x1ff000)
