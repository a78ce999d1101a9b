-- ===== src/Map/Aligned.antt =====
-- cr_amd64_map_pages_aligned() of subr_map.c with its helpers. The entries of the page tables are a
-- function from the address of a table and an index. The functions that the C code takes as
-- pointers, and the host's part of the state, are parameters.
pub mod Fill
pub mod Source
pub mod Route
pub mod Descend
pub mod Steps
pub mod Chunk
pub mod Rounds
pub mod FillRound
pub mod Maps
pub mod Blocks
pub mod Returns
pub mod Keeps
pub mod BlocksKeep
mod Tests
use clearram.Base.{
  ℕ, zero, suc, ◌+◌, ◌-◌, ◌*◌, ◌/◌, ◌%◌, ◌^◌, Bool, true, false, if◌then◌else◌, ltb, leb, ◌==◌,
  ◌&&◌, not, bit_and, add64, page_size_bytes, Outcome, done, failed, undefined, out_of_fuel, Result,
  ok, err, get_field,
}
use clearram.Map.Layout.{va_to_pe_idx, va_incr}
use clearram.Amd64.PageEnt.{
  init_page_ent, pe_bits, pe_present, pe_pfn_base, pe_2m_pfn_base, pe_1g_pfn_base,
}

abbrev pub Entries : Type 0
Entries = ℕ → ℕ → ℕ

abbrev pub write_entry : (table idx pe : ℕ) → Entries → Entries
write_entry table idx pe entries q j = if q == table && (j == idx) then pe else entries q j

-- `*va_base` and what it is passed along with.
pub record Tables (H : Type 0) : Type 0 where
  pub entries : Entries
  pub va_base : ℕ
  pub host : H

-- What crp_amd64_fill_table() leaves in `*ppfn_cur`, `*ppt_idx` and the rest.
pub record Filling (H : Type 0) : Type 0 where
  pub pfn_cur : ℕ
  pub pt_idx : ℕ
  pub tables : Tables H

-- What a new table is: its address, and the state with the entry that leads to it.
pub record NewTable (H : Type 0) : Type 0 where
  pub pt_next : ℕ
  pub tables : Tables H

-- `if ((err = f(...)) < 0) return err;` where the states differ.
abbrev pub try_in : {A B : Type 0} → Outcome A → (A → B) → (A → Outcome B) → Outcome B
try_in (done a) on_error k = k a
try_in (failed e a) on_error k = failed e (on_error a)
try_in undefined on_error k = undefined
try_in out_of_fuel on_error k = out_of_fuel

-- The arguments that are the same for all entries.
pub record Params : Type 0 where
  pub extra_bits : ℕ
  pub pages_nx : ℕ
  pub page_size : ℕ

-- `switch (level)` of the loop.
abbrev pub is_direct : (page_size level : ℕ) → Bool
is_direct page_size level =
    if level == 1
    then page_size == 1
    else if level == 2
    then page_size == 512
    else if level == 3
    then page_size == 512 * 512
    else false

-- crp_amd64_get_table(), up to the number that it hands to xlate_pfn().
abbrev pub table_pfn : (map_direct : Bool) (level pe : ℕ) → ℕ
table_pfn map_direct level pe =
    if map_direct && (level == 3)
    then get_field pe_1g_pfn_base pe
    else if map_direct && (level == 2)
    then get_field pe_2m_pfn_base pe
    else get_field pe_pfn_base pe

module _ {H : Type 0} (prm : Params) (link_ram_page : (pfn va : ℕ) → H → Outcome H) where
  -- The state behind one entry.
  abbrev pub set_entry : (level : ℕ) (map_direct : Bool) (table : ℕ) → Filling H → H → Filling H
  set_entry level map_direct table f host =
      let t = f.tables in
      let pe = init_page_ent f.pfn_cur prm.extra_bits prm.pages_nx level map_direct in
      record {
        pfn_cur = add64 f.pfn_cur prm.page_size;
        pt_idx = f.pt_idx + 1;
        tables = record {
          entries = write_entry table f.pt_idx pe t.entries;
          va_base = va_incr t.va_base (prm.page_size * page_size_bytes);
          host = host;
        };
      }

  abbrev pub with_host : Filling H → H → Filling H
  with_host f host = record f { tables = record f.tables { host = host } }

  -- crp_amd64_fill_table(), with the entries left in a table.
  unfoldable pub fill_table :
      (left pfn_limit level : ℕ) (map_direct : Bool) (table : ℕ) → Filling H → Outcome (Filling H)
  fill_table zero pfn_limit level map_direct table f = out_of_fuel
  fill_table (suc left) pfn_limit level map_direct table f =
      let rest = λ (g : Filling H). fill_table left pfn_limit level map_direct table g in
      let next = λ (host : H).
        let g = set_entry level map_direct table f host in
        if leb 512 g.pt_idx then done g else rest g in
      if ltb f.pfn_cur pfn_limit
      then try_in (link_ram_page f.pfn_cur f.tables.va_base f.tables.host) (with_host f) next
      else done f

-- `0x1ff << (9 + 9 + 12)` is an int, whose sign goes on into the upper half of the address.
abbrev pub mask_pdp : ℕ
mask_pdp = 0xffffffffc0000000

abbrev pub mask_pd : ℕ
mask_pd = 0x3fe00000

-- The level of the next round, behind a table that has been filled to its end.
abbrev pub next_level : (level va_last va_base : ℕ) → ℕ
next_level level va_last va_base =
    if not (bit_and va_last mask_pdp == bit_and va_base mask_pdp)
    then level + 3
    else if not (bit_and va_last mask_pd == bit_and va_base mask_pd)
    then level + 2
    else level - 1

abbrev pub set_slot : (ℕ → ℕ) → (level table : ℕ) → ℕ → ℕ
set_slot pt_cur level table l = if l == level then table else pt_cur l

module _ {H : Type 0} (prm : Params) (link_ram_page : (pfn va : ℕ) → H → Outcome H)
    (alloc_pt : (va level : ℕ) (map_direct : Bool) (table idx : ℕ)
      → Tables H
      → Outcome (NewTable H))
    (xlate_table : (pfn : ℕ) → H → Result ℕ) (pfn_limit : ℕ) where
  -- The table below an entry, created if the entry is not present. The failure of a look-up changes
  -- nothing.
  unfoldable pub next_table :
      (level : ℕ) (map_direct : Bool) (table idx : ℕ) → Tables H → Outcome (NewTable H)
  next_table level map_direct table idx t =
      let pe = t.entries table idx in
      if bit_and (get_field pe_bits pe) pe_present == 0
      then alloc_pt t.va_base level map_direct table idx t
      else elim (xlate_table (table_pfn map_direct level pe) t.host) [
        | ok pt_next ↦ done (record { pt_next = pt_next; tables = t })
        | err e ↦ failed e (record { pt_next = 0; tables = t })
      ]

  -- The `for` loop at `level`, with the tables of the levels in `pt_cur`, which has no slot above 4.
  unfoldable pub aligned_rounds :
      (fuel level : ℕ) (pt_cur : ℕ → ℕ) (pfn_cur : ℕ) → Tables H → Outcome (Tables H)
  unfolding next_table
  aligned_rounds zero level pt_cur pfn_cur t = out_of_fuel
  aligned_rounds (suc fuel) level pt_cur pfn_cur t =
      let rest =
        λ (l : ℕ) (slots : ℕ → ℕ) (pfn : ℕ) (u : Tables H). aligned_rounds fuel l slots pfn u in
      let map_direct = is_direct prm.page_size level in
      let pt_idx = va_to_pe_idx t.va_base level in
      let start : Filling H = record { pfn_cur = pfn_cur; pt_idx = pt_idx; tables = t } in
      if level == 0
      then done t
      else if ltb 4 level
      then undefined
      else if map_direct
      then try_in
          (fill_table prm link_ram_page (512 - pt_idx) pfn_limit level map_direct (pt_cur level)
            start)
          (λ f. f.tables)
          (λ f.
            if leb pfn_limit f.pfn_cur
            then done f.tables
            else rest (next_level level t.va_base f.tables.va_base) pt_cur f.pfn_cur f.tables)
      else try_in (next_table level map_direct (pt_cur level) pt_idx t) (λ n. n.tables)
          (λ n. rest (level - 1) (set_slot pt_cur (level - 1) n.pt_next) pfn_cur n.tables)

  -- Four rounds lead down to a table of pages, and each such table takes one frame at least.
  unfoldable pub map_pages_aligned : (pml4 pfn_base : ℕ) → Tables H → Outcome (Tables H)
  map_pages_aligned pml4 pfn_base t =
      aligned_rounds (4 * (pfn_limit - pfn_base) + 5) 4 (set_slot (λ l. 0) 4 pml4) pfn_base t
