-- ===== src/Map/Aligned/Keeps.antt =====
-- What cr_amd64_map_pages_aligned() for 4K pages keeps of the host's state: all that linking its pages
-- and creating tables keep.
use clearram.Base.{
  undefined, out_of_fuel, ℕ, zero, suc, Outcome, Bool, WhereDone, Result, done, failed, ◌<◌, ◌^◌,
  ◌+◌, ◌-◌, Bool-cases, ok, false, ◌≡◌, arith, bit_and, ltb, ◌*◌, true, err, get_field, leb, inr,
  inl, ◌==◌, WhereDone-mono, ltb→lt, add64,
}
use clearram.Map.Layout.{va_incr, va_to_pe_idx}
use clearram.Map.Aligned.{
  Tables, NewTable, Filling, try_in, fill_table, next_table, aligned_rounds, map_pages_aligned,
  set_slot, next_level, table_pfn,
}
use clearram.Map.Aligned.Fill.{params_4k}
use clearram.Map.Aligned.Rounds.{not_direct, upper_level, one_down}
use clearram.Amd64.PageEnt.{pe_bits, pe_present}

pub WhereDone-try_in :
    {A B : Type 0} (P : A → Type 0) (Q : B → Type 0) (m : Outcome A) (on_error : A → B)
    (k : A → Outcome B)
    → WhereDone P m
    → ((a : A) → P a → WhereDone Q (k a))
    → WhereDone Q (try_in m on_error k)
WhereDone-try_in P Q (done a) on_error k h next = next a h
WhereDone-try_in P Q (failed e a) on_error k h next = tt
WhereDone-try_in P Q undefined on_error k h next = tt
WhereDone-try_in P Q out_of_fuel on_error k h next = tt

module _ {H : Type 0} (extra_bits pages_nx : ℕ) (link_ram_page : (pfn va : ℕ) → H → Outcome H)
    (alloc_pt : (va level : ℕ) (map_direct : Bool) (table idx : ℕ)
      → Tables H
      → Outcome (NewTable H))
    (xlate_table : (pfn : ℕ) → H → Result ℕ) (P : H → Type 0) (At : (pfn va : ℕ) → Type 0)
    (pfn_limit : ℕ) (word : pfn_limit < 2 ^ 64) where
  -- Linking a page that is at its address, and the page behind it.
  abbrev pub LinkKeeps : Type 0
  LinkKeeps =
      (pfn va : ℕ) (h : H)
      → pfn < pfn_limit
      → At pfn va
      → P h
      → WhereDone P (link_ram_page pfn va h) × At (pfn + 1) (va_incr va 4096)

  abbrev pub AllocKeeps : Type 0
  AllocKeeps =
      (va level table idx : ℕ) (t : Tables H)
      → P t.host
      → WhereDone (λ n. P n.tables.host × (n.tables.va_base ≡ t.va_base))
          (alloc_pt va level false table idx t)

  abbrev Keeps : (pfn : ℕ) → Tables H → Type 0
  Keeps pfn t = P t.host × At pfn t.va_base

  module _ (link_keeps : LinkKeeps) (alloc_keeps : AllocKeeps) where
    fill_table-Keeps :
        (left level : ℕ) (direct : Bool) (table : ℕ) (f : Filling H)
        → Keeps f.pfn_cur f.tables
        → WhereDone
            (λ g. Keeps g.pfn_cur g.tables)
            (fill_table
              (params_4k extra_bits pages_nx)
              link_ram_page
              left
              pfn_limit
              level
              direct
              table
              f)
    unfolding fill_table
    fill_table-Keeps zero level direct table f kept = tt
    fill_table-Keeps (suc left) level direct table f kept =
        elim (Bool-cases (ltb f.pfn_cur pfn_limit)) [
          | inr ended ↦ rw ended kept
          | inl more ↦
              let below = ltb→lt f.pfn_cur pfn_limit more in
              let (linked, behind) =
                link_keeps f.pfn_cur f.tables.va_base f.tables.host below kept.1 kept.0 in
              let next : add64 f.pfn_cur 1 ≡ f.pfn_cur + 1 = omega (arith, below, word) in
              rw more (
                WhereDone-try_in P _ (link_ram_page f.pfn_cur f.tables.va_base f.tables.host) _ _
                  linked
                  (λ h held. elim (Bool-cases (leb 512 (f.pt_idx + 1))) [
                    | inl full ↦ rw full (held, rw next behind)
                    | inr left_over ↦
                        rw left_over
                          (fill_table-Keeps left level direct table _ (held, rw next behind))
                  ]))
        ]

    looked_up :
        (pfn : ℕ) (t : Tables H) (r : Result ℕ)
        → Keeps pfn t
        → WhereDone
            (λ (n : NewTable H). Keeps pfn n.tables)
            (elim r [
              | ok pt_next ↦ done (record { pt_next = pt_next; tables = t })
              | err e ↦ failed e (record { pt_next = 0; tables = t })
            ])
    looked_up pfn t (ok q) kept = kept
    looked_up pfn t (err e) kept = tt

    next_table-Keeps :
        (pfn level table idx : ℕ) (t : Tables H)
        → Keeps pfn t
        → WhereDone
            (λ (n : NewTable H). Keeps pfn n.tables)
            (next_table
              (params_4k extra_bits pages_nx)
              link_ram_page
              alloc_pt
              xlate_table
              pfn_limit
              level
              false
              table
              idx
              t)
    unfolding next_table
    next_table-Keeps pfn level table idx t kept =
        elim (Bool-cases (bit_and (get_field pe_bits (t.entries table idx)) pe_present == 0)) [
          | inl none ↦ rw none (
              WhereDone-mono (λ n. P n.tables.host × (n.tables.va_base ≡ t.va_base))
                (λ n. Keeps pfn n.tables) (alloc_pt t.va_base level false table idx t)
                (λ n (held, va). (held, rw va kept.1))
                (alloc_keeps t.va_base level table idx t kept.0))
          | inr some ↦ rw some (
              looked_up pfn t (xlate_table (table_pfn false level (t.entries table idx)) t.host)
                kept)
        ]

    rounds_keep :
        (fuel level : ℕ) (slots : ℕ → ℕ) (pfn : ℕ) (t : Tables H)
        → Keeps pfn t
        → WhereDone
            (λ u. P u.host)
            (aligned_rounds
              (params_4k extra_bits pages_nx)
              link_ram_page
              alloc_pt
              xlate_table
              pfn_limit
              fuel
              level
              slots
              pfn
              t)
    unfolding aligned_rounds
    rounds_keep zero level slots pfn t kept = tt
    rounds_keep (suc fuel) zero slots pfn t kept = kept.0
    rounds_keep (suc fuel) (suc zero) slots pfn t kept =
        WhereDone-try_in (λ g. Keeps g.pfn_cur g.tables) _ _ _ _
          (fill_table-Keeps (512 - va_to_pe_idx t.va_base 1) 1 true (slots 1) _ kept)
          (λ g kept'. elim (Bool-cases (leb pfn_limit g.pfn_cur)) [
            | inl all ↦ rw all kept'.0
            | inr more ↦ rw more (
                rounds_keep fuel (next_level 1 t.va_base g.tables.va_base) slots g.pfn_cur g.tables
                  kept')
          ])
    rounds_keep (suc fuel) (suc (suc level)) slots pfn t kept =
        elim (Bool-cases (ltb 4 (suc (suc level)))) [
          | inl past ↦ rw (upper_level level, past) tt
          | inr within ↦
              rw (upper_level level, one_down level, within, not_direct level)
                (WhereDone-try_in (λ n. Keeps pfn n.tables) _ _ _ _
                  (next_table-Keeps pfn (suc (suc level)) (slots (suc (suc level)))
                    (va_to_pe_idx t.va_base (suc (suc level))) t kept)
                  (λ n kept'.
                    rounds_keep fuel (suc level) (set_slot slots (suc level) n.pt_next) pfn n.tables
                      kept'))
        ]

    -- Where cr_amd64_map_pages_aligned() for 4K pages returns 0, it has kept what linking the pages of
    -- its range and creating tables keep, whatever the page tables hold.
    pub map_pages_aligned-kept :
        (pml4 pfn_base : ℕ) (t : Tables H)
        → At pfn_base t.va_base
        → P t.host
        → WhereDone
            (λ u. P u.host)
            (map_pages_aligned
              (params_4k extra_bits pages_nx)
              link_ram_page
              alloc_pt
              xlate_table
              pfn_limit
              pml4
              pfn_base
              t)
    unfolding map_pages_aligned
    map_pages_aligned-kept pml4 pfn_base t at held =
        rounds_keep (4 * (pfn_limit - pfn_base) + 5) 4 (set_slot (λ l. 0) 4 pml4) pfn_base t
          (held, at)
