-- ===== src/Lkm/Unmap/Clears.antt =====
-- What a page walk finds behind the unmapping of a page.
use clearram.Base.{
  ℕ, zero, suc, refl, inl, inr, ok, Result, ◌≡◌, ◌<◌, ◌≤◌, arith, ◌%◌, Bool-cases, done, false,
  if◌then◌else◌, get_field, ◌==◌, ==_iff, ◌∙◌, ==_refl, not_both, ap, ◌&&◌, both_equal, distinct,
  sym,
}
use clearram.Map.Walk.{above, absent, walk, page_of}
use clearram.Map.Walk.Tree.{Labels, IsTree, IsOpen, walk_unseen, open_place}
use clearram.Map.Aligned.{Entries, write_entry}
use clearram.Map.Aligned.Steps.{va_to_pe_idx-above}
use clearram.Lkm.Unmap.{clear_present, clear_entry, pe_pfn_base}

same_page : (p q : ℕ) → above 1 p ≡ above 1 q → p % 512 ≡ q % 512 → p ≡ q
same_page p q e e' = omega arith

module _ (table_at : ℕ → Result ℕ) (xlate_ram : ℕ → Result ℕ) (pml4 : ℕ) (lab : Labels) (va : ℕ)
    (is_open : IsOpen (page_of va)) where
  -- The entry that a page walk and the loop over the levels find.
  pub record IsFound (entries : Entries) (level q table : ℕ) : Type 0 where
    pub lowest : lab.level_of table ≡ 1
    pub place : lab.place_of table ≡ above 1 (page_of va)
    pub reached :
        (entries' : Entries)
        → ((r j : ℕ) → 2 ≤ lab.level_of r → entries' r j ≡ entries r j)
        → walk table_at entries' level q (page_of va) ≡ entries' table (page_of va % 512)
    pub cleared :
        clear_entry table_at xlate_ram pml4 level q va entries
        ≡ done (
            write_entry table
              (page_of va % 512)
              (clear_present (entries table (page_of va % 512)))
              entries)

  -- One level further up.
  IsFound-up :
      (entries : Entries) (level q r table : ℕ)
      → suc level < 4
      → lab.level_of q ≡ suc (suc level)
      → absent (entries q (above (suc level) (page_of va) % 512)) ≡ false
      → table_at (get_field pe_pfn_base (entries q (above (suc level) (page_of va) % 512))) ≡ ok r
      → IsFound entries (suc level) r table
      → IsFound entries (suc (suc level)) q table
  unfolding walk clear_entry
  IsFound-up entries level q r table high at_level some at found = record {
    lowest = found.lowest;
    place = found.place;
    reached = λ entries' same.
        rw (same q (above (suc level) (page_of va) % 512) (omega (arith, at_level)), some, at)
          (found.reached entries' same);
    cleared = rw (clear_entry, va_to_pe_idx-above va (suc level) high, at) found.cleared;
  }

  pub find :
      (entries : Entries) (level q : ℕ)
      → IsTree table_at entries lab
      → level < 4
      → lab.level_of q ≡ suc level
      → lab.place_of q ≡ above (suc level) (page_of va)
      → (walk table_at entries (suc level) q (page_of va) ≡ 0 → ⊥)
      → (table : ℕ) × IsFound entries (suc level) q table
  unfolding walk clear_entry
  find entries zero q tree high at_level at_place mapped = (
    q,
    record {
      lowest = at_level;
      place = at_place;
      reached = λ entries' same. refl;
      cleared = rw (va_to_pe_idx-above va 0 (omega arith)) refl;
    },
  )
  find entries (suc level) q tree high at_level at_place mapped =
      elim (Bool-cases (absent (entries q (above (suc level) (page_of va) % 512)))) [
        | inl none ↦ absurd (mapped (rw none refl))
        | inr some ↦
            let (r, at, below, place) =
              tree q (above (suc level) (page_of va) % 512) (omega (arith, at_level)) (omega arith)
                (open_place lab q (suc level) (page_of va) is_open at_level at_place) some in
            let mapped' : walk table_at entries (suc level) r (page_of va) ≡ 0 → ⊥ =
              rw (some, at) at mapped in
            let (table, found) =
              find entries level r tree (omega arith) (omega (arith, at_level, below))
                (omega (arith, at_place, place)) mapped' in
            (table, IsFound-up entries level q r table high at_level some at found)
      ]

  -- With the entry of one page changed, the walk to that page finds what was written, and the others
  -- what they found before.
  pub written_lem :
      (entries : Entries) (table pe : ℕ)
      → IsTree table_at entries lab
      → lab.level_of pml4 ≡ 4
      → lab.place_of pml4 ≡ 0
      → IsFound entries 4 pml4 table
      → (p : ℕ) → IsOpen p
      → walk table_at (write_entry table (page_of va % 512) pe entries) 4 pml4 p
        ≡ (if p == page_of va then pe else walk table_at entries 4 pml4 p)
  written_lem entries table pe tree root place found p op = elim (Bool-cases (p == page_of va)) [
    | inl same ↦
        rw (same, (==_iff p (page_of va)).0 same)
          (found.reached (write_entry table (page_of va % 512) pe entries) (λ r j upper.
              rw
                (not_both r table j (page_of va % 512)
                  (λ e. omega (arith, upper, found.lowest, ap lab.level_of e)))
                refl)
            ∙ rw (==_refl table, ==_refl (page_of va % 512)) refl)
    | inr other ↦ rw other (
        walk_unseen table_at table_at entries (write_entry table (page_of va % 512) pe entries) lab
          tree (λ f r e. e) p op 4 pml4 (omega arith) root (omega (arith, place, op.0))
          (λ l r at_level at_place.
            inl (elim (Bool-cases ((r == table) && (above l p % 512 == page_of va % 512))) [
              | inr differs ↦ rw differs refl
              | inl hit ↦
                  let (at, idx) = both_equal r table (above l p % 512) (page_of va % 512) hit in
                  let low : l ≡ 0 = omega (arith, at_level, ap lab.level_of at, found.lowest) in
                  absurd (
                    distinct p (page_of va) other (
                      same_page p (page_of va)
                        (ap (λ (k : ℕ). above (suc k) p) {x = 0} {y = l} (sym low)
                          ∙ sym at_place
                          ∙ ap lab.place_of at
                          ∙ found.place)
                        (ap (λ (k : ℕ). above k p % 512) {x = 0} {y = l} (sym low) ∙ idx)))
            ])))
  ]
