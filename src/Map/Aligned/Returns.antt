-- ===== src/Map/Aligned/Returns.antt =====
-- cr_amd64_map_pages_aligned() for 4K pages comes to an end, whatever the functions that it is given
-- answer and whatever the page tables hold.
use clearram.Base.{
  ℕ, zero, suc, inl, inr, done, failed, undefined, out_of_fuel, ok, err, true, false, Outcome, ◌≤◌,
  arith, ltb, Bool, Result, ◌≡◌, ◌<◌, ◌^◌, ◌+◌, Bool-cases, ltb→le, ltb→lt, leb, ◌*◌, bit_and,
  get_field, ◌-◌, ◌==◌, ◌%◌,
}
use clearram.Map.Layout.{va_to_pe_idx}
use clearram.Map.Aligned.{
  Tables, table_pfn, Filling, NewTable, try_in, set_entry, set_slot, fill_table, next_table,
  next_level, aligned_rounds, map_pages_aligned,
}
use clearram.Map.Aligned.Fill.{params_4k}
use clearram.Map.Aligned.Steps.{va_to_pe_idx-above}
use clearram.Map.Aligned.Rounds.{not_direct, upper_level, one_down}
use clearram.Map.Walk.{page_of}
use clearram.Amd64.PageEnt.{pe_bits, pe_present}

-- A function returns 0, with a state that `P` holds of, or an error.
abbrev pub Returns : {S : Type 0} → (S → Type 0) → Outcome S → Type 0
Returns P (done s) = P s
Returns P (failed e s) = Unit {0}
Returns P undefined = ⊥
Returns P out_of_fuel = ⊥

pub Returns-try_in :
    {A B : Type 0} (P : A → Type 0) (Q : B → Type 0) (m : Outcome A) (on_error : A → B)
    (k : A → Outcome B)
    → Returns P m
    → ((a : A) → P a → Returns Q (k a))
    → Returns Q (try_in m on_error k)
Returns-try_in P Q (done a) on_error k h next = next a h
Returns-try_in P Q (failed e a) on_error k h next = tt
Returns-try_in P Q undefined on_error k h next = h
Returns-try_in P Q out_of_fuel on_error k h next = h

Returns-mono :
    {S : Type 0} (P Q : S → Type 0) (m : Outcome S)
    → ((s : S) → P s → Q s)
    → Returns P m
    → Returns Q m
Returns-mono P Q (done s) f h = f s h
Returns-mono P Q (failed e s) f h = tt
Returns-mono P Q undefined f h = h
Returns-mono P Q out_of_fuel f h = h

looked_up :
    {H : Type 0} (t : Tables H) (r : Result ℕ)
    → Returns
        (λ (n : NewTable H). Unit {0})
        (elim r [
          | ok pt_next ↦ done (record { pt_next = pt_next; tables = t })
          | err e ↦ failed e (record { pt_next = 0; tables = t })
        ])
looked_up t (ok q) = tt
looked_up t (err e) = tt

next_level-bound : (va va' : ℕ) → next_level 1 va va' ≤ 4
next_level-bound va va' = ground arith

at_level : (level : ℕ) → level ≤ 4 → ltb 4 level ≡ false
at_level level h = ground arith

module _ {H : Type 0} (extra_bits pages_nx : ℕ) (link_ram_page : (pfn va : ℕ) → H → Outcome H)
    (alloc_pt : (va level : ℕ) (map_direct : Bool) (table idx : ℕ)
      → Tables H
      → Outcome (NewTable H))
    (xlate_table : (pfn : ℕ) → H → Result ℕ)
    (link_returns : (pfn va : ℕ) (h : H) → Returns (λ h'. Unit {0}) (link_ram_page pfn va h))
    (alloc_returns : (va level : ℕ) (map_direct : Bool) (table idx : ℕ) (t : Tables H)
      → Returns (λ n. Unit {0}) (alloc_pt va level map_direct table idx t))
    (pfn_limit : ℕ) (word : pfn_limit < 2 ^ 64) where
  -- A table of pages takes one frame at least, if there is one left.
  Proceeds : (f g : Filling H) → Type 0
  Proceeds f g = (f.pfn_cur ≤ g.pfn_cur) × (f.pfn_cur < pfn_limit → f.pfn_cur < g.pfn_cur)

  fill_table-Proceeds :
      (left level : ℕ) (map_direct : Bool) (table : ℕ) (f : Filling H)
      → 0 < left
      → f.pt_idx + left ≡ 512
      → Returns (Proceeds f) (
          fill_table
            (params_4k extra_bits pages_nx)
            link_ram_page
            left
            pfn_limit
            level
            map_direct
            table
            f)
  unfolding fill_table Proceeds
  fill_table-Proceeds zero level map_direct table f some size = absurd (omega arith)
  fill_table-Proceeds (suc left) level map_direct table f some size =
      elim (Bool-cases (ltb f.pfn_cur pfn_limit)) [
        | inr ended ↦
            rw ended
              (omega arith, λ more. absurd (omega (arith, more, ltb→le f.pfn_cur pfn_limit ended)))
        | inl more ↦
            let below = ltb→lt f.pfn_cur pfn_limit more in
            rw more (
              Returns-try_in (λ h. Unit {0}) (Proceeds f)
                (link_ram_page f.pfn_cur f.tables.va_base f.tables.host) _ _
                (link_returns f.pfn_cur f.tables.va_base f.tables.host)
                (λ h u. elim (Bool-cases (leb 512 (f.pt_idx + 1))) [
                  | inl full ↦ rw full (omega (arith, below), λ m. omega (arith, below))
                  | inr left_over ↦ rw left_over (
                      Returns-mono
                        (Proceeds (
                          set_entry (params_4k extra_bits pages_nx) link_ram_page level map_direct
                            table f h))
                        (Proceeds f) _
                        (λ g (on, further).
                          (omega (arith, on, below), λ m. omega (arith, on, below)))
                        (fill_table-Proceeds left level map_direct table
                          (set_entry (params_4k extra_bits pages_nx) link_ram_page level map_direct
                            table f h)
                          (ground arith) (ground arith)))
                ]))
      ]

  next_table-Returns :
      (level : ℕ) (table idx : ℕ) (t : Tables H)
      → Returns
          (λ n. Unit {0})
          (next_table
            (params_4k extra_bits pages_nx)
            link_ram_page
            alloc_pt
            xlate_table
            pfn_limit
            level
            false
            table
            idx
            t)
  unfolding next_table
  next_table-Returns level table idx t =
      elim (Bool-cases (bit_and (get_field pe_bits (t.entries table idx)) pe_present == 0)) [
        | inl none ↦ rw none (alloc_returns t.va_base level false table idx t)
        | inr some ↦
            rw some (looked_up t (xlate_table (table_pfn false level (t.entries table idx)) t.host))
      ]

  rounds_return :
      (fuel level : ℕ) (slots : ℕ → ℕ) (pfn : ℕ) (t : Tables H)
      → level ≤ 4
      → 4 * (pfn_limit - pfn) + level < fuel
      → Returns
          (λ u. Unit {0})
          (aligned_rounds
            (params_4k extra_bits pages_nx)
            link_ram_page
            alloc_pt
            xlate_table
            pfn_limit
            fuel
            level
            slots
            pfn
            t)
  unfolding aligned_rounds Proceeds
  rounds_return zero level slots pfn t high enough = absurd (omega arith)
  rounds_return (suc fuel) zero slots pfn t high enough = tt
  rounds_return (suc fuel) (suc zero) slots pfn t high enough =
      rw (va_to_pe_idx-above t.va_base 0 (omega arith)) (
        Returns-try_in
          (Proceeds (record { pfn_cur = pfn; pt_idx = page_of t.va_base % 512; tables = t })) _ _ _
          _
          (fill_table-Proceeds (512 - page_of t.va_base % 512) 1 true (slots 1) _ (omega arith)
            (omega arith))
          (λ g (on, further). elim (Bool-cases (leb pfn_limit g.pfn_cur)) [
            | inl all ↦ rw all tt
            | inr more ↦
                let left : g.pfn_cur < pfn_limit = ground (arith, more) in
                rw more (
                  rounds_return fuel (next_level 1 t.va_base g.tables.va_base) slots g.pfn_cur
                    g.tables (next_level-bound t.va_base g.tables.va_base)
                    (omega (
                      arith,
                      left,
                      further (omega (arith, left, on)),
                      next_level-bound t.va_base g.tables.va_base,
                      enough,
                    )))
          ]))
  rounds_return (suc fuel) (suc (suc level)) slots pfn t high enough =
      rw (upper_level level, one_down level, at_level (suc (suc level)) high, not_direct level)
        (Returns-try_in (λ n. Unit {0}) _ _ _ _
          (next_table-Returns (suc (suc level)) (slots (suc (suc level)))
            (va_to_pe_idx t.va_base (suc (suc level))) t)
          (λ n u.
            rounds_return fuel (suc level) (set_slot slots (suc level) n.pt_next) pfn n.tables
              (omega (arith, high)) (omega (arith, enough))))

  -- If linking a page and creating a table return, with or without an error, then so does
  -- cr_amd64_map_pages_aligned() for 4K pages, for every range of 64-bit frame numbers, address and
  -- contents of the page tables: the loop ends within its fuel, and no slot outside pt_cur is used.
  pub map_pages_aligned-Returns :
      (pml4 pfn_base : ℕ) (t : Tables H)
      → Returns
          (λ u. Unit {0})
          (map_pages_aligned
            (params_4k extra_bits pages_nx)
            link_ram_page
            alloc_pt
            xlate_table
            pfn_limit
            pml4
            pfn_base
            t)
  unfolding map_pages_aligned
  map_pages_aligned-Returns pml4 pfn_base t =
      rounds_return (4 * (pfn_limit - pfn_base) + 5) 4 (set_slot (λ l. 0) 4 pml4) pfn_base t
        (omega arith) (omega arith)
