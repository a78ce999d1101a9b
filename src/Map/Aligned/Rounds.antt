-- ===== src/Map/Aligned/Rounds.antt =====
-- The whole loop of cr_amd64_map_pages_aligned() for 4K pages.
use clearram.Base.{
  ℕ, suc, ◌+◌, ◌/◌, ◌≡◌, ◌<◌, arith, ◌^◌, ◌⊎◌, false, ◌≤◌, ◌*◌, Ends, ltb, ◌==◌, Ends-mono, ◌-◌,
  Bool-cases, inl, ==_iff, inr, ap,
}
use clearram.Base.Bits.{bit_and_field, bit_and_high}
use clearram.Map.Aligned.{
  Tables, NewTable, next_table, aligned_rounds, next_level, is_direct, set_slot, va_incr,
}
use clearram.Map.Aligned.Fill.{params_4k, IsCanonical}
use clearram.Map.Aligned.Source.{Source}
use clearram.Map.Aligned.Route.{IsRoute, IsSound, table_at}
use clearram.Map.Aligned.Descend.{IsBelow}
use clearram.Map.Aligned.Steps.{va_to_pe_idx-above, next_table-IsBelow, Ends-try_of}
use clearram.Map.Aligned.Chunk.{IsMapped}
use clearram.Map.Walk.{above, page_of}
use clearram.Map.Walk.Tree.{Labels, IsOpen}

-- Behind the last entry of a table the loop goes on at the PML4, or at the PDP where the table of
-- the next page is below the same entry of the PML4.
pub next_level-cases :
    (va va' : ℕ)
    → IsCanonical va
    → IsCanonical va'
    → page_of va / 512 < page_of va' / 512
    → (next_level 1 va va' ≡ 4)
      ⊎ ((next_level 1 va va' ≡ 3) × (above 3 (page_of va) ≡ above 3 (page_of va')))
next_level-cases va va' canonical canonical' further = grind (
  arith,
  bit_and_high 30 34 va (omega arith),
  bit_and_high 30 34 va' (omega arith),
  bit_and_field 21 9 va,
  bit_and_field 21 9 va',
)

pub upper_level : (level : ℕ) → (suc (suc level) == 0) ≡ false
upper_level level = ground arith

pub one_down : (level : ℕ) → suc (suc level) - 1 ≡ suc level
one_down level = omega arith

pub within : (level : ℕ) → suc level < 4 → ltb 4 (suc (suc level)) ≡ false
within level h = ground arith

pub not_direct : (level : ℕ) → is_direct 1 (suc (suc level)) ≡ false
not_direct level = ground arith

-- The places of the upper tables for the page behind a table.
pub same_above_4 :
    (page page' : ℕ)
    → page < 2 ^ 36
    → page' < 2 ^ 36
    → (l : ℕ) → 4 ≤ l
    → l ≤ 4
    → above l page ≡ above l page'
same_above_4 page page' h h' l low high = let at : l ≡ 4 = omega arith in rw at (omega arith)

pub same_above_3 :
    (page page' : ℕ)
    → above 3 page ≡ above 3 page'
    → (l : ℕ) → 3 ≤ l
    → l ≤ 4
    → above l page ≡ above l page'
same_above_3 page page' same l low high = elim (Bool-cases (l == 3)) [
  | inl at ↦ rw ((==_iff l 3).0 at) same
  | inr past ↦ let at : l ≡ 4 = grind arith in rw at (ap (λ (q : ℕ). q / 512) same)
]

module _ {H : Type 0} (src : Source H) (pml4 extra_bits pages_nx : ℕ) where
  pub IsMapped-trans :
      (n m base page : ℕ) (s t u : Tables H)
      → IsMapped src pml4 extra_bits pages_nx m base page s t
      → IsMapped src pml4 extra_bits pages_nx n (base + m) (page + m) t u
      → IsMapped src pml4 extra_bits pages_nx (m + n) base page s u
  IsMapped-trans n m base page s t u first rest p op = ground (arith, first p op, rest p op)

  -- Tables behind the mapping of `n` frames from `pfn` on, which form a tree again. The address is
  -- that of the page behind them.
  abbrev pub Reaches : (n pfn : ℕ) (before after : Tables H) → Type 0
  Reaches n pfn before after =
      (lab : Labels) × IsSound src pml4 lab after
      × (after.va_base ≡ va_incr before.va_base (n * 4096))
      × IsMapped src pml4 extra_bits pages_nx n pfn (page_of before.va_base) before after

  module _ (pfn_limit : ℕ) where
    -- What the rounds lead to that start at a level with `n` frames left.
    unfoldable pub Rounds : (fuel : ℕ) → Type 0
    Rounds fuel =
        (n level : ℕ) (lab : Labels) (slots : ℕ → ℕ) (pfn : ℕ) (t : Tables H)
        → 0 < n
        → 1 ≤ level
        → level ≤ 4
        → 4 * n + level < fuel
        → pfn + n ≡ pfn_limit
        → IsCanonical t.va_base
        → ((p : ℕ) → page_of t.va_base ≤ p → p < page_of t.va_base + n → IsOpen p)
        → slots 4 ≡ pml4
        → IsSound src pml4 lab t
        → IsRoute (table_at src t) t.entries lab slots level (page_of t.va_base)
        → Ends (Reaches n pfn t) (λ u. Unit {0})
            (aligned_rounds (params_4k extra_bits pages_nx) src.link_ram_page src.alloc_pt
              src.xlate_table pfn_limit fuel level slots pfn t)

    pub Rounds-down :
        (fuel : ℕ)
        → Rounds fuel
        → (n level : ℕ) (lab : Labels) (slots : ℕ → ℕ) (pfn : ℕ) (t : Tables H) → 0 < n
        → suc (suc level) ≤ 4
        → 4 * n + suc level < fuel
        → pfn + n ≡ pfn_limit
        → IsCanonical t.va_base
        → ((p : ℕ) → page_of t.va_base ≤ p → p < page_of t.va_base + n → IsOpen p)
        → slots 4 ≡ pml4
        → IsSound src pml4 lab t
        → IsRoute (table_at src t) t.entries lab slots (suc (suc level)) (page_of t.va_base)
        → Ends
            (Reaches n pfn t)
            (λ u. Unit {0})
            (aligned_rounds
              (params_4k extra_bits pages_nx)
              src.link_ram_page
              src.alloc_pt
              src.xlate_table
              pfn_limit
              (suc fuel)
              (suc (suc level))
              slots
              pfn
              t)
    unfolding Rounds aligned_rounds next_table
    Rounds-down fuel rounds n level lab slots pfn t some high enough size canonical op root sound
          route =
        rw
          (
            upper_level level,
            one_down level,
            within level high,
            not_direct level,
            va_to_pe_idx-above t.va_base (suc level) high,
          )
          (Ends-try_of
            (λ below.
              (lab' : Labels) × IsBelow src pml4 lab' slots (suc level) (page_of t.va_base) t below)
            _ _ _ _ _
            (next_table-IsBelow src pml4 extra_bits pages_nx pfn_limit lab slots (suc level)
              (page_of t.va_base) t (omega arith) high
              (op (page_of t.va_base) (omega arith) (omega arith)) sound route)
            (λ below. tt) (λ below (lab', is_below). below_rounds lab' below is_below))
      where
        below_rounds :
            (lab' : Labels) (below : NewTable H)
            → IsBelow src pml4 lab' slots (suc level) (page_of t.va_base) t below
            → Ends
                (Reaches n pfn t)
                (λ u. Unit {0})
                (aligned_rounds
                  (params_4k extra_bits pages_nx)
                  src.link_ram_page
                  src.alloc_pt
                  src.xlate_table
                  pfn_limit
                  fuel
                  (suc level)
                  (set_slot slots (suc level) below.pt_next)
                  pfn
                  below.tables)
        below_rounds lab' below b =
            Ends-mono (Reaches n pfn below.tables) (λ u. Unit {0}) _ _ _
              (λ u (lab'', sound', va, mapped). (
                lab'',
                sound',
                rw b.va at va,
                λ p op'. rw (b.va, b.unseen p op') at (mapped p op'),
              ))
              (λ u v. tt)
              (rounds n (suc level) lab' (set_slot slots (suc level) below.pt_next) pfn below.tables
                some (omega arith) (omega arith) enough size (rw b.va canonical) (rw b.va op)
                (ground (arith, root)) b.sound (rw b.va b.route))
