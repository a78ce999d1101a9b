-- ===== src/Map/Aligned/FillRound.antt =====
-- A round of cr_amd64_map_pages_aligned() for 4K pages that fills a table of pages, and what is
-- left of the frames behind it.
use clearram.Base.{
  ℕ, suc, ◌+◌, ◌≡◌, ◌<◌, arith, ◌^◌, ◌≤◌, ◌*◌, Ends, Ends-mono, ◌-◌, min, Bool-cases, if◌then◌else◌,
  ◌%◌, inl, true, leb, inr, done, ap, ◌∙◌,
}
use clearram.Map.Aligned.{Tables, aligned_rounds, next_level, Filling, fill_table, va_incr}
use clearram.Map.Aligned.Fill.{
  params_4k, IsCanonical, IsFilled, fill_table-IsFilled, va_incr-IsCanonical, va_incr_twice,
}
use clearram.Map.Aligned.Source.{Source, Grows, Grows-trans, Grows-refl}
use clearram.Map.Aligned.Route.{IsRoute, IsSound, table_at, IsRoute-move}
use clearram.Map.Aligned.Steps.{
  va_to_pe_idx-above, Ends-try_of, Ends-both, fill_table-host, page_of-va_incr,
}
use clearram.Map.Aligned.Chunk.{IsMapped, chunk-IsSound, chunk-IsRoute, chunk-IsMapped}
use clearram.Map.Walk.{above, page_of}
use clearram.Map.Walk.Tree.{Labels, IsOpen}
use clearram.Map.Aligned.Rounds.{
  Rounds, Reaches, IsMapped-trans, next_level-cases, same_above_3, same_above_4,
}

module _ {H : Type 0} (src : Source H) (pml4 extra_bits pages_nx pfn_limit : ℕ)
    (word : pfn_limit < 2 ^ 64) where
  -- A table of pages that has been filled, with `m` of the frames.
  module _ (n : ℕ) (lab : Labels) (slots : ℕ → ℕ) (pfn : ℕ) (t : Tables H) (some : 0 < n)
      (size : pfn + n ≡ pfn_limit) (canonical : IsCanonical t.va_base)
      (op : (p : ℕ) → page_of t.va_base ≤ p → p < page_of t.va_base + n → IsOpen p)
      (root : slots 4 ≡ pml4) (sound : IsSound src pml4 lab t)
      (route : IsRoute (table_at src t) t.entries lab slots 1 (page_of t.va_base)) where
    abbrev start : Filling H
    start = record { pfn_cur = pfn; pt_idx = page_of t.va_base % 512; tables = t }

    abbrev count : ℕ
    count = min (512 - page_of t.va_base % 512) (pfn_limit - pfn)

    KeepsHost : H → Type 0
    KeepsHost h = src.IsValid h × Grows src.xlate_table src.Used t.host h

    AfterFill : Filling H → Type 0
    AfterFill g =
        IsFilled extra_bits pages_nx 1 true (slots 1) count start g × KeepsHost g.tables.host

    fill-Ends :
        Ends AfterFill
          (λ g. Unit {0})
          (fill_table
            (params_4k extra_bits pages_nx)
            src.link_ram_page
            (512 - page_of t.va_base % 512)
            pfn_limit
            1
            true
            (slots 1)
            start)
    unfolding AfterFill KeepsHost
    fill-Ends =
        Ends-both _ _ _ _
          (Ends-mono (IsFilled extra_bits pages_nx 1 true (slots 1) count start)
            (λ g. (m : ℕ) × (m < count) × IsFilled extra_bits pages_nx 1 true (slots 1) m start g) _
            _
            (fill_table (params_4k extra_bits pages_nx) src.link_ram_page
              (512 - page_of t.va_base % 512) pfn_limit 1 true (slots 1) start)
            (λ g filled. filled) (λ g u. tt)
            (fill_table-IsFilled extra_bits pages_nx src.link_ram_page src.link_total
              (512 - page_of t.va_base % 512) pfn_limit 1 true (slots 1) start canonical word
              (omega arith) (omega arith)))
          (fill_table-host src pml4 extra_bits pages_nx pfn_limit KeepsHost
            (λ pfn' va h (valid, grows).
              Ends-mono (λ h'. src.IsValid h' × Grows src.xlate_table src.Used h h')
                (λ h'. Unit {0}) KeepsHost (λ h'. Unit {0}) (src.link_ram_page pfn' va h)
                (λ h' (valid', grows'). (valid', Grows-trans t.host h h' grows grows')) (λ h' u. tt)
                (src.link_ends pfn' va h valid))
            (512 - page_of t.va_base % 512) 1 true (slots 1) start (omega arith) (omega arith)
            (sound.valid, Grows-refl t.host))

    -- What has been filled, in the terms of the whole mapping.
    module _ (g : Filling H) (after : AfterFill g) where
      fits_table : page_of t.va_base % 512 + count ≤ 512
      fits_table = omega arith

      filled_pfn : g.pfn_cur ≡ pfn + count
      unfolding AfterFill
      filled_pfn = after.0.pfn

      filled_va : g.tables.va_base ≡ va_incr t.va_base (count * 4096)
      unfolding AfterFill
      filled_va = after.0.va

      filled-IsSound : IsSound src pml4 lab g.tables
      unfolding AfterFill KeepsHost
      filled-IsSound =
          chunk-IsSound src pml4 extra_bits pages_nx lab slots (page_of t.va_base) t sound root
            route pfn count fits_table g after.1.0 after.1.1 after.0

      filled-IsMapped :
          IsMapped src pml4 extra_bits pages_nx count pfn (page_of t.va_base) t g.tables
      unfolding AfterFill KeepsHost
      filled-IsMapped =
          chunk-IsMapped src pml4 extra_bits pages_nx lab slots (page_of t.va_base) t sound root
            route pfn count fits_table g after.1.0 after.1.1 after.0

      filled-IsRoute :
          IsRoute (table_at src g.tables) g.tables.entries lab slots 1 (page_of t.va_base)
      unfolding AfterFill KeepsHost
      filled-IsRoute =
          chunk-IsRoute src pml4 extra_bits pages_nx lab slots (page_of t.va_base) t sound root
            route pfn count fits_table g after.1.0 after.1.1 after.0 1 (omega arith) (omega arith)
            route

      module _ (fuel : ℕ) (rounds : Rounds src pml4 extra_bits pages_nx pfn_limit fuel)
          (enough : 4 * n < fuel) (short : count < n) where
        page_moved : page_of g.tables.va_base ≡ page_of t.va_base + count
        page_moved =
            let last = op (page_of t.va_base + (n - 1)) (omega arith) (omega arith) in
            ap page_of filled_va ∙ page_of-va_incr t.va_base count ∙ omega (arith, last.0, short)

        rest_at :
            (level : ℕ)
            → 3 ≤ level
            → level ≤ 4
            → ((l : ℕ)
                → level ≤ l
                → l ≤ 4
                → above l (page_of t.va_base) ≡ above l (page_of g.tables.va_base))
            → Ends
                (Reaches src pml4 extra_bits pages_nx n pfn t)
                (λ u. Unit {0})
                (aligned_rounds
                  (params_4k extra_bits pages_nx)
                  src.link_ram_page
                  src.alloc_pt
                  src.xlate_table
                  pfn_limit
                  fuel
                  level
                  slots
                  g.pfn_cur
                  g.tables)
        unfolding Rounds
        rest_at level low high same =
            Ends-mono (Reaches src pml4 extra_bits pages_nx (n - count) g.pfn_cur g.tables)
              (λ u. Unit {0}) _ _ _
              (λ u (lab', sound', va, rest). (lab', sound', va ∙ va_joined, joined u rest))
              (λ u v. tt)
              (rounds (n - count) level lab slots g.pfn_cur g.tables (omega (arith, short))
                (omega (arith, low)) high (omega arith) (omega (arith, filled_pfn, short))
                canonical' op' root filled-IsSound
                (IsRoute-move (table_at src g.tables) g.tables.entries lab slots 1 level
                  (page_of t.va_base) (page_of g.tables.va_base) filled-IsRoute (omega (arith, low))
                  same))
          where
            canonical' : IsCanonical g.tables.va_base
            canonical' = rw filled_va (va_incr-IsCanonical t.va_base (count * 4096))

            op' :
                (p : ℕ)
                → page_of g.tables.va_base ≤ p
                → p < page_of g.tables.va_base + (n - count)
                → IsOpen p
            op' p low high = op p (omega (arith, page_moved)) (omega (arith, page_moved))

            va_joined : va_incr g.tables.va_base ((n - count) * 4096) ≡ va_incr t.va_base (n * 4096)
            va_joined =
                ap (λ (v : ℕ). va_incr v ((n - count) * 4096)) filled_va
                ∙ va_incr_twice t.va_base (count * 4096) ((n - count) * 4096)
                ∙ ap (va_incr t.va_base) (omega (arith, short))

            joined :
                (u : Tables H)
                → IsMapped src pml4 extra_bits pages_nx
                    (n - count)
                    g.pfn_cur
                    (page_of g.tables.va_base)
                    g.tables
                    u
                → IsMapped src pml4 extra_bits pages_nx n pfn (page_of t.va_base) t u
            joined u rest =
                let total : count + (n - count) ≡ n = omega (arith, short) in
                let rest' = rw (filled_pfn, page_moved) at rest in
                rw total at (
                  IsMapped-trans src pml4 extra_bits pages_nx (n - count) count pfn
                    (page_of t.va_base) t g.tables u filled-IsMapped rest')

        rest_next :
            Ends
              (Reaches src pml4 extra_bits pages_nx n pfn t)
              (λ u. Unit {0})
              (aligned_rounds
                (params_4k extra_bits pages_nx)
                src.link_ram_page
                src.alloc_pt
                src.xlate_table
                pfn_limit
                fuel
                (next_level 1 t.va_base g.tables.va_base)
                slots
                g.pfn_cur
                g.tables)
        rest_next =
            let full : page_of t.va_base % 512 + count ≡ 512 = omega (arith, short, size) in
            let canonical' : IsCanonical g.tables.va_base =
              rw filled_va (va_incr-IsCanonical t.va_base (count * 4096)) in
            elim (next_level-cases t.va_base g.tables.va_base canonical canonical'
              (omega (arith, page_moved, full))) [
                | inl top ↦ rw top (
                    rest_at 4 (omega arith) (omega arith) (
                      same_above_4 (page_of t.va_base) (page_of g.tables.va_base) (omega arith)
                        (omega arith)))
                | inr (lower, same) ↦ rw lower (
                    rest_at 3 (omega arith) (omega arith)
                      (same_above_3 (page_of t.va_base) (page_of g.tables.va_base) same))
              ]

      -- The end of the round.
      round_end :
          (fuel : ℕ)
          → Rounds src pml4 extra_bits pages_nx pfn_limit fuel
          → 4 * n < fuel
          → Ends
              (Reaches src pml4 extra_bits pages_nx n pfn t)
              (λ u. Unit {0})
              (if leb pfn_limit g.pfn_cur
                then done g.tables
                else aligned_rounds
                    (params_4k extra_bits pages_nx)
                    src.link_ram_page
                    src.alloc_pt
                    src.xlate_table
                    pfn_limit
                    fuel
                    (next_level 1 t.va_base g.tables.va_base)
                    slots
                    g.pfn_cur
                    g.tables)
      round_end fuel rounds enough = elim (Bool-cases (leb pfn_limit g.pfn_cur)) [
        | inl all ↦
            let whole : count ≡ n = grind (arith, filled_pfn) in
            rw all (lab, filled-IsSound, rw whole at filled_va, rw whole at filled-IsMapped)
        | inr more ↦ rw more (rest_next fuel rounds enough (grind (arith, filled_pfn)))
      ]

    pub fill_round :
        (fuel : ℕ)
        → Rounds src pml4 extra_bits pages_nx pfn_limit fuel
        → 4 * n + 1 < suc fuel
        → Ends
            (Reaches src pml4 extra_bits pages_nx n pfn t)
            (λ u. Unit {0})
            (aligned_rounds
              (params_4k extra_bits pages_nx)
              src.link_ram_page
              src.alloc_pt
              src.xlate_table
              pfn_limit
              (suc fuel)
              1
              slots
              pfn
              t)
    unfolding aligned_rounds
    fill_round fuel rounds enough = rw (va_to_pe_idx-above t.va_base 0 (omega arith)) (
        Ends-try_of AfterFill _ _ _ _ _ fill-Ends (λ g. tt)
          (λ g after. round_end g after fuel rounds (omega (arith, enough))))
