-- ===== src/Map/Aligned/Maps.antt =====
-- cr_amd64_map_pages_aligned() for 4K pages as a change of what the page tables map.
use clearram.Base.{ℕ, refl, zero, suc, ◌<◌, ◌^◌, arith, ◌≤◌, ◌+◌, ◌-◌, Ends, ◌*◌, ◌≡◌}
use clearram.Map.Aligned.{Tables, map_pages_aligned, set_slot}
use clearram.Map.Aligned.Fill.{params_4k, IsCanonical}
use clearram.Map.Aligned.Source.{Source}
use clearram.Map.Aligned.Route.{IsSound}
use clearram.Map.Aligned.Rounds.{Rounds, Reaches, Rounds-down}
use clearram.Map.Aligned.FillRound.{fill_round}
use clearram.Map.Walk.{page_of}
use clearram.Map.Walk.Tree.{Labels, IsOpen}

module _ {H : Type 0} (src : Source H) (pml4 extra_bits pages_nx pfn_limit : ℕ)
    (word : pfn_limit < 2 ^ 64) where
  all-Rounds : (fuel : ℕ) → Rounds src pml4 extra_bits pages_nx pfn_limit fuel
  unfolding Rounds
  all-Rounds zero n level lab slots pfn t some low high enough size canonical op root sound route =
      absurd (omega arith)
  all-Rounds (suc fuel) n zero lab slots pfn t some low high enough size canonical op root sound
        route =
      absurd (omega arith)
  all-Rounds (suc fuel) n (suc zero) lab slots pfn t some low high enough size canonical op root
        sound route =
      fill_round src pml4 extra_bits pages_nx pfn_limit word n lab slots pfn t some size canonical
        op root sound route fuel (all-Rounds fuel) enough
  all-Rounds (suc fuel) n (suc (suc level)) lab slots pfn t some low high enough size canonical op
        root sound route =
      Rounds-down src pml4 extra_bits pages_nx pfn_limit fuel (all-Rounds fuel) n level lab slots
        pfn t some high (omega arith) size canonical op root sound route

  -- On page tables that form a tree below the PML4, with functions that keep the laws of `Source`, a
  -- call of cr_amd64_map_pages_aligned() for 4K pages and a range of frames that is not empty ends
  -- within its fuel, and fails at most with -ENOMEM.
  -- Where it returns 0, a page walk leads from each of the pages from `*va_base` on to the entry that
  -- cr_amd64_init_page_ent() makes of the frame that belongs to it and the bits that were given, and from every other page to what it led to before.
  -- The tables are a tree again. The pages of the range, and the others that are looked at, lie
  -- within the 48-bit address space, outside the part of the PML4 that maps the tables themselves.
  pub map_pages_aligned-Reaches :
      (lab : Labels) (pfn_base : ℕ) (t : Tables H)
      → pfn_base < pfn_limit
      → IsCanonical t.va_base
      → ((p : ℕ)
          → page_of t.va_base ≤ p
          → p < page_of t.va_base + (pfn_limit - pfn_base)
          → IsOpen p)
      → IsSound src pml4 lab t
      → Ends
          (Reaches src pml4 extra_bits pages_nx (pfn_limit - pfn_base) pfn_base t)
          (λ u. Unit {0})
          (map_pages_aligned
            (params_4k extra_bits pages_nx)
            src.link_ram_page
            src.alloc_pt
            src.xlate_table
            pfn_limit
            pml4
            pfn_base
            t)
  unfolding map_pages_aligned Rounds
  map_pages_aligned-Reaches lab pfn_base t some canonical op sound =
      let last = op (page_of t.va_base) (omega arith) (omega (arith, some)) in
      all-Rounds (4 * (pfn_limit - pfn_base) + 5) (pfn_limit - pfn_base) 4 lab
        (set_slot (λ l. 0) 4 pml4) pfn_base t (omega arith) (omega arith) (omega arith)
        (omega arith) (omega arith) canonical op refl sound
        (record {
          at_level = (λ l low high. let at : l ≡ 4 = omega arith in rw at sound.root_level);
          at_place = (λ l low high.
              let at : l ≡ 4 = omega arith in rw at (omega (arith, sound.root_place, last.0)));
          present = λ l low high. absurd (omega arith);
          leads = λ l low high. absurd (omega arith);
        })
