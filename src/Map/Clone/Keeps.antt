-- ===== src/Map/Clone/Keeps.antt =====
-- What the cloning of pages keeps of the host's state.
use clearram.Base.{
  ℕ, zero, suc, WhereDone, Outcome, Bool, Result, ◌≡◌, false, Option, WhereDone-try, add64, arith,
}
use clearram.Map.Layout.{va_incr}
use clearram.Map.Aligned.{Tables, NewTable}
use clearram.Map.Aligned.Keeps.{map_pages_aligned-kept, WhereDone-try_in}
use clearram.Map.Clone.{clone_pages, map_pages_clone4k}

module _ {H : Type 0} (extra_bits pages_nx : ℕ) (link_ram_page : (pfn va : ℕ) → H → Outcome H)
    (alloc_pt : (va level : ℕ) (map_direct : Bool) (table idx : ℕ)
      → Tables H
      → Outcome (NewTable H))
    (xlate_table : (pfn : ℕ) → H → Result ℕ) (P : H → Type 0)
    (link_keeps : (pfn va : ℕ) (h : H) → P h → WhereDone P (link_ram_page pfn va h))
    (alloc_keeps : (va level table idx : ℕ) (t : Tables H)
      → P t.host
      → WhereDone
          (λ n. P n.tables.host × (n.tables.va_base ≡ t.va_base))
          (alloc_pt va level false table idx t))
    (virt_to_phys : ℕ → ℕ) (pml4 : ℕ) where
  clone_pages-kept :
      (left va_cur : ℕ) (t : Tables H)
      → P t.host
      → WhereDone
          (λ u. P u.host)
          (clone_pages extra_bits pages_nx link_ram_page alloc_pt xlate_table virt_to_phys pml4 left
            va_cur t)
  unfolding clone_pages
  clone_pages-kept zero va_cur t held = held
  clone_pages-kept (suc left) va_cur t held =
      WhereDone-try (λ u. P u.host) (λ u. P u.host) _ _
        (map_pages_aligned-kept extra_bits pages_nx link_ram_page alloc_pt xlate_table P
          (λ pfn va. Unit {0}) (add64 (virt_to_phys va_cur) 1) (omega arith)
          (λ pfn va h below at kept. (link_keeps pfn va h kept, tt)) alloc_keeps pml4
          (virt_to_phys va_cur) t tt held)
        (λ u kept. clone_pages-kept left (va_incr va_cur 4096) u kept)

  -- Where cr_amd64_map_pages_clone4K() returns 0, it has kept what linking pages and creating tables
  -- keep.
  pub map_pages_clone4k-kept :
      (va_src : ℕ) (pva_dst : Option ℕ) (npages : ℕ) (t : Tables H)
      → P t.host
      → WhereDone
          (λ c. P c.tables.host)
          (map_pages_clone4k extra_bits pages_nx link_ram_page alloc_pt xlate_table virt_to_phys
            pml4 va_src pva_dst npages t)
  unfolding map_pages_clone4k
  map_pages_clone4k-kept va_src pva_dst npages t held =
      WhereDone-try_in (λ u. P u.host) (λ c. P c.tables.host) _ _ _
        (clone_pages-kept npages va_src _ held) (λ u kept. kept)
