-- ===== src/Map/Clone.antt =====
-- cr_amd64_map_pages_clone4K() of subr_map.c. cr_host_virt_to_phys() is a parameter, and so are the
-- functions that the C code takes as pointers.
pub mod Copies
pub mod Keeps
use clearram.Base.{
  ℕ, zero, suc, refl, some, none, Option, Outcome, Bool, Result, done, page_size_bytes, try, add64,
}
use clearram.Map.Layout.{ps_4k, va_incr}
use clearram.Map.Aligned.{Tables, NewTable, Params, try_in, map_pages_aligned}

-- The state behind the call, and `*pva_dst` where there is one.
pub record Cloned (H : Type 0) : Type 0 where
  pub tables : Tables H
  pub pva_dst : Option ℕ

module _ {H : Type 0} (extra_bits pages_nx : ℕ) (link_ram_page : (pfn va : ℕ) → H → Outcome H)
    (alloc_pt : (va level : ℕ) (map_direct : Bool) (table idx : ℕ)
      → Tables H
      → Outcome (NewTable H))
    (xlate_table : (pfn : ℕ) → H → Result ℕ) (virt_to_phys : ℕ → ℕ) (pml4 : ℕ) where
  -- The loop, with the pages left. The address in the state is `va_dst`.
  unfoldable pub clone_pages : (left va_cur : ℕ) → Tables H → Outcome (Tables H)
  clone_pages zero va_cur t = done t
  clone_pages (suc left) va_cur t =
      let pfn_block_base = virt_to_phys va_cur in
      let params : Params = record {
        extra_bits = extra_bits;
        pages_nx = pages_nx;
        page_size = ps_4k;
      } in
      let rest = λ (u : Tables H). clone_pages left (va_incr va_cur page_size_bytes) u in
      try
        (map_pages_aligned params link_ram_page alloc_pt xlate_table (add64 pfn_block_base 1) pml4
          pfn_block_base t)
        rest

  unfoldable pub map_pages_clone4k :
      (va_src : ℕ) (pva_dst : Option ℕ) (npages : ℕ) → Tables H → Outcome (Cloned H)
  map_pages_clone4k va_src pva_dst npages t =
      let va_dst : ℕ = elim pva_dst [ some va ↦ va | none ↦ va_src ] in
      let outside : Tables H → Tables H = λ u. record u { va_base = t.va_base } in
      try_in (clone_pages npages va_src (record t { va_base = va_dst }))
        (λ u. record { tables = outside u; pva_dst = pva_dst })
        (λ u. done (record {
          tables = outside u;
          pva_dst = elim pva_dst [ some va ↦ some u.va_base | none ↦ none ];
        }))
