-- ===== src/Host/AllocPt/Allocates.antt =====
-- cr_host_map_alloc_pt() and cr_host_map_link_ram_page() keep the laws that
-- cr_amd64_map_pages_aligned() relies on.
use clearram.Base.{
  ℕ, refl, inl, inr, [], ◌∷◌, ◌<◌, Ends, ◌^◌, arith, ◌≡◌, false, bit_or, Ends-mono, true, ◌==◌,
  ==_refl, Bool-cases, ◌∙◌, sym, ==_iff, ◌%◌, different,
}
use clearram.Base.Bits.{bit_and_low, bit_or_step}
use clearram.Amd64.PageEnt.{init_page_ent}
use clearram.Amd64.PageEnt.Laws.{init_page_ent-fields}
use clearram.Host.Kernel.{Supply, vmalloc}
use clearram.Host.Link.{HostState, link_page}
use clearram.Host.Link.Leaves.{page_table, flag, same_key, Kind}
use clearram.Host.Link.View.{IsLinked, link_page-IsLinked, SameElsewhere}
use clearram.Host.AllocPt.{write_entry, zero_table}
use clearram.Host.AllocPt.Supplied.{link_page-closed}
use clearram.Host.AllocPt.Lawful.{
  IsIn, xlate_table, IsSeparate, IsHost, IsTaken, Used, xlate_ok, view_ok, IsTaken-closed,
}
use clearram.Map.Walk.{absent}
use clearram.Map.Aligned.{Tables, NewTable}
use clearram.Map.Aligned.Source.{Grows, IsAllocated}
use clearram.Map.Aligned.Steps.{Ends-both}

entry_present :
    (pfn extra nx level : ℕ)
    → extra < 2 ^ 9
    → nx < 2
    → pfn < 2 ^ 40
    → absent (init_page_ent pfn extra nx level false) ≡ false
entry_present pfn extra nx level h k p =
    rw ((init_page_ent-fields pfn extra nx level false refl h k p).0)
      (ground (arith, bit_and_low 1 (bit_or 1 extra), bit_or_step 1 extra))

same_frame :
    (a b f : ℕ) → a < 2 ^ 36 → b < 2 ^ 36 → same_key a f ≡ true → same_key b f ≡ true → a ≡ b
same_frame a b f h k e e' = ground arith

module _ (virt_to_phys : ℕ → ℕ) where
  frame_small :
      (s : Supply) (q : ℕ) → IsSeparate virt_to_phys s → IsIn q s → 0 < q → virt_to_phys q < 2 ^ 36
  unfolding IsSeparate
  frame_small [] q h at pos = absurd at
  frame_small (p ∷ s) q h (inl same) pos = rw same (h.0 (rw (← same) pos)).0
  frame_small (p ∷ s) q h (inr at) pos = frame_small s q h.1 at pos

  -- The page that vmalloc() gives.
  pub record IsGot (s : Supply) : Type 0 where
    pub small : virt_to_phys (vmalloc s).p < 2 ^ 36
    pub apart :
        (q : ℕ)
        → 0 < q
        → IsIn q (vmalloc s).supply
        → virt_to_phys (vmalloc s).p ≡ virt_to_phys q
        → ⊥
    pub was : IsIn (vmalloc s).p s
    pub rest : IsTaken virt_to_phys s (vmalloc s).supply

  pub vmalloc-IsGot : (s : Supply) → IsSeparate virt_to_phys s → 0 < (vmalloc s).p → IsGot s
  unfolding IsSeparate
  vmalloc-IsGot [] h pos = absurd (omega arith)
  vmalloc-IsGot (p ∷ s) h pos = record {
    small = (h.0 pos).0;
    apart = (h.0 pos).1;
    was = inl refl;
    rest = record { separate = h.1; among = λ q at. inr at };
  }

  link_page-IsTaken :
      (type pfn va : ℕ) (st : HostState)
      → IsSeparate virt_to_phys st.supply
      → Ends
          (λ h. IsTaken virt_to_phys st.supply h.supply)
          (λ h. Unit {0})
          (link_page type pfn va st)
  link_page-IsTaken type pfn va st h =
      Ends-mono (λ s. IsTaken virt_to_phys st.supply s.supply)
        (λ s. IsTaken virt_to_phys st.supply s.supply)
        (λ s. IsTaken virt_to_phys st.supply s.supply) (λ s. Unit {0}) (link_page type pfn va st)
        (λ s held. held) (λ s held. tt)
        (link_page-closed (IsTaken virt_to_phys st.supply) (IsTaken-closed virt_to_phys st.supply)
          type pfn va st (record { separate = h; among = λ q at. at }))

  pub link_page-IsLinked-IsTaken :
      (k : Kind) (pfn va : ℕ) (st : HostState)
      → IsSeparate virt_to_phys st.supply
      → Ends
          (λ h. IsLinked k pfn va st h × IsTaken virt_to_phys st.supply h.supply)
          (λ h. Unit {0})
          (link_page (flag k) pfn va st)
  link_page-IsLinked-IsTaken k pfn va st h =
      Ends-both _ _ _ _
        (Ends-mono (IsLinked k pfn va st) (SameElsewhere k pfn st) (IsLinked k pfn va st)
          (λ s. Unit {0}) (link_page (flag k) pfn va st) (λ s held. held) (λ s held. tt)
          (link_page-IsLinked k pfn va st))
        (link_page-IsTaken (flag k) pfn va st h)

  module _ (t : Tables HostState) (host : IsHost virt_to_phys t.host) (got : IsGot t.host.supply)
      (pos : 0 < (vmalloc t.host.supply).p) (h : HostState)
      (linked : IsLinked page_table
        (virt_to_phys (vmalloc t.host.supply).p)
        (vmalloc t.host.supply).p
        (record t.host { supply = (vmalloc t.host.supply).supply })
        h)
      (taken : IsTaken virt_to_phys (vmalloc t.host.supply).supply h.supply) where
    abbrev page : ℕ
    page = (vmalloc t.host.supply).p

    pub table_linked : IsHost virt_to_phys h
    table_linked = record {
      separate = taken.separate;
      unlinked = λ f r q e pos' at key. elim (Bool-cases (same_key (virt_to_phys page) f)) [
        | inl same ↦ got.apart q pos' (taken.among q at) (
            same_frame (virt_to_phys page) (virt_to_phys q) f got.small
              (frame_small h.supply q taken.separate at pos') same key)
        | inr other ↦
            host.unlinked f r q
              (xlate_ok virt_to_phys f r t.host
                (sym (rw other at (linked page_table f)) ∙ view_ok virt_to_phys f r h e))
              pos' (got.rest.among q (taken.among q at)) key
      ];
    }

    pub table-Grows : Grows xlate_table (Used virt_to_phys) t.host h
    unfolding Used
    table-Grows = record {
      xlate_kept = λ f r e. elim (Bool-cases (same_key (virt_to_phys page) f)) [
        | inl same ↦ absurd (host.unlinked f r page e pos got.was same)
        | inr other ↦
            xlate_ok virt_to_phys f r h
              (rw other at (linked page_table f) ∙ view_ok virt_to_phys f r t.host e)
      ];
      used_kept = λ q (pos', out). (pos', λ at. out (got.rest.among q (taken.among q at)));
    }

    module _ (extra nx level table idx : ℕ) (bits : extra < 2 ^ 9) (no_execute : nx < 2)
        (in_use : Used virt_to_phys t.host table) where
      abbrev entry : ℕ
      entry = init_page_ent (virt_to_phys page) extra nx level false

      abbrev created : NewTable HostState
      created = record {
        pt_next = page;
        tables = record {
          entries = write_entry table idx entry (zero_table page t.entries);
          va_base = t.va_base;
          host = h;
        };
      }

      apart_table : (page == table) ≡ false
      unfolding Used
      apart_table = elim (Bool-cases (page == table)) [
        | inr other ↦ other
        | inl same ↦ absurd (in_use.1 (rw ((==_iff page table).0 same) at got.was))
      ]

      written : created.tables.entries table idx ≡ entry
      written = rw (==_refl table, ==_refl idx) refl

      pub created-IsAllocated : IsAllocated xlate_table (Used virt_to_phys) table idx t created
      unfolding Used
      created-IsAllocated = record {
        fresh = λ used. used.1 got.was;
        taken = (pos, λ at. got.apart page pos (taken.among page at) refl);
        present = rw written (
            entry_present (virt_to_phys page) extra nx level bits no_execute
              (omega (arith, got.small)));
        leads =
            rw
              (
                written,
                (init_page_ent-fields (virt_to_phys page) extra nx level false refl bits no_execute
                    (omega (arith, got.small))).2,
              )
              (xlate_ok virt_to_phys (virt_to_phys page) page h (
                linked page_table (virt_to_phys page)
                ∙ rw (==_refl (virt_to_phys page % 2 ^ 36)) refl));
        empty = λ j. rw (apart_table, ==_refl page) refl;
        others = λ q j differs other. rw (different q page differs, other) refl;
        va = refl;
      }
