-- ===== src/Lkm/Init/Parts.antt =====
-- The parts of cr_host_lkm_init() come to an end: links and tables of the host, the loop over the
-- blocks of RAM, and the loops that unmap pages.
use clearram.Base.{
  ℕ, zero, suc, [], ◌∷◌, List, Outcome, done, failed, undefined, out_of_fuel, try, Ends, ok, err,
  Result, ◌<◌, ◌^◌, Bool-cases, inl, inr, Bool, get_field, ◌==◌, Bool, ◌+◌,
}
use clearram.Map.Layout.{va_to_pe_idx}
use clearram.Amd64.PageEnt.{pe_pfn_base}
use clearram.Map.Aligned.{Tables}
use clearram.Map.Aligned.Returns.{Returns, Returns-try_in}
use clearram.Map.Aligned.Blocks.{AllBlocks}
use clearram.Map.Unaligned.Spec.{map_all}
use clearram.Host.Kernel.{vmalloc}
use clearram.Host.Link.{HostState, link_page}
use clearram.Host.Link.Leaves.{page_table, Kind, flag}
use clearram.Host.Link.View.{IsLinked, SameElsewhere, link_page-IsLinked}
use clearram.Host.AllocPt.{alloc_pt}
use clearram.Map.Aligned.{Entries}
use clearram.Lkm.Unmap.{clear_entry, unmap_frame, unmap_reserved, unmap_image}

abbrev pub Any : {S : Type 0} → S → Type 0
Any s = Unit {0}

pub Ends-Returns : {S : Type 0} (P Q : S → Type 0) (m : Outcome S) → Ends P Q m → Returns Any m
Ends-Returns P Q (done s) h = tt
Ends-Returns P Q (failed e s) h = tt
Ends-Returns P Q undefined h = h
Ends-Returns P Q out_of_fuel h = h

pub Returns-try :
    {S : Type 0} (m : Outcome S) (k : S → Outcome S)
    → Returns Any m
    → ((s : S) → Returns Any (k s))
    → Returns Any (try m k)
Returns-try (done s) k h next = next s
Returns-try (failed e s) k h next = tt
Returns-try undefined k h next = h
Returns-try out_of_fuel k h next = h

pub link_page-Returns :
    (k : Kind) (pfn va : ℕ) (h : HostState) → Returns Any (link_page (flag k) pfn va h)
link_page-Returns k pfn va h =
    Ends-Returns (IsLinked k pfn va h) (SameElsewhere k pfn h) (link_page (flag k) pfn va h)
      (link_page-IsLinked k pfn va h)

pub alloc_pt-Returns :
    (virt_to_phys : ℕ → ℕ) (extra nx va level : ℕ) (direct : Bool) (table idx : ℕ)
    (t : Tables HostState)
    → Returns Any (alloc_pt virt_to_phys extra nx va level direct table idx t)
unfolding alloc_pt
alloc_pt-Returns virt_to_phys extra nx va level direct table idx t =
    let page = (vmalloc t.host.supply).p in
    elim (Bool-cases (page == 0)) [
      | inl none_left ↦ rw none_left tt
      | inr some_left ↦ rw some_left (
          Returns-try_in Any Any _ _ _
            (link_page-Returns page_table (virt_to_phys page) page
              (record t.host { supply = (vmalloc t.host.supply).supply }))
            (λ h held. tt))
    ]

pub map_all-Returns :
    {S : Type 0} (mapper : (base limit : ℕ) → S → Outcome S)
    → ((base limit : ℕ) → limit < 2 ^ 64 → (s : S) → Returns Any (mapper base limit s))
    → (bs : List (ℕ × ℕ)) (s : S) → AllBlocks bs
    → Returns Any (map_all mapper bs s)
map_all-Returns mapper each [] s h = tt
map_all-Returns mapper each ((lo, hi) ∷ bs) s (nonempty, word, h) =
    Returns-try (mapper lo hi s) (λ t. map_all mapper bs t) (each lo hi word s)
      (λ t. map_all-Returns mapper each bs t h)

pub result-Returns :
    {S : Type 0} (r : Result ℕ) (k : ℕ → Outcome S) (s : S)
    → ((a : ℕ) → Returns Any (k a))
    → Returns Any (elim r [ ok a ↦ k a | err e ↦ failed e s ])
result-Returns (ok a) k s h = h a
result-Returns (err e) k s h = tt

module _ (table_at ram_at : ℕ → Result ℕ) (pml4 : ℕ) where
  pub clear_entry-Returns :
      (level pt va : ℕ) (e : Entries) → Returns Any (clear_entry table_at ram_at pml4 level pt va e)
  unfolding clear_entry
  clear_entry-Returns zero pt va e = tt
  clear_entry-Returns (suc zero) pt va e = tt
  clear_entry-Returns (suc (suc level)) pt va e =
      result-Returns (table_at (get_field pe_pfn_base (e pt (va_to_pe_idx va (suc (suc level))))))
        (λ va_pt. clear_entry table_at ram_at pml4 (suc level) va_pt va e) e
        (λ va_pt. clear_entry-Returns (suc level) va_pt va e)

  pub unmap_frame-Returns :
      (pfn : ℕ) (e : Entries) → Returns Any (unmap_frame table_at ram_at pml4 pfn e)
  unfolding unmap_frame
  unmap_frame-Returns pfn e =
      result-Returns (ram_at pfn) (λ va_page. clear_entry table_at ram_at pml4 4 pml4 va_page e) e
        (λ va_page. clear_entry-Returns 4 pml4 va_page e)

  pub unmap_reserved-Returns :
      (items : List (ℕ × ℕ)) (e : Entries)
      → Returns Any (unmap_reserved table_at ram_at pml4 items e)
  unfolding unmap_reserved
  unmap_reserved-Returns [] e = tt
  unmap_reserved-Returns ((li, pfn) ∷ items) e =
      Returns-try (unmap_frame table_at ram_at pml4 pfn e) _ (unmap_frame-Returns pfn e)
        (λ s. unmap_reserved-Returns items s)

  pub unmap_image-Returns :
      (virt_to_phys : ℕ → ℕ) (base left npage : ℕ) (e : Entries)
      → Returns Any (unmap_image table_at ram_at pml4 virt_to_phys base left npage e)
  unfolding unmap_image
  unmap_image-Returns virt_to_phys base zero npage e = tt
  unmap_image-Returns virt_to_phys base (suc left) npage e =
      Returns-try _ _ (unmap_frame-Returns _ e)
        (λ s. unmap_image-Returns virt_to_phys base left (npage + 1) s)
