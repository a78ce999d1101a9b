-- ===== src/Host/AllocPt/HostSource.antt =====
-- The functions that cr_host_lkm_init() hands to cr_amd64_map_pages_aligned(), as a `Source`.
use clearram.Base.{
  ℕ, refl, inl, inr, ◌<◌, ◌^◌, Ends, false, Bool-cases, ◌==◌, arith, Ends-mono, ◌≡◌,
}
use clearram.Host.Kernel.{vmalloc}
use clearram.Host.Link.{HostState, link_page, link_ram_page, link_rsvd_page}
use clearram.Host.Link.Leaves.{page_table, ram_page, Kind, rsvd_page, flag}
use clearram.Host.Link.View.{IsLinked, link_page-IsLinked, SameElsewhere}
use clearram.Host.AllocPt.{alloc_pt}
use clearram.Host.AllocPt.Lawful.{xlate_table, IsHost, IsTaken, Used, page_linked}
use clearram.Host.AllocPt.Allocates.{
  link_page-IsLinked-IsTaken, vmalloc-IsGot, table_linked, table-Grows, created-IsAllocated,
}
use clearram.Map.Aligned.{Tables}
use clearram.Map.Aligned.Source.{Source, Grows, IsAllocated}
use clearram.Map.Aligned.Steps.{Ends-try_of}

module _ (virt_to_phys : ℕ → ℕ) (extra nx : ℕ) (bits : extra < 2 ^ 9) (no_execute : nx < 2) where
  pub link_ram_page-total :
      (pfn va : ℕ) (h : HostState) → Ends (λ h'. Unit {0}) (λ h'. Unit {0}) (link_ram_page pfn va h)
  unfolding link_ram_page
  link_ram_page-total pfn va h =
      Ends-mono (IsLinked ram_page pfn va h) (SameElsewhere ram_page pfn h) (λ s. Unit {0})
        (λ s. Unit {0}) (link_page 2 pfn va h) (λ s held. tt) (λ s held. tt)
        (link_page-IsLinked ram_page pfn va h)

  link_kind-Ends :
      (k : Kind) (pfn va : ℕ) (h : HostState)
      → (flag page_table == flag k) ≡ false
      → IsHost virt_to_phys h
      → Ends
          (λ h'. IsHost virt_to_phys h' × Grows xlate_table (Used virt_to_phys) h h')
          (λ h'. Unit {0})
          (link_page (flag k) pfn va h)
  link_kind-Ends k pfn va h other host =
      Ends-mono (λ s. IsLinked k pfn va h s × IsTaken virt_to_phys h.supply s.supply)
        (λ s. Unit {0}) (λ h'. IsHost virt_to_phys h' × Grows xlate_table (Used virt_to_phys) h h')
        (λ s. Unit {0}) (link_page (flag k) pfn va h)
        (λ s held.
          page_linked virt_to_phys h s host (λ f. rw other at (held.0 page_table f)) held.1)
        (λ s held. tt) (link_page-IsLinked-IsTaken virt_to_phys k pfn va h host.separate)

  pub link_ram_page-Ends :
      (pfn va : ℕ) (h : HostState)
      → IsHost virt_to_phys h
      → Ends
          (λ h'. IsHost virt_to_phys h' × Grows xlate_table (Used virt_to_phys) h h')
          (λ h'. Unit {0})
          (link_ram_page pfn va h)
  unfolding link_ram_page
  link_ram_page-Ends pfn va h host = link_kind-Ends ram_page pfn va h refl host

  pub link_rsvd_page-total :
      (pfn va : ℕ) (h : HostState)
      → Ends (λ h'. Unit {0}) (λ h'. Unit {0}) (link_rsvd_page pfn va h)
  unfolding link_rsvd_page
  link_rsvd_page-total pfn va h =
      Ends-mono (IsLinked rsvd_page pfn va h) (SameElsewhere rsvd_page pfn h) (λ s. Unit {0})
        (λ s. Unit {0}) (link_page 4 pfn va h) (λ s held. tt) (λ s held. tt)
        (link_page-IsLinked rsvd_page pfn va h)

  pub link_rsvd_page-Ends :
      (pfn va : ℕ) (h : HostState)
      → IsHost virt_to_phys h
      → Ends
          (λ h'. IsHost virt_to_phys h' × Grows xlate_table (Used virt_to_phys) h h')
          (λ h'. Unit {0})
          (link_rsvd_page pfn va h)
  unfolding link_rsvd_page
  link_rsvd_page-Ends pfn va h host = link_kind-Ends rsvd_page pfn va h refl host

  -- Where the free pages are of frames of their own, creating a table ends, at most with an error.
  -- Where it returns 0, the frames are still apart, all that was looked up before is looked up the
  -- same, and the table is new, zero, entered at its place and found by its frame.
  pub alloc_pt-Ends :
      (va level table idx : ℕ) (t : Tables HostState)
      → IsHost virt_to_phys t.host
      → Used virt_to_phys t.host table
      → Ends
          (λ n.
            IsHost virt_to_phys n.tables.host
            × Grows xlate_table (Used virt_to_phys) t.host n.tables.host
            × IsAllocated xlate_table (Used virt_to_phys) table idx t n)
          (λ n. Unit {0})
          (alloc_pt virt_to_phys extra nx va level false table idx t)
  unfolding alloc_pt
  alloc_pt-Ends va level table idx t host in_use =
      elim (Bool-cases ((vmalloc t.host.supply).p == 0)) [
        | inl none ↦ rw none (refl, tt)
        | inr some ↦
            let pos : 0 < (vmalloc t.host.supply).p = ground (arith, some) in
            let got = vmalloc-IsGot virt_to_phys t.host.supply host.separate pos in
            let page = (vmalloc t.host.supply).p in
            let taken_page : HostState = record t.host {
              supply = (vmalloc t.host.supply).supply;
            } in
            rw some (
              Ends-try_of
                (λ s.
                  IsLinked page_table (virt_to_phys page) page taken_page s
                  × IsTaken virt_to_phys taken_page.supply s.supply)
                _ _ (link_page 1 (virt_to_phys page) page taken_page) _ _
                (link_page-IsLinked-IsTaken virt_to_phys page_table (virt_to_phys page) page
                  taken_page got.rest.separate)
                (λ s. tt)
                (λ s (linked, taken). (
                  table_linked virt_to_phys t host got pos s linked taken,
                  table-Grows virt_to_phys t host got pos s linked taken,
                  created-IsAllocated virt_to_phys t host got pos s linked taken extra nx level
                      table idx bits no_execute in_use,
                )))
      ]

  unfoldable pub host_source : Source HostState
  host_source = record {
    alloc_pt = alloc_pt virt_to_phys extra nx;
    link_ram_page = link_ram_page;
    xlate_table = xlate_table;
    IsValid = IsHost virt_to_phys;
    Used = Used virt_to_phys;
    link_total = link_ram_page-total;
    link_ends = link_ram_page-Ends;
    alloc_ends = alloc_pt-Ends;
  }

  -- With cr_host_map_link_rsvd_page(), for the image.
  unfoldable pub rsvd_source : Source HostState
  rsvd_source = record {
    alloc_pt = alloc_pt virt_to_phys extra nx;
    link_ram_page = link_rsvd_page;
    xlate_table = xlate_table;
    IsValid = IsHost virt_to_phys;
    Used = Used virt_to_phys;
    link_total = link_rsvd_page-total;
    link_ends = link_rsvd_page-Ends;
    alloc_ends = alloc_pt-Ends;
  }
