-- ===== src/Host/AllocPt/Linked.antt =====
-- Where the pages of RAM lie that the host has linked: what cr_host_map_link_ram_page(),
-- cr_host_map_link_rsvd_page() and cr_host_map_alloc_pt() do to them.
use clearram.Base.{
  refl, none, ℕ, ◌==◌, ◌≡◌, WhereDone, some, Bool-cases, ap, false, WhereDone-Ends, inl, sym, inr,
  ◌∙◌, true,
}
use clearram.Host.Kernel.{vmalloc}
use clearram.Host.Link.{HostState, link_page, link_ram_page, link_rsvd_page}
use clearram.Host.Link.Leaves.{page_table, ram_page, rsvd_page, flag, Kind, same_key}
use clearram.Host.Link.View.{view, IsLinked, SameElsewhere, link_page-IsLinked}
use clearram.Host.AllocPt.{alloc_pt}
use clearram.Map.Aligned.{Tables}
use clearram.Map.Aligned.Keeps.{WhereDone-try_in}
use clearram.Map.Walk.{page_of}

module _ (Q : (pfn page : ℕ) → Type 0) where
  -- Each frame that is linked as a page of RAM is so at a page that `Q` has for it.
  abbrev pub LinksIn : HostState → Type 0
  LinksIn h = (pfn va : ℕ) → view h ram_page pfn ≡ some va → Q pfn (page_of va)

  same_ram :
      (k : Kind) (pfn va : ℕ) (h h' : HostState)
      → (flag ram_page == flag k) ≡ false
      → IsLinked k pfn va h h'
      → LinksIn h
      → LinksIn h'
  same_ram k pfn va h h' other linked within f v e =
      within f v (sym (rw other at (linked ram_page f)) ∙ e)

  link_other :
      (k : Kind) (pfn va : ℕ) (h : HostState)
      → (flag ram_page == flag k) ≡ false
      → LinksIn h
      → WhereDone LinksIn (link_page (flag k) pfn va h)
  link_other k pfn va h other within =
      WhereDone-Ends (IsLinked k pfn va h) LinksIn (SameElsewhere k pfn h)
        (link_page (flag k) pfn va h) (λ h' linked. same_ram k pfn va h h' other linked within)
        (link_page-IsLinked k pfn va h)

  pub link_rsvd_page-LinksIn :
      (pfn va : ℕ) (h : HostState) → LinksIn h → WhereDone LinksIn (link_rsvd_page pfn va h)
  unfolding link_rsvd_page
  link_rsvd_page-LinksIn pfn va h within = link_other rsvd_page pfn va h refl within

  some_injective : (x y : ℕ) → some x ≡ some y → x ≡ y
  some_injective x y e = ap (λ o. elim o [ some v ↦ v | none ↦ x ]) e

  -- Frames that the tree does not tell apart have the same pages.
  abbrev pub Respects : Type 0
  Respects = (p q page : ℕ) → same_key p q ≡ true → Q p page → Q q page

  linked_in :
      (pfn va : ℕ) (h h' : HostState)
      → Respects
      → Q pfn (page_of va)
      → IsLinked ram_page pfn va h h'
      → LinksIn h
      → LinksIn h'
  linked_in pfn va h h' respects allowed linked within f v e = elim (Bool-cases (same_key pfn f)) [
    | inr other ↦ within f v (sym (rw other at (linked ram_page f)) ∙ e)
    | inl same ↦
        let at : va ≡ v = some_injective va v (sym (rw same at (linked ram_page f)) ∙ e) in
        rw (← at) (respects pfn f (page_of va) same allowed)
  ]

  pub link_ram_page-LinksIn :
      (pfn va : ℕ) (h : HostState)
      → Respects
      → Q pfn (page_of va)
      → LinksIn h
      → WhereDone LinksIn (link_ram_page pfn va h)
  unfolding link_ram_page
  link_ram_page-LinksIn pfn va h respects allowed within =
      WhereDone-Ends (IsLinked ram_page pfn va h) LinksIn (SameElsewhere ram_page pfn h)
        (link_page 2 pfn va h) (λ h' linked. linked_in pfn va h h' respects allowed linked within)
        (link_page-IsLinked ram_page pfn va h)

  pub alloc_pt-LinksIn :
      (virt_to_phys : ℕ → ℕ) (extra nx va level table idx : ℕ) (t : Tables HostState)
      → LinksIn t.host
      → WhereDone
          (λ n. LinksIn n.tables.host × (n.tables.va_base ≡ t.va_base))
          (alloc_pt virt_to_phys extra nx va level false table idx t)
  unfolding alloc_pt
  alloc_pt-LinksIn virt_to_phys extra nx va level table idx t within =
      elim (Bool-cases ((vmalloc t.host.supply).p == 0)) [
        | inl none_left ↦ rw none_left tt
        | inr some_left ↦
            let page = (vmalloc t.host.supply).p in
            let taken : HostState = record t.host { supply = (vmalloc t.host.supply).supply } in
            rw some_left (
              WhereDone-try_in LinksIn _ (link_page 1 (virt_to_phys page) page taken) _ _
                (link_other page_table (virt_to_phys page) page taken refl within)
                (λ h held. (held, refl)))
      ]
