-- ===== src/Host/AllocPt/Supplied.antt =====
-- What stays true of the kernel's free pages while pages are taken.
use clearram.Base.{
  refl, ℕ, ◌≡◌, Ends, Option-cases, inr, inl, Bool-cases, ◌==◌, Ends-try, bit_and, ◌⊎◌, ◌||◌, arith,
  ltb, sub64, page_size_bytes,
}
use clearram.Host.Kernel.{Supply, vmalloc}
use clearram.Host.Malloc.{MallocState, malloc}
use clearram.Host.ReservedList.{list_append, list_room, list_link, is_empty, isize_aligned}
use clearram.Host.PagesTree.{
  Leaf, Node, Walk, arrive, no_pointer, descend, create_nodes, Tree, pfn_idx, leaf_at,
}
use clearram.Host.Link.{
  HostState, update_leaf, ensure_leaf, reserve, fill_leaf, link_page, mark_pt, mark_ram, mark_rsvd,
}

malloc_takes :
    (m : MallocState) (s : Supply) (n size : ℕ)
    → ((malloc m s n size).supply ≡ s) ⊎ ((malloc m s n size).supply ≡ (vmalloc s).supply)
unfolding malloc
malloc_takes m s n size = ground arith

module _ (P : Supply → Type 0) (closed : (s : Supply) → P s → P (vmalloc s).supply) where
  descend-closed :
      {A : Type 0} (fresh : A) (below : A → Supply → Walk A)
      → ((a : A) (s : Supply) → P s → P (below a s).supply)
      → (i : ℕ) (node : Node A) (s : Supply) → P s
      → P (descend fresh below i node s).supply
  unfolding descend
  descend-closed fresh below ih i node s h = elim (Option-cases (node i)) [
    | inr (a, e) ↦ rw (e, descend) (ih a s h)
    | inl e ↦ elim (Bool-cases ((vmalloc s).p == 0)) [
      | inl none ↦ rw (e, descend, none) (closed s h)
      | inr some ↦ rw (e, descend, some) (ih fresh (vmalloc s).supply (closed s h))
    ]
  ]

  create_nodes-closed :
      (pfn : ℕ) (tree : Tree) (s : Supply) → P s → P (create_nodes pfn tree s).supply
  unfolding create_nodes
  create_nodes-closed pfn tree s =
      descend-closed no_pointer _
        (descend-closed no_pointer _ (descend-closed no_pointer arrive (λ a t h. h) (pfn_idx pfn 2))
          (pfn_idx pfn 3))
        (pfn_idx pfn 4) tree s

  malloc-closed : (m : MallocState) (s : Supply) (n size : ℕ) → P s → P (malloc m s n size).supply
  unfolding malloc
  malloc-closed m s n size h = elim (malloc_takes m s n size) [
    | inl same ↦ rw same h
    | inr next ↦ rw next (closed s h)
  ]

  update_leaf-supply :
      (f : Leaf → Leaf) (p : ℕ) (st : HostState) → (update_leaf f p st).supply ≡ st.supply
  unfolding update_leaf
  update_leaf-supply f p st = elim (Option-cases (leaf_at st.host_pages_tree p)) [
    | inl e ↦ rw (e, update_leaf) refl
    | inr (l, e) ↦ rw (e, update_leaf) refl
  ]

  ensure_leaf-closed :
      (p : ℕ) (st : HostState)
      → P st.supply
      → Ends (λ s. P s.supply) (λ s. P s.supply) (ensure_leaf p st)
  unfolding ensure_leaf
  ensure_leaf-closed p st h = elim (Option-cases (leaf_at st.host_pages_tree p)) [
    | inr (l, e) ↦ rw (e, ensure_leaf) h
    | inl e ↦
        let taken = malloc-closed st.host_malloc_state st.supply 1 28 h in
        elim (Bool-cases ((malloc st.host_malloc_state st.supply 1 28).p == 0)) [
          | inl none ↦ rw (e, ensure_leaf, none) (refl, taken)
          | inr some ↦ rw (e, ensure_leaf, some) taken
        ]
  ]

  reserve-closed :
      (type p : ℕ) (st : HostState)
      → P st.supply
      → Ends (λ s. P s.supply) (λ s. P s.supply) (reserve type p st)
  unfolding reserve list_append list_room list_link
  reserve-closed type p st h = elim (Bool-cases (bit_and type 1 == 0)) [
    | inl other ↦ rw (other, reserve) h
    | inr table ↦
        elim (Bool-cases (
          is_empty st.host_lrsvd.items
          || ltb (sub64 page_size_bytes st.host_lrsvd.page_off) (isize_aligned st.host_lrsvd))) [
            | inr fits ↦ rw (table, reserve, fits) h
            | inl full ↦ elim (Bool-cases ((vmalloc st.supply).p == 0)) [
              | inl none ↦ rw (table, reserve, full, none) (refl, closed st.supply h)
              | inr some ↦ rw (table, reserve, full, some) (closed st.supply h)
            ]
          ]
  ]

  -- Linking a page takes free pages at most.
  pub link_page-closed :
      (type pfn va : ℕ) (st : HostState)
      → P st.supply
      → Ends (λ s. P s.supply) (λ s. P s.supply) (link_page type pfn va st)
  unfolding link_page fill_leaf
  link_page-closed type pfn va st h =
      elim (Bool-cases (create_nodes pfn st.host_pages_tree st.supply).found) [
        | inr none ↦
            rw (none, link_page) (refl, create_nodes-closed pfn st.host_pages_tree st.supply h)
        | inl found ↦
            rw (found, link_page)
              (Ends-try (λ s. P s.supply) (λ s. P s.supply) (λ s. P s.supply) (ensure_leaf pfn _) _
                (ensure_leaf-closed pfn _ (create_nodes-closed pfn st.host_pages_tree st.supply h))
                (λ s g.
                  Ends-try (λ t. P t.supply) (λ t. P t.supply) (λ t. P t.supply)
                    (reserve type pfn (update_leaf (mark_pt type va) pfn s)) _
                    (reserve-closed type pfn _ (rw (update_leaf-supply (mark_pt type va) pfn s) g))
                    (λ t k.
                      rw
                        (
                          update_leaf-supply (mark_rsvd type va) pfn
                              (update_leaf (mark_ram type va) pfn t),
                          update_leaf-supply (mark_ram type va) pfn t,
                        )
                        k)))
      ]
