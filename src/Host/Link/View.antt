-- ===== src/Host/Link/View.antt =====
-- The tree of pages, as the rest of the program sees it, before and after one page is linked.
use clearram.Base.{
  ==_iff, ℕ, false, ◌==◌, Option, none, some, ◌≡◌, refl, arith, inl, inr, Option-cases, Bool-cases,
  Ends, ◌∙◌, ap, sym, Ends-try, Ends-mono, true, ◌&&◌, if◌then◌else◌, ◌%◌, ◌^◌,
}
use clearram.Host.Malloc.{malloc}
use clearram.Host.ReservedList.{list_append, list_room}
use clearram.Host.PagesTree.{Leaf, new_leaf, leaf_va, Walk}
use clearram.Host.PagesTree.Laws.{leaf_at-set_leaf, leaf_at-key, leaf_at-create_nodes}
use clearram.Host.Link.{
  fill_leaf, HostState, update_leaf, ensure_leaf, reserve, mark_pt, Tree, mark_rsvd, link_page,
  mark_ram, leaf_at, create_nodes,
}
use clearram.Host.Link.Leaves.{
  leaf_view-mark_pt, leaf_view, Kind, page_table, ram_page, rsvd_page, flag, leaf_of, same_key,
  leaf_of-update_leaf, mark, leaf_view-mark,
}

-- `s` holds the leaf `l` for `p`, and the leaves of `st` for the other keys.
record Holds (p : ℕ) (l : Leaf) (st s : HostState) : Type 0 where
  leaf : leaf_of s p ≡ some l
  others : (q : ℕ) → same_key p q ≡ false → leaf_of s q ≡ leaf_of st q

update_leaf-Holds :
    (f : Leaf → Leaf) (p : ℕ) {l : Leaf} {st s : HostState}
    → Holds p l st s
    → Holds p (f l) st (update_leaf f p s)
update_leaf-Holds f p {l} {st} {s} h = record {
  leaf = ground (arith, leaf_of-update_leaf f p s l p h.leaf);
  others = λ q ne. ground (arith, leaf_of-update_leaf f p s l q h.leaf, h.others q);
}

moved :
    {p : ℕ} {l : Leaf} {st s t : HostState}
    → Holds p l st s
    → t.host_pages_tree ≡ s.host_pages_tree
    → Holds p l st t
moved {p} h e = record {
  leaf = ap (λ (tree : Tree). leaf_at tree p) e ∙ h.leaf;
  others = λ q ne. ap (λ (tree : Tree). leaf_at tree q) e ∙ h.others q ne;
}

-- The address that a state holds for a kind of page and a page frame number.
abbrev pub view : HostState → Kind → ℕ → Option ℕ
view st u q = leaf_view (leaf_of st q) (flag u)

-- Only the leaf of `p` may differ, and its addresses are those before.
abbrev Ensured : (p : ℕ) (st s : HostState) → Type 0
Ensured p st s =
    (l : Leaf) × Holds p l st s × ((u : Kind) → leaf_view (some l) (flag u) ≡ view st u p)

abbrev SameLeaves : (st s : HostState) → Type 0
SameLeaves st s = (q : ℕ) → leaf_of s q ≡ leaf_of st q

Ensured-trans : (p : ℕ) {st s t : HostState} → SameLeaves st s → Ensured p s t → Ensured p st t
Ensured-trans p same (l, held, views) = (
  l,
  record { leaf = held.leaf; others = λ q ne. held.others q ne ∙ same q },
  λ u. views u ∙ ap (λ o. leaf_view o (flag u)) (same p),
)

no_view : (u : Kind) → leaf_view (some new_leaf) (flag u) ≡ none
unfolding leaf_va
no_view page_table = refl
no_view ram_page = refl
no_view rsvd_page = refl

ensure_leaf-Ensured :
    (p : ℕ) (st : HostState) → Ends (Ensured p st) (SameLeaves st) (ensure_leaf p st)
unfolding ensure_leaf
ensure_leaf-Ensured p st = elim (Option-cases (leaf_of st p)) [
  | inr (l, e) ↦
      rw (e, ensure_leaf)
        (l, record { leaf = e; others = λ q ne. refl }, λ u. ap (λ o. leaf_view o (flag u)) (sym e))
  | inl e ↦
      let m = malloc st.host_malloc_state st.supply 1 28 in
      elim (Bool-cases (m.p == 0)) [
        | inl full ↦ rw (e, ensure_leaf, full) (refl, λ q. refl)
        | inr got ↦
            rw (e, ensure_leaf, got)
              (
                new_leaf,
                record {
                  leaf = ground (arith, leaf_at-set_leaf st.host_pages_tree p new_leaf p);
                  others = λ q ne. ground (arith, leaf_at-set_leaf st.host_pages_tree p new_leaf q);
                },
                λ u. no_view u ∙ ap (λ o. leaf_view o (flag u)) (sym e),
              )
      ]
]

-- The append to the list leaves the tree alone.
reserve-tree :
    (type p : ℕ) (st : HostState)
    → Ends
        (λ s. s.host_pages_tree ≡ st.host_pages_tree)
        (λ s. s.host_pages_tree ≡ st.host_pages_tree)
        (reserve type p st)
unfolding reserve list_append list_room
reserve-tree type p st = ground arith

-- Only the address of kind `k` and key `p` may differ.
abbrev pub SameElsewhere : Kind → ℕ → (st t : HostState) → Type 0
SameElsewhere k p st t =
    (u : Kind) (q : ℕ) → (flag u == flag k && same_key p q) ≡ false → view t u q ≡ view st u q

-- The address of kind `k` and key `p` is `va`, and every other as before.
abbrev pub IsLinked : Kind → (p va : ℕ) → (st t : HostState) → Type 0
IsLinked k p va st t =
    (u : Kind) (q : ℕ)
    → view t u q ≡ (if flag u == flag k && same_key p q then some va else view st u q)

module _ (k : Kind) (p va : ℕ) (l : Leaf) (st t : HostState) (held : Holds p l st t) where
  view_at_key :
      (u : Kind) (q : ℕ)
      → same_key p q ≡ true
      → (view t u q ≡ leaf_view (some l) (flag u)) × (view st u p ≡ view st u q)
  view_at_key u q e =
      let key = (==_iff (p % 2 ^ 36) (q % 2 ^ 36)).0 e in
      (
        ap (λ o. leaf_view o (flag u)) (sym (leaf_at-key t.host_pages_tree p q key) ∙ held.leaf),
        ap (λ o. leaf_view o (flag u)) (leaf_at-key st.host_pages_tree p q key),
      )

  Holds-SameElsewhere :
      ((u : Kind) → (flag u == flag k) ≡ false → leaf_view (some l) (flag u) ≡ view st u p)
      → SameElsewhere k p st t
  Holds-SameElsewhere same u q other = elim (Bool-cases (same_key p q)) [
    | inl e ↦ (view_at_key u q e).0 ∙ same u (ground arith) ∙ (view_at_key u q e).1
    | inr ne ↦ ap (λ o. leaf_view o (flag u)) (held.others q ne)
  ]

  Holds-IsLinked :
      ((u : Kind)
        → leaf_view (some l) (flag u) ≡ (if flag u == flag k then some va else view st u p))
      → IsLinked k p va st t
  Holds-IsLinked same u q = elim (Bool-cases (same_key p q)) [
    | inl e ↦ ground (arith, same u, view_at_key u q e)
    | inr ne ↦ ground (arith, ap (λ o. leaf_view o (flag u)) (held.others q ne))
  ]

fill_leaf-IsLinked :
    (k : Kind) (p va : ℕ) (st s : HostState)
    → Ensured p st s
    → Ends (IsLinked k p va st) (SameElsewhere k p st) (fill_leaf (flag k) p va s)
unfolding fill_leaf
fill_leaf-IsLinked k p va st s (l, held, same) =
    let s' = update_leaf (mark_pt (flag k) va) p s in
    let held' = update_leaf-Holds (mark_pt (flag k) va) p held in
    Ends-try (λ t. t.host_pages_tree ≡ s'.host_pages_tree) (IsLinked k p va st)
      (SameElsewhere k p st) (reserve (flag k) p s') _
      (Ends-mono (λ t. t.host_pages_tree ≡ s'.host_pages_tree)
        (λ t. t.host_pages_tree ≡ s'.host_pages_tree) _ (SameElsewhere k p st)
        (reserve (flag k) p s') (λ t e. e)
        (λ t e.
          Holds-SameElsewhere k p va (mark_pt (flag k) va l) st t (moved held' e)
            (λ u ne. leaf_view-mark_pt va l k u ne ∙ same u))
        (reserve-tree (flag k) p s'))
      (λ t e.
        Holds-IsLinked k p va (mark (flag k) va l) st _
          (update_leaf-Holds (mark_rsvd (flag k) va) p
            (update_leaf-Holds (mark_ram (flag k) va) p (moved held' e)))
          (λ u. rw (← same u) (leaf_view-mark va l k u)))

-- Linking a page for one of the three kinds either returns 0, and then a look-up of that kind at
-- the page frame number (modulo 2 ^ 36) gives the address and every other look-up what it gave
-- before, or returns -ENOMEM, and then every other look-up gives what it gave before.
pub link_page-IsLinked :
    (k : Kind) (pfn va : ℕ) (st : HostState)
    → Ends (IsLinked k pfn va st) (SameElsewhere k pfn st) (link_page (flag k) pfn va st)
unfolding link_page
link_page-IsLinked k pfn va st = elim (Bool-cases w.found) [
  | inr none_left ↦
      rw (none_left, link_page) (refl, λ u q ne. ap (λ o. leaf_view o (flag u)) (same q))
  | inl found ↦
      rw (found, link_page)
        (Ends-try (Ensured pfn st) (IsLinked k pfn va st) (SameElsewhere k pfn st)
          (ensure_leaf pfn st') _
          (Ends-mono (Ensured pfn st') (SameLeaves st') (Ensured pfn st) (SameElsewhere k pfn st)
            (ensure_leaf pfn st') (λ s. Ensured-trans pfn same)
            (λ s e u q ne. ap (λ o. leaf_view o (flag u)) (e q ∙ same q))
            (ensure_leaf-Ensured pfn st'))
          (λ s. fill_leaf-IsLinked k pfn va st s))
]
  where
    w : Walk Tree
    w = create_nodes pfn st.host_pages_tree st.supply

    st' : HostState
    st' = record st { host_pages_tree = w.node; supply = w.supply }

    same : SameLeaves st st'
    same q = leaf_at-create_nodes pfn st.host_pages_tree st.supply q
