-- ===== src/Host/Link/Leaves.antt =====
-- What the steps of crp_host_map_link_page() do to the leaves of the tree.
use clearram.Base.{
  ℕ, ◌%◌, ◌^◌, Bool, if◌then◌else◌, ◌==◌, Option, none, some, ◌≡◌, refl, arith, ok, err, false,
}
use clearram.Host.PagesTree.{Leaf, leaf_at, leaf_va}
use clearram.Host.PagesTree.Bits.{marks, single_bit}
use clearram.Host.PagesTree.Laws.{leaf_at-set_leaf}
use clearram.Host.Link.{HostState, mark_pt, mark_ram, mark_rsvd, update_leaf}

-- The address that a leaf holds for one of the three kinds of page.
abbrev pub leaf_view : Option Leaf → ℕ → Option ℕ
leaf_view none u = none
leaf_view (some l) u = elim (leaf_va l u) [ ok va ↦ some va | err e ↦ none ]

-- The three flags of enum crh_ptl_type.
pub data Kind : Type 0 where
  page_table : Kind
  ram_page : Kind
  rsvd_page : Kind

abbrev pub flag : Kind → ℕ
flag page_table = 1
flag ram_page = 2
flag rsvd_page = 4

-- All marks of one call.
abbrev pub mark : (type va : ℕ) → Leaf → Leaf
mark type va l = mark_rsvd type va (mark_ram type va (mark_pt type va l))

module _ (va : ℕ) (l : Leaf) where
  pub leaf_view-mark :
      (k u : Kind)
      → leaf_view (some (mark (flag k) va l)) (flag u)
        ≡ (if flag u == flag k then some va else leaf_view (some l) (flag u))
  unfolding mark_pt mark_ram mark_rsvd leaf_va
  leaf_view-mark page_table page_table = ground (arith, (marks l.type).one_one, single_bit l.type)
  leaf_view-mark page_table ram_page = ground (arith, (marks l.type).one_two, single_bit l.type)
  leaf_view-mark page_table rsvd_page = ground (arith, (marks l.type).one_four, single_bit l.type)
  leaf_view-mark ram_page page_table = ground (arith, (marks l.type).two_one, single_bit l.type)
  leaf_view-mark ram_page ram_page = ground (arith, (marks l.type).two_two, single_bit l.type)
  leaf_view-mark ram_page rsvd_page = ground (arith, (marks l.type).two_four, single_bit l.type)
  leaf_view-mark rsvd_page page_table = ground (arith, (marks l.type).four_one, single_bit l.type)
  leaf_view-mark rsvd_page ram_page = ground (arith, (marks l.type).four_two, single_bit l.type)
  leaf_view-mark rsvd_page rsvd_page = ground (arith, (marks l.type).four_four, single_bit l.type)

module _ (va : ℕ) (l : Leaf) where
  -- The first conditional alone leaves the other kinds as they are.
  pub leaf_view-mark_pt :
      (k u : Kind)
      → (flag u == flag k) ≡ false
      → leaf_view (some (mark_pt (flag k) va l)) (flag u) ≡ leaf_view (some l) (flag u)
  unfolding mark_pt leaf_va
  leaf_view-mark_pt page_table page_table ne = cc
  leaf_view-mark_pt page_table ram_page ne =
      ground (arith, (marks l.type).one_two, single_bit l.type)
  leaf_view-mark_pt page_table rsvd_page ne =
      ground (arith, (marks l.type).one_four, single_bit l.type)
  leaf_view-mark_pt ram_page u ne = refl
  leaf_view-mark_pt rsvd_page u ne = refl

-- The leaf of a page frame number in a state.
abbrev pub leaf_of : HostState → ℕ → Option Leaf
leaf_of st q = leaf_at st.host_pages_tree q

abbrev pub same_key : ℕ → ℕ → Bool
same_key p q = (p % 2 ^ 36) == (q % 2 ^ 36)

pub leaf_of-update_leaf :
    (f : Leaf → Leaf) (p : ℕ) (st : HostState) (l : Leaf) (q : ℕ)
    → leaf_of st p ≡ some l
    → leaf_of (update_leaf f p st) q ≡ (if same_key p q then some (f l) else leaf_of st q)
unfolding update_leaf
leaf_of-update_leaf f p st l q e =
    rw (e, update_leaf) (leaf_at-set_leaf st.host_pages_tree p (f l) q)
