-- ===== src/Host/PagesTree.antt =====
-- The tree of pages of subr_host.c, by page frame number: cr_host_map_xlate_pfn() and the tree's
-- part of crp_host_map_link_page(). A node is the function from an index to its pointer, `none`
-- for NULL; no pointer is kept twice, so a node is a value.
pub mod Bits
pub mod Laws
use clearram.Base.{
  ℕ, ◌+◌, ◌*◌, Bool, true, false, if◌then◌else◌, ◌==◌, not, bit_and, bit_or, shr, Option, none,
  some, Result, ok, err, esrch, einval, ◌-◌,
}
use clearram.Host.Kernel.{Supply, vmalloc}

-- enum crh_ptl_type.
abbrev pub ptl_page_table : ℕ
ptl_page_table = 0x01

abbrev pub ptl_ram_page : ℕ
ptl_ram_page = 0x02

abbrev pub ptl_rsvd_page : ℕ
ptl_rsvd_page = 0x04

-- struct crh_pages_tree_leaf; CRH_INIT_PAGES_TREE_LEAF(p, 0, 0, 0, 0).
pub record Leaf : Type 0 where
  pub type : ℕ
  pub va_pt : ℕ
  pub va_ram : ℕ
  pub va_rsvd : ℕ

abbrev pub new_leaf : Leaf
new_leaf = record { type = 0; va_pt = 0; va_ram = 0; va_rsvd = 0 }

-- The node whose 512 pointers lead to values of `A`.
abbrev pub Node : Type 0 → Type 0
Node A = ℕ → Option A

abbrev pub no_pointer : {A : Type 0} → Node A
no_pointer i = none

abbrev pub Tree : Type 0
Tree = Node (Node (Node (Node Leaf)))

abbrev pub set_pointer : {A : Type 0} → Node A → ℕ → A → Node A
set_pointer node i a j = if j == i then some a else node j

-- The index of a page frame number in the node of a level.
abbrev pub pfn_idx : ℕ → ℕ → ℕ
pfn_idx pfn level = bit_and (shr pfn ((level - 1) * 9)) 0x1ff

pub record Walk (A : Type 0) : Type 0 where
  pub found : Bool
  pub node : A
  pub supply : Supply

-- One level of the loop: the node under an index, created if there is none, and the levels below.
unfoldable pub descend :
    {A : Type 0} → A → (A → Supply → Walk A) → ℕ → Node A → Supply → Walk (Node A)
descend {A} fresh below i node supply = elim (node i) [
  | some child ↦
      let w = below child supply in
      record { found = w.found; node = set_pointer node i w.node; supply = w.supply }
  | none ↦
      let got = vmalloc supply in
      let w = below fresh got.supply in
      if got.p == 0
      then record { found = false; node = node; supply = got.supply }
      else record { found = w.found; node = set_pointer node i w.node; supply = w.supply }
]

abbrev pub arrive : {A : Type 0} → A → Supply → Walk A
arrive node supply = record { found = true; node = node; supply = supply }

-- The loop of crp_host_map_link_page(): `found` is false where it returns -ENOMEM.
unfoldable pub create_nodes : (pfn : ℕ) → Tree → Supply → Walk Tree
create_nodes pfn =
    descend no_pointer
      (descend no_pointer (descend no_pointer arrive (pfn_idx pfn 2)) (pfn_idx pfn 3))
      (pfn_idx pfn 4)

abbrev pub follow : {A : Type 0} → Option (Node A) → ℕ → Option A
follow none i = none
follow (some node) i = node i

-- `*leaf` at the end of the loop, `none` also where a node is missing on the way.
unfoldable pub leaf_at : Tree → ℕ → Option Leaf
leaf_at tree pfn =
    follow (follow (follow (tree (pfn_idx pfn 4)) (pfn_idx pfn 3)) (pfn_idx pfn 2)) (pfn_idx pfn 1)

abbrev pub child : {A : Type 0} → Node (Node A) → ℕ → Node A
child node i = elim (node i) [ some n ↦ n | none ↦ no_pointer ]

-- The write through `leaf`, behind a loop that has created the nodes.
unfoldable pub set_leaf : Tree → ℕ → Leaf → Tree
set_leaf tree pfn leaf =
    let n3 = child tree (pfn_idx pfn 4) in
    let n2 = child n3 (pfn_idx pfn 3) in
    let n1 = child n2 (pfn_idx pfn 2) in
    set_pointer tree (pfn_idx pfn 4) (
      set_pointer n3 (pfn_idx pfn 3)
        (set_pointer n2 (pfn_idx pfn 2) (set_pointer n1 (pfn_idx pfn 1) leaf)))

-- `switch ((*leaf)->type & type)`.
unfoldable pub leaf_va : Leaf → ℕ → Result ℕ
leaf_va leaf type =
    let common = bit_and leaf.type type in
    if common == ptl_page_table
    then ok leaf.va_pt
    else if common == ptl_ram_page
    then ok leaf.va_ram
    else if common == ptl_rsvd_page
    then ok leaf.va_rsvd
    else err einval

unfoldable pub xlate_pfn : Tree → (type pfn : ℕ) → Result ℕ
unfolding leaf_at leaf_va
xlate_pfn tree type pfn = elim (leaf_at tree pfn) [ none ↦ err esrch | some l ↦ leaf_va l type ]
