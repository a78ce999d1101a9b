-- ===== src/Host/Link.antt =====
-- crp_host_map_link_page() of subr_host.c and its callers cr_host_map_link_ram_page() and
-- cr_host_map_link_rsvd_page(), on the part of struct cr_host_state that they write.
pub mod Leaves
pub mod View
pub mod Total
mod Tests
use clearram.Base.{
  ℕ, Bool, true, false, if◌then◌else◌, ◌==◌, bit_and, bit_or, Option, none, some, Outcome, done,
  failed, undefined, out_of_fuel, try, enomem,
}
use clearram.Host.Kernel.{Supply, vmalloc}
use clearram.Host.Malloc.{MallocState, malloc}
use clearram.Host.ReservedList.{CrhList, pages, list_append}
use clearram.Host.PagesTree.{
  Leaf, new_leaf, Tree, create_nodes, leaf_at, set_leaf, ptl_page_table, ptl_ram_page,
  ptl_rsvd_page,
}

pub record HostState : Type 0 where
  pub host_pages_tree : Tree
  pub host_malloc_state : MallocState
  pub host_lrsvd : CrhList
  pub supply : Supply

abbrev pub sizeof_leaf : ℕ
sizeof_leaf = 28

-- `if (type & CRH_PTL_...) { (*leaf)->type |= ...; (*leaf)->va_... = va; }`, three times.
unfoldable pub mark_pt : (type va : ℕ) → Leaf → Leaf
mark_pt type va l =
    if bit_and type ptl_page_table == 0
    then l
    else record l { type = bit_or l.type ptl_page_table; va_pt = va }

unfoldable pub mark_ram : (type va : ℕ) → Leaf → Leaf
mark_ram type va l =
    if bit_and type ptl_ram_page == 0
    then l
    else record l { type = bit_or l.type ptl_ram_page; va_ram = va }

unfoldable pub mark_rsvd : (type va : ℕ) → Leaf → Leaf
mark_rsvd type va l =
    if bit_and type ptl_rsvd_page == 0
    then l
    else record l { type = bit_or l.type ptl_rsvd_page; va_rsvd = va }

-- A write to the fields of `**leaf`.
unfoldable pub update_leaf : (Leaf → Leaf) → ℕ → HostState → HostState
update_leaf f pfn st = elim (leaf_at st.host_pages_tree pfn) [
  | none ↦ st
  | some l ↦ record st { host_pages_tree = set_leaf st.host_pages_tree pfn (f l) }
]

-- `if (!(*leaf)) { ... }`.
unfoldable pub ensure_leaf : ℕ → HostState → Outcome HostState
ensure_leaf pfn st = elim (leaf_at st.host_pages_tree pfn) [
  | some l ↦ done st
  | none ↦
      let m = malloc st.host_malloc_state st.supply 1 sizeof_leaf in
      let st' = record st { host_malloc_state = m.state; supply = m.supply } in
      if m.p == 0
      then failed enomem st'
      else done (record st' { host_pages_tree = set_leaf st.host_pages_tree pfn new_leaf })
]

-- The append to the list of reserved pages, for a page table.
unfoldable pub reserve : (type pfn : ℕ) → HostState → Outcome HostState
reserve type pfn st =
    if bit_and type ptl_page_table == 0
    then done st
    else elim (list_append pfn (pages st.host_lrsvd st.supply)) [
      | done s ↦ done (record st { host_lrsvd = s.list; supply = s.supply })
      | failed e s ↦ failed e (record st { host_lrsvd = s.list; supply = s.supply })
      | undefined ↦ undefined
      | out_of_fuel ↦ out_of_fuel
    ]

-- The three conditionals on the leaf and the return.
unfoldable pub fill_leaf : (type pfn va : ℕ) → HostState → Outcome HostState
fill_leaf type pfn va st =
    try (reserve type pfn (update_leaf (mark_pt type va) pfn st))
      λ t. done (update_leaf (mark_rsvd type va) pfn (update_leaf (mark_ram type va) pfn t))

unfoldable pub link_page : (type pfn va : ℕ) → HostState → Outcome HostState
link_page type pfn va st =
    let w = create_nodes pfn st.host_pages_tree st.supply in
    let st' = record st { host_pages_tree = w.node; supply = w.supply } in
    if w.found then try (ensure_leaf pfn st') (fill_leaf type pfn va) else failed enomem st'

unfoldable pub link_ram_page : (pfn va : ℕ) → HostState → Outcome HostState
link_ram_page pfn va = link_page ptl_ram_page pfn va

unfoldable pub link_rsvd_page : (pfn va : ℕ) → HostState → Outcome HostState
link_rsvd_page pfn va = link_page ptl_rsvd_page pfn va
