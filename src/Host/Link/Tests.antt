-- ===== src/Host/Link/Tests.antt =====
-- A run on the state that cr_host_lkm_init() starts with, and the theorems about it.
use clearram.Base.{ℕ, ◌≡◌, refl, [], ◌∷◌, Outcome, done, ok, err, esrch, einval, Result, Ends}
use clearram.Host.Malloc.{malloc, malloc_state}
use clearram.Host.ReservedList.{list_init, list_append}
use clearram.Host.PagesTree.{no_pointer, create_nodes, descend, leaf_at, set_leaf, xlate_pfn}
use clearram.Host.Link.{
  HostState, link_page, ensure_leaf, reserve, fill_leaf, update_leaf, mark_pt, mark_ram, mark_rsvd,
}
use clearram.Host.Link.Leaves.{ram_page, flag}
use clearram.Host.Link.View.{IsLinked, SameElsewhere, link_page-IsLinked}

abbrev start : HostState
start = record {
  host_pages_tree = no_pointer;
  host_malloc_state = malloc_state 0 0;
  host_lrsvd = list_init 8;
  supply = 0x10000 ∷ 0x11000 ∷ 0x12000 ∷ 0x13000 ∷ 0x14000 ∷ [];
}

-- What a look-up gives after a page has been linked.
abbrev look_up : Outcome HostState → ℕ → ℕ → Result ℕ
look_up (done st) type pfn = xlate_pfn st.host_pages_tree type pfn
look_up _ type pfn = err einval

linked_page :
    let after = link_page 1 0x12345 0x7000 start in
    (look_up after 1 0x12345 ≡ ok 0x7000)
    × (look_up after 2 0x12345 ≡ err einval)
    × (look_up after 1 0x12346 ≡ err esrch)
unfolding link_page create_nodes descend ensure_leaf fill_leaf update_leaf reserve mark_pt mark_ram
    mark_rsvd leaf_at set_leaf malloc list_append xlate_pfn
linked_page = (refl, refl, refl)

link_page-IsLinked_example :
    Ends
      (IsLinked ram_page 0x12345 0x7000 start)
      (SameElsewhere ram_page 0x12345 start)
      (link_page (flag ram_page) 0x12345 0x7000 start)
link_page-IsLinked_example = link_page-IsLinked ram_page 0x12345 0x7000 start
