-- ===== src/Host/AllocPt.antt =====
-- cr_host_map_alloc_pt() of subr_host.c: a page of the kernel becomes a table, the entry leads to it,
-- and the page is linked. cr_host_virt_to_phys() is a parameter.
pub mod Supplied
pub mod Lawful
pub mod Allocates
pub mod HostSource
pub mod Linked
use clearram.Base.{ℕ, Bool, if◌then◌else◌, Outcome, ◌==◌, failed, enomem, done}
use clearram.Amd64.PageEnt.{init_page_ent}
use clearram.Host.Kernel.{Supply, vmalloc}
use clearram.Host.PagesTree.{ptl_page_table}
use clearram.Host.Link.{HostState, link_page}
use clearram.Map.Aligned.{Entries, Tables, NewTable, write_entry, try_in}

-- The memset() of cr_host_vmalloc() on the page of a table.
abbrev pub zero_table : (table : ℕ) → Entries → Entries
zero_table table entries q j = if q == table then 0 else entries q j

-- `*ppt_next` has no value where no page is left: 0 stands for it.
unfoldable pub alloc_pt :
    (virt_to_phys : ℕ → ℕ) (extra_bits pages_nx : ℕ) (va level : ℕ) (map_direct : Bool)
    (table idx : ℕ)
    → Tables HostState
    → Outcome (NewTable HostState)
alloc_pt virt_to_phys extra_bits pages_nx va level map_direct table idx t =
    let got = vmalloc t.host.supply in
    let host = record t.host { supply = got.supply } in
    let pt_next_pfn = virt_to_phys got.p in
    let pe = init_page_ent pt_next_pfn extra_bits pages_nx level map_direct in
    let with_entry : HostState → NewTable HostState = λ h. record {
      pt_next = got.p;
      tables = record {
        entries = write_entry table idx pe (zero_table got.p t.entries);
        va_base = t.va_base;
        host = h;
      };
    } in
    if got.p == 0
    then failed enomem (record { pt_next = 0; tables = record t { host = host } })
    else try_in (link_page ptl_page_table pt_next_pfn got.p host) with_entry
        λ (h : HostState). done (with_entry h)
