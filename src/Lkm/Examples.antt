-- ===== src/Lkm/Examples.antt =====
-- Runs of the mapping functions on a kernel whose free pages follow each other, and the theorems
-- about them there.
use clearram.Base.{
  ℕ, zero, suc, refl, inl, inr, [], ◌∷◌, none, done, arith, ◌+◌, List, ◌/◌, ◌≤◌, Ends, ◌*◌, ◌<◌,
  ◌%◌, ◌^◌, Outcome, ◌≡◌, false,
}
use clearram.Host.Kernel.{Supply}
use clearram.Host.Link.{
  HostState, link_page, link_ram_page, ensure_leaf, fill_leaf, update_leaf, reserve, mark_pt,
  mark_ram, mark_rsvd,
}
use clearram.Host.PagesTree.{create_nodes, descend, leaf_at, set_leaf, xlate_pfn, leaf_va}
use clearram.Host.Malloc.{malloc}
use clearram.Host.ReservedList.{list_append, list_room, list_link}
use clearram.Host.AllocPt.{alloc_pt}
use clearram.Map.Layout.{va_to_pe_idx, va_incr}
use clearram.Amd64.PageEnt.{init_page_ent}
use clearram.Map.Walk.{walk}
use clearram.Map.Aligned.Descend.{mapped_at}
use clearram.Host.AllocPt.Lawful.{IsIn, IsSeparate, xlate_table, IsHost, Used}
use clearram.Host.AllocPt.HostSource.{host_source, alloc_pt-Ends}
use clearram.Linux.PmapWalk.{Resource, sections}
use clearram.Map.Unaligned.Spec.{blocks_1g, blocks_2m, blocks_4k}
use clearram.Map.Aligned.Blocks.{frames}
use clearram.Lkm.MapRam.Laws.{ram_blocks}
use clearram.Map.Aligned.{Tables, map_pages_aligned, aligned_rounds, next_table, fill_table}
use clearram.Map.Aligned.Fill.{params_4k}
use clearram.Map.Aligned.Source.{Source, Grows, IsAllocated}
use clearram.Map.Aligned.Rounds.{Reaches}
use clearram.Map.Aligned.Maps.{map_pages_aligned-Reaches}
use clearram.Map.Aligned.Blocks.{mapper}
use clearram.Map.Clone.{map_pages_clone4k}
use clearram.Map.Clone.Copies.{CloneEnds, map_pages_clone4k-CloneEnds}
use clearram.Lkm.MapRam.{map_ram}
use clearram.Lkm.Setup.{init_tables}
use clearram.Lkm.Setup.Start.{init_tables-IsSound, root_labels}
use clearram.Lkm.RamMapped.{IsAllRam, map_ram-IsAllRam}

abbrev pub frame_of : ℕ → ℕ
frame_of va = va / 4096 % 2 ^ 36

abbrev pub pages_from : (n p : ℕ) → Supply
pages_from zero p = []
pages_from (suc n) p = p ∷ pages_from n (p + 4096)

from_on : (n p q : ℕ) → IsIn q (pages_from n p) → (p ≤ q) × (q < p + n * 4096)
from_on zero p q at = absurd at
from_on (suc n) p q (inl same) = omega (arith, same)
from_on (suc n) p q (inr at) = omega (arith, from_on n (p + 4096) q at)

pages_from-IsSeparate : (n p : ℕ) → p + n * 4096 < 2 ^ 47 → IsSeparate frame_of (pages_from n p)
unfolding IsSeparate
pages_from-IsSeparate zero p room = tt
pages_from-IsSeparate (suc n) p room = (
  λ pos. (omega arith, λ q pos' at same. omega (arith, same, from_on n (p + 4096) q at)),
  pages_from-IsSeparate n (p + 4096) (omega arith),
)

abbrev pub free_pages : Supply
free_pages = pages_from 24 0x200000

abbrev pub pml4 : ℕ
pml4 = 0x100000

pub free_pages-IsSeparate : IsSeparate frame_of free_pages
free_pages-IsSeparate = pages_from-IsSeparate 24 0x200000 (omega arith)

pub pml4_taken : IsIn pml4 free_pages → ⊥
pml4_taken at = omega (arith, from_on 24 0x200000 pml4 at)

abbrev source : Source HostState
source = host_source frame_of 0x12 1 (omega arith) (omega arith)

abbrev tables : Tables HostState
tables = init_tables frame_of pml4 free_pages

map_pages_aligned-Reaches_example :
    Ends
      (Reaches source pml4 0x12 1 3 0x1234 tables)
      (λ u. Unit {0})
      (map_pages_aligned
        (params_4k 0x12 1)
        source.link_ram_page
        source.alloc_pt
        source.xlate_table
        0x1237
        pml4
        0x1234
        tables)
unfolding init_tables
map_pages_aligned-Reaches_example =
    map_pages_aligned-Reaches source pml4 0x12 1 0x1237 (omega arith) (root_labels pml4) 0x1234
      tables (omega arith) (inl (omega arith)) (λ p low high. (omega arith, λ e. omega (arith, e)))
      (init_tables-IsSound frame_of 0x12 1 (omega arith) (omega arith) pml4 free_pages
        free_pages-IsSeparate (omega arith) pml4_taken)

map_pages_clone4k-CloneEnds_example :
    Ends
      (CloneEnds source pml4 0x12 1 frame_of
        (λ va. omega arith)
        2
        0xffffffffa0000000
        0xffffffffa0000000
        none
        tables)
      (λ c. Unit {0})
      (map_pages_clone4k 0x12 1 source.link_ram_page source.alloc_pt source.xlate_table frame_of
        pml4 0xffffffffa0000000 none 2 tables)
map_pages_clone4k-CloneEnds_example =
    map_pages_clone4k-CloneEnds source pml4 0x12 1 frame_of (λ va. omega arith) 2 0xffffffffa0000000
      0xffffffffa0000000 none (root_labels pml4) tables refl (inr (omega arith)) (inr (omega arith))
      (λ p low high. (omega arith, λ e. omega (arith, e)))
      (init_tables-IsSound frame_of 0x12 1 (omega arith) (omega arith) pml4 free_pages
        free_pages-IsSeparate (omega arith) pml4_taken)

abbrev pub resource : ℕ → ℕ → Resource
resource s e = record { start = s; end = e; flags = 0x81000200 }

abbrev machine : List Resource
machine = resource 0x1000 0x3fff ∷ resource 0x100000 0x100fff ∷ []

four_frames : frames (ram_blocks (sections 0x81000000 machine)) ≡ 4
unfolding blocks_1g blocks_2m blocks_4k
four_frames = refl

map_ram-IsAllRam_example :
    Ends
      (IsAllRam frame_of 0x12 1
        (omega arith)
        (omega arith)
        pml4
        free_pages
        free_pages-IsSeparate
        (omega arith)
        pml4_taken
        0x81000000
        machine)
      (λ u. Unit {0})
      (map_ram (mapper source pml4 0x12 1) 0x81000000 machine tables)
map_ram-IsAllRam_example =
    map_ram-IsAllRam frame_of 0x12 1 (omega arith) (omega arith) pml4 free_pages
      free_pages-IsSeparate (omega arith) pml4_taken 0x81000000 machine (omega (arith, four_frames))

-- The entry that a page walk finds behind a call.
abbrev found : Outcome (Tables HostState) → ℕ → ℕ
found (done t) page = mapped_at source pml4 t page
found _ page = 1

-- The last frame is that of the second range.
ram_run :
    let after =
      map_pages_aligned
        (params_4k 0x12 1)
        source.link_ram_page
        source.alloc_pt
        source.xlate_table
        0x101
        pml4
        0x100
        tables in
    (found after 0 ≡ 0x8000000000100013) × (found after 1 ≡ 0)
unfolding map_pages_aligned aligned_rounds next_table fill_table init_page_ent va_to_pe_idx va_incr
    init_tables host_source alloc_pt link_page link_ram_page create_nodes descend ensure_leaf
    fill_leaf update_leaf reserve mark_pt mark_ram mark_rsvd leaf_at set_leaf malloc list_append
    xlate_pfn xlate_table walk leaf_va list_room list_link
ram_run = (refl, refl)

alloc_pt-Ends_example :
    Ends
      (λ n.
        IsHost frame_of n.tables.host
        × Grows xlate_table (Used frame_of) tables.host n.tables.host
        × IsAllocated xlate_table (Used frame_of) pml4 0 tables n)
      (λ n. Unit {0})
      (alloc_pt frame_of 0x12 1 0 4 false pml4 0 tables)
unfolding init_tables Used host_source
alloc_pt-Ends_example =
    alloc_pt-Ends frame_of 0x12 1 (omega arith) (omega arith) 0 4 pml4 0 tables
      (init_tables-IsSound frame_of 0x12 1 (omega arith) (omega arith) pml4 free_pages
        free_pages-IsSeparate (omega arith) pml4_taken).valid
      (omega arith, pml4_taken)
