-- ===== src/Lib.antt =====
-- Verification of clearram, a kernel module that zero-fills the physical RAM of an amd64 machine
-- from a map of its own.
--
-- On loading, cr_host_lkm_init() (clearram.c) walks the RAM of the machine and maps it from
-- virtual address 0 on: cr_amd64_map_pages_unaligned() (subr_map.c) cuts each range of page frames
-- into aligned blocks, in passes for 1G, 2M and 4K, and cr_amd64_map_pages_aligned() writes the
-- page tables, whose entries cr_amd64_init_page_ent() (subr_amd64.c) makes. Each page is entered
-- into a tree by page frame number (subr_host.c), page tables also into a list of reserved pages,
-- which are taken out of the map again. On a write to the device all other CPUs are stopped, the
-- map, the GDT and the IDT are loaded, and cr_clear_clear() (subr_clear.c) clears everything below
-- `clear_va_top` and executes `ud2`; a fault on a page that is not mapped is skipped by
-- cr_clear_cpu_exception(), while page 0 is there for its entry to read.
--
-- The files, from bottom to top:
--   Base and Base/*: machine words with their wrap-around (Word), bit operations (Bits), bit fields
--     of packed structs (BitField), results of functions that may fail (Status, Postcondition).
--   Map/Layout: the constants and address macros of mapdef.h.
--   Map/Block: get_block_first, get_block_last, align_block_limit and the conditions of the loop of
--     cr_amd64_map_pages_unaligned(); Map/Unaligned: the loop itself, with the mapping of one
--     block as a parameter; Map/Aligned: cr_amd64_map_pages_aligned(), with the functions that it
--     takes as pointers as parameters, whose laws are the interface Map/Aligned/Source; Map/Walk: a
--     page walk, as the processor does it, which is the specification of the page tables;
--     Map/Clone: cr_amd64_map_pages_clone4K().
--   Amd64/PageEnt: page table entries; Amd64/Descriptors: GDT and IDT;
--     Amd64/Exception: the instructions of the exception entry and exit; Amd64/Vectors: the wrappers
--     and the way to them through the IDT; Amd64/Ports, Amd64/Delay and
--     Amd64/Cpuid: writes to ports, cr_amd64_msleep() and the page sizes by CPUID.
--   Host/Kernel: the page allocator, as the list of its results; Host/Malloc: cr_host_malloc();
--     Host/ReservedList: cr_host_list_append() and cr_host_list_free(); Host/PagesTree: the tree and
--     cr_host_map_xlate_pfn(); Host/Link: crp_host_map_link_page() and its callers;
--     Host/AllocPt: cr_host_map_alloc_pt(), and the host's functions as a Source.
--   Linux/PmapWalk: cr_host_pmap_walk() of subr_Linux.c, on the kernel's list of resources;
--     Linux/StopCpus: cr_host_cpu_stop_all() and crp_host_cpu_stop_one() as interleaved steps;
--     Linux/VirtToPhys: cr_host_virt_to_phys(); Linux/Cdev: cr_host_cdev_init() and
--     cr_host_lkm_exit(); Linux/CdevWrite: cr_host_cdev_write() and cr_clear_cpu_entry().
--   FreeBsd/PmapWalk: cr_host_pmap_walk() of subr_FreeBSD.c.
--   Lkm: cr_host_lkm_init() in parts: its start (Setup), the walks over all RAM (MapRam), also with
--     the functions that it hands on (RamMapped), the loops that take pages out of the map again
--     (Unmap), and the whole call with its error path (Init), of which Init/ProgramMap and
--     Init/Builds show the map that it leaves.
--   Clear/Vga: the output; Clear/Regs and Clear/State: registers and state; Clear/Exception: the
--     handlers; Clear/Fill: the instruction that clears with its faults, and cr_clear_clear();
--     Clear/CpuSetup: cr_clear_cpu_setup(), on the registers of the processor; Clear/Entry:
--     crp_clear_cpu_entry() and cr_clear_vga_reset(); Clear/Halt: crp_clear_halt() with its waits,
--     of which Clear/Fill has the messages.
-- A component's file holds its definitions, named as in the C code without the prefix, and the
-- files below it what is shown of them; Tests run them on concrete values.
--
-- Numbers are ℕ, and an operation on a 64-bit variable is cut to 64 bits where it is written. A
-- pointer that a function writes through is a field of its result. The C state is split into the
-- records HostState and ClearState, which hold the fields that the code of a part works on.
--
-- Bounds and fuel: a pass of cr_amd64_map_pages_unaligned() takes at most three rounds, and its
-- loop has four; a walk over RAM has a round for each resource and one more. The loop of
-- cr_clear_clear() has a round for each 256 MB below `clear_va_top`, and the last test; one `rep
-- stosq` has a step for each quadword below `clear_va_top`, and the fault at the end of the map.
-- cr_amd64_map_pages_aligned() has four rounds for each frame, three of them to reach a new
-- table of pages, and five more. cr_amd64_msleep() takes an answer of the timer in each round, and
-- has a round for each answer and one more.
--
-- Not modelled: the exceptions that follow the `ud2` of crp_clear_halt() and of the exception
-- entry, and DEBUG; messages to the kernel log; the other functions of subr_FreeBSD.c, since the
-- module does not build there; the functions of clearram-Linux.c and subr_Linux.c that only hand on
-- a call; cr_host_map_free(), which is empty.
pub mod Base
pub mod Map
pub mod Amd64
pub mod Host
pub mod Linux
pub mod FreeBsd
pub mod Lkm
pub mod Clear
