-- ===== src/Lib.antt =====
-- A model of the allocator, with the theorems that make its parts correct.
--
-- The program serves small and medium requests from slabs: include/malloc_config.h fixes the sizes,
-- src/size_class.c maps a request to a bin, src/page.c manages the slots of one 64 KB page through a
-- bump pointer and two free lists, src/segment.c keeps the pages of a 4 MB segment and a registry of
-- all segments, by which a pointer is traced back to its page, src/large.c gives larger requests a
-- mapping of their own, and src/os.c gets the memory. src/arena.c, src/tld.c and src/slab.c share the
-- segments among threads, src/malloc.c has the public functions, src/zone.c hands them to macOS, and
-- src/debug.c checks the heap in debug builds.
--
-- The parts:
-- Common: Boolean tests, words (`u16`, `sub16`, ... write the wrap-around out), C arrays as lists,
-- and the laws of `x & ~(a - 1)` for powers of two (Common/Mask).
-- Config: include/malloc_config.h.
-- Memory: the first word of each free slot, as a function from addresses; Memory/Chain has linked
-- lists in it and counts the occurrences of an address.
-- Atomic: include/malloc_atomic.h, the tagged word and the three stack operations of a thread that
-- runs undisturbed. Atomic/Threads has treiber_push and treiber_collect as steps of any number of threads;
-- `owner` in its states, whose each node is, is no part of the program.
-- SizeClass: src/size_class.c. `SizeClasses` holds the two tables of `global_state_t`;
-- SizeClass/Float has the binary64 arithmetic of size_class_init. `medium_bins` recurs on the bins
-- left, so its count is zero exactly where the loop's own test fails; `search_bin` gets 75 rounds,
-- and `hi - lo` of them suffice.
-- Page: `page_meta_s` and src/page.c, one function for each of its functions, on the page and the
-- memory. The loop of page_collect_remote gets `capacity` rounds; a valid page's remote list is no
-- longer. Page/Invariant says what a valid page is (`IsPage`) and what it is to a client (`Holds`:
-- the slots that callers hold).
-- Registry: the segment registry of src/segment.c, whose loops run 256 rounds.
-- Os: src/os.c. What mmap answers is a parameter (`Kernel`); the calls made are kept in a list,
-- and Os/Aligned replays them.
-- Segment: the rest of src/segment.c. The page table of a segment is a list of 64 pages, and a segment
-- is known by its address; the loops run over the 64 pages.
-- Large: src/large.c. The headers are a function from addresses; a search gets large_alloc_count
-- rounds, the number of headers in the list.
-- Stats: the counting functions of src/slab.c and tld_cleanup of src/tld.c, for one thread and the
-- totals of its arena.
-- Bootstrap: bootstrap_alloc of src/init.c.
-- Init: malloc_init of src/init.c, a step relation of any number of threads on the word `initialized`;
-- the set-up itself is one step, since the other threads only spin meanwhile.
-- Heap: the state that arenas and the slab layer share: segments with their pages, the memory, the
-- arenas. A page's metadata is known by an address in its segment's header. Heap/Valid says what a valid
-- heap is, with the slots that callers hold of each page (`IsHeap`), Heap/Update how it stays valid when a
-- page changes.
-- Arena: src/arena.c but arena_get, each function as one step, since the arena's lock is held. A loop over
-- the pages of a bin or the segments of an arena has fuel; the length of the list suffices. Arena/Scan says
-- what a valid arena is (`IsArena`) and what its operations leave alone (`IsExtended`), Arena/Lists that its
-- bins are doubly linked lists (`IsListed`), which bin_insert_page and bin_remove_page keep (Arena/Listed,
-- Arena/Retire).
-- Thread: what one thread works on, with tld_get of src/tld.c and arena_get of src/arena.c.
-- Slab: src/slab.c, as one thread calls it. The fuel of slab_alloc_inner is that of arena_alloc.
-- Api: src/malloc.c, and malloc_ensure_init of src/init.c. The calls of memset and memcpy are kept in
-- a list. Api/Start has what malloc_ensure_init leaves. Api/Malloc says what a call needs to be served
-- from a bin (`CanServe`), Api/Known what my_realloc does once it knows what a pointer is.
-- Debug: src/debug.c, where MALLOC_DEBUG is 1. The bitmaps stand beside the pages, as a function of the
-- page; abort is a missing result. The walk of a free list gets `capacity` + 2 rounds, one more than the test
-- of its length allows, and the loop over an arena's segments as much fuel as is given.
-- Zone: src/zone.c. Zone/Statistics, Zone/Relief and Zone/Lock have zone_statistics, zone_pressure_relief and
-- the locks; the loop over an arena's segments has fuel, the length of the list suffices.
--
-- Not modelled: the calls of src/debug.c that the other files make where MALLOC_DEBUG is 1, the contents
-- of held slots, interleavings of threads other than in malloc_init and on a Treiber stack, the registration
-- of the zone with the system, and the functions of the zone that do nothing.
mod Common
pub mod Config
pub mod Memory
pub mod Atomic
pub mod SizeClass
pub mod Os
pub mod Page
pub mod Registry
pub mod Large
pub mod Segment
pub mod Stats
pub mod Bootstrap
pub mod Init
pub mod Heap
pub mod Arena
pub mod Thread
pub mod Slab
pub mod Api
pub mod Debug
pub mod Zone
