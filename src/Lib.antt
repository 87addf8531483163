-- ===== src/Lib.antt =====
-- Models of memtagmalloc (memtagmalloc/src), a heap allocator for memory tagging, and of a tool
-- that counts shadow memory (hwaddress-sanitizer/scan.cc).
--
-- The allocator reserves one range of addresses, in two halves. A size of at most the largest size
-- class is rounded up to its class; classes whose size is a multiple of 1024 live in the second
-- half. Memory is taken in super pages of 2 ^ 19 bytes, each of one class, cut into chunks. A byte
-- of state for each chunk says whether it is available, used, in quarantine or marked; it stands
-- at the end of the super page, or for the second half in a separate array. A free changes the tag
-- of the chunk's memory and puts the chunk into quarantine or makes it available at once. When the
-- quarantine is full, a scan marks the quarantined chunks that some used chunk still points to, and
-- the others become available. Larger sizes get a mapping of their own with a header page.
--
-- The files:
-- - Base: Boolean tests, machine words by `% 2 ^ w`, bit masks, lists, the outcome `trap` of TRAP(),
--   __builtin_trap() and assert, and the memory, a function from addresses to bytes.
-- - Layout: the constants and address ranges of memtagmalloc/src/mtmalloc.h.
-- - Util: memtagmalloc/src/mtmalloc_util.h (RoundUpTo, RoundDownTo, IsAligned, IsPowerOfTwo, Log2).
-- - Tids: IterateTIDs of memtagmalloc/src/mtmalloc_util.h, with what open, getdents64 and atoll give
--   as arguments.
-- - Config: memtagmalloc/src/mtmalloc_config.h (MallocConfig::Init, EnvToLong, EnvToBool); getenv
--   and atol are an argument.
-- - SizeClass: memtagmalloc/src/mtmalloc_size_classes.h and, of mtmalloc.h, SizeToSizeClass,
--   ComputeMulForDiv, IsCorrectDivToMul, DivBySizeViaMul, SizeOfInlineMeta, ComputeNumChunks and the
--   loop of InitAll that fills SCDescr.
-- - Shadow: memtagmalloc/src/mtmalloc_shadow.h (FixedShadow; its template parameters are a record).
-- - Tags: memtagmalloc/src/mtmalloc_tags.h (address tags with TBI or with page aliases, memory tags
--   in the software shadow).
-- - SuperPage: struct SuperPage of mtmalloc.h (TryAllocate, ComputeStatePtr, Mark, Deallocate,
--   Quarantine, MarkAllLivePointers, MoveFromQuarantineToAvailable, MaybeReleaseToOs and the
--   counts), with FindByte_Plain for the search; SuperPage.Pext is the search on x86-64, with the
--   instruction of _pext_u64 as an argument, and SuperPage.Pext.Alloc TryAllocate with it. A super page is its address, and all of its state
--   is in the one memory. SuperPage.Contract is what it promises its clients, on chunks instead of
--   bytes, and SuperPage.Serve the operations as answers to lists of requests.
-- - Threads: the same operations on the states of one super page (TryPos, the load and the store of
--   ExchangeAndCheckForDoubleFree, each load, store and compare-and-swap of MaybeReleaseToOs) as
--   steps of any number of threads and the release thread, between scans, with private or shared pages.
-- - Allocator: struct Allocator of mtmalloc.h; Allocator.State its fields, the thread-local state and
--   Statistics, Allocator.Allocate the allocation of chunks and super pages, Allocator.Scans the
--   scans and the limit of the quarantine (Marks, Ranges, Pointers, Live and Passes follow a scan from one
--   value to all super pages, Sweeps what comes after it), Allocator.Kill the signals to the other
--   threads, with what IterateTIDs gives in each round as an argument, Allocator.Release the choices of the release thread.
-- - Session: what one program does with all of this: the invariant of the allocator, the blocks that
--   the program holds, and the histories of its calls and writes (allocate, a write into a held block,
--   allocator_deallocate, quarantine_and_maybe_scan). Frames, Grows, Allocates, Serves, Frees, Scans
--   and Writes say what each call keeps, History, Service and Contents what holds after any history
--   of one thread, for sizes up to the largest class.
-- - Large: memtagmalloc/src/mtmalloc_large.h (LargeAllocator), with mmap as an argument.
-- - Malloc: memtagmalloc/src/mtmalloc.cpp (__mtm_access, malloc, free, calloc, realloc,
--   posix_memalign).
-- - ShadowPages: hwaddress-sanitizer/scan.cc (find_map, do_magic); ShadowPages.Maps is read_maps and the search of main for the shadows,
--   with what the regular expressions match as an argument, and ShadowPages.Flags PageFlagsReader
--   with the loop of scan over the entries of the page map; what /proc/kpageflags gives is an argument.
-- - Examples: tests, and the theorems at concrete inputs.
--
-- Components meet in the memory: SuperPage reads and writes states, and calls Shadow for the class of
-- a super page and Tags for the tags of a chunk; Allocator finds the super page of an address and
-- calls SuperPage; Malloc chooses between Allocator and Large. A record Env carries what is fixed
-- after the start: the target, the flags and the table of size classes.
--
-- Bounds: a `size_t` wraps at 2 ^ 64, `uint32_t` at 2 ^ 32, `uint8_t` at 2 ^ 8. Loops over a known
-- number of elements recurse on that number. InitAll's search for a size that divides exactly has
-- one round for each class, which is enough since no size of the table needs it. A scan of n super
-- pages has n / 1024 + 2 batches, which is enough for all of them and for the batch that finds the
-- end. IterateTIDs has a round for each byte of its buffer, which is enough for entries of positive
-- lengths (Tids.Listing). AllocateSlower has two rounds, one over the super pages there are and one
-- with the new one, which are enough where the system grants memory (Allocator.Allocate.Returns).
-- FindByte_PEXT has
-- eight rounds for the bits of a mask, of which each takes one. KillAllThreadsButMyself has a round
-- for each entry of its array, since every round but the last one fills an entry
-- (Allocator.Kill.Ends).
--
-- Not modelled: hardware tags (the build is one without __ARM_FEATURE_MEMORY_TAGGING), the search
-- FindByte_AVX256, which nothing calls, several threads at once outside of Threads (atomic
-- operations are plain ones, other threads get the signal of a scan but do not help with it), weak memory orders, signal
-- handlers, the pauses of the release thread, thread-specific data, printing, what the program
-- reads from /proc, and system calls, which are arguments where their result matters.
pub mod Base
pub mod Util
pub mod Tids
pub mod Layout
pub mod SizeClass
pub mod Shadow
pub mod Config
pub mod Tags
pub mod SuperPage
pub mod Large
pub mod Allocator
pub mod Malloc
pub mod Session
pub mod Threads
pub mod ShadowPages
mod Examples
