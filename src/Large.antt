-- ===== src/Large.antt =====
-- `LargeAllocator` of memtagmalloc/src/mtmalloc_large.h. `mmap` gives, for a memory and a length,
-- the address of a new mapping and the memory with it; the calls of `munmap` are returned as the
-- list of their ranges, an address and a length each. The verbose output is left out.
pub mod Headers
pub mod Placing
pub mod Alloc
pub mod Wrap
use sanitizers.Base.{
  Mem, load64, store64, Outcome, ok, ◌>>=◌, ◌>>◌, trap_if, check, ltb, leb, ◌==◌, if◌then◌else◌,
  add64, sub64, ℕ, ◌-◌, ◌^◌, Bool, not, ◌&&◌, List, [], ◌∷◌, ◌++◌,
}
use sanitizers.Util.{round_up_to}

abbrev pub cpu_page_size : ℕ
cpu_page_size = 2 ^ 12

abbrev pub left_header_magic : ℕ
left_header_magic = 0x039C823525B0237E

abbrev pub right_header_magic : ℕ
right_header_magic = 0x1C2C5300098D85AD

abbrev pub Mmap : Type 0
Mmap = Mem → ℕ → ℕ × Mem

-- A pointer, the ranges given back and the memory.
abbrev pub Mapped : Type 0
Mapped = ℕ × List (ℕ × ℕ) × Mem

unfoldable pub write_header : Mem → ℕ → ℕ → Mem
write_header m hdr size =
    store64 (store64 (store64 m hdr left_header_magic) (add64 hdr 8) size) (add64 hdr 16)
      right_header_magic

-- The range between two addresses, if the first is lower.
unfoldable pub slack : ℕ → ℕ → List (ℕ × ℕ)
slack first last = if ltb first last then (first, sub64 last first) ∷ [] else []

unfoldable pub place : ℕ → ℕ → ℕ → ℕ → Mem → Outcome Mapped
place alignment rounded_size with_slack start m =
    let end_map = add64 start with_slack in
    let ret = round_up_to (add64 start 1) alignment in
    let end_ = add64 ret rounded_size in
    let hdr = sub64 ret cpu_page_size in
    do
      trap_if (start == 2 ^ 64 - 1)
      check (ltb start ret)
      check (leb end_ end_map)
      check (leb start hdr)
      ok (
        add64 hdr cpu_page_size,
        slack start hdr ++ slack end_ end_map,
        write_header m hdr (add64 rounded_size cpu_page_size),
      )

unfoldable pub slack_for_alignment : ℕ → ℕ → ℕ
slack_for_alignment size_with_header alignment =
    if ltb cpu_page_size alignment then add64 size_with_header alignment else size_with_header

unfoldable pub effective_alignment : ℕ → ℕ
effective_alignment given = if ltb given cpu_page_size then cpu_page_size else given

-- The length that `Allocate` passes to `mmap`.
unfoldable pub mapping_length : ℕ → ℕ → ℕ
mapping_length size given =
    slack_for_alignment (add64 (round_up_to size cpu_page_size) cpu_page_size)
      (effective_alignment given)

unfoldable pub large_allocate : Mmap → Mem → ℕ → ℕ → Outcome Mapped
large_allocate mmap m size given =
    let n = mapping_length size given in
    let (start, m') = mmap m n in
    place (effective_alignment given) (round_up_to size cpu_page_size) n start m'

unfoldable pub get_header : Mem → ℕ → Outcome ℕ
get_header m ptr =
    let header = sub64 ptr cpu_page_size in
    do
      trap_if (
          not (load64 m header == left_header_magic)
          && not (load64 m (add64 header 16) == right_header_magic))
      ok header

unfoldable pub large_chunk_size : Mem → ℕ → Outcome ℕ
large_chunk_size m ptr = do
  header ← get_header m ptr
  ok (sub64 (load64 m (add64 header 8)) cpu_page_size)

-- The address, the length and the kind of the one system call that `Deallocate` makes: a mapping
-- without access over the range if `protect`, else `munmap`.
unfoldable pub large_deallocate : Mem → ℕ → Bool → Outcome (ℕ × ℕ × Bool)
large_deallocate m ptr protect = do
  header ← get_header m ptr
  ok (header, load64 m (add64 header 8), protect)
