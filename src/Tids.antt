-- ===== src/Tids.antt =====
-- `IterateTIDs` of memtagmalloc/src/mtmalloc_util.h, which lists the threads of the process from
-- /proc/self/task. What open and getdents64 give are arguments, and so is atoll.
pub mod Listing
use sanitizers.Base.{
  Mem, Outcome, ok, trap, trap_if, ◌>>◌, leb, ◌==◌, if◌then◌else◌, ℕ, zero, suc, ◌+◌, ◌*◌, Bool,
  Option, none, some, List, [], ◌∷◌, ◌++◌,
}

-- The fields of a `linux_dirent64` at an address of the buffer: the length of the entry, two bytes
-- behind the two of 8, and the name behind the type.
abbrev pub d_reclen : Mem → ℕ → ℕ
d_reclen buf d = buf (d + 16) + 256 * buf (d + 17)

abbrev pub d_name : ℕ → ℕ
d_name d = d + 19

-- What getdents64 gives: an error, or a number of bytes and the buffer.
pub data Read : Type 0 where
  failed : Read
  got : ℕ → Mem → Read

-- The loop over the entries of a buffer, `rounds` of them at most; `none` if that is not its end.
-- The callback is called for the listed numbers.
unfoldable pub walk_entries : (Mem → ℕ → ℕ) → ℕ → Mem → ℕ → ℕ → List ℕ → Option (List ℕ)
walk_entries atoll zero buf nread bpos tids = if leb nread bpos then some tids else none
walk_entries atoll (suc rounds) buf nread bpos tids =
    let called : List ℕ =
      if buf (d_name bpos) == 46 then tids else tids ++ (atoll buf (d_name bpos) ∷ []) in
    let rest = walk_entries atoll rounds buf nread (bpos + d_reclen buf bpos) called in
    if leb nread bpos then some tids else rest

unfoldable pub and_on :
    Option (List ℕ) → (List ℕ → Outcome (Option (List ℕ))) → Outcome (Option (List ℕ))
and_on none next = ok none
and_on (some tids) next = next tids

-- The endless loop; `none` if what was read has no end. Each entry takes a byte at least, so `nread`
-- rounds are enough for a buffer (Listing).
unfoldable pub read_all : (Mem → ℕ → ℕ) → List Read → List ℕ → Outcome (Option (List ℕ))
read_all atoll [] tids = ok none
read_all atoll (failed ∷ reads) tids = trap
read_all atoll (got nread buf ∷ reads) tids =
    let rest : List ℕ → Outcome (Option (List ℕ)) = read_all atoll reads in
    if nread == 0 then ok (some tids) else and_on (walk_entries atoll nread buf nread 0 tids) rest

unfoldable pub iterate_tids : (Mem → ℕ → ℕ) → Bool → List Read → Outcome (Option (List ℕ))
iterate_tids atoll open_failed reads = do trap_if open_failed; read_all atoll reads []
