-- ===== src/Examples/Listings.antt =====
-- A listing of one thread.
use sanitizers.Base.{
  Mem, trap, ok, ℕ, ◌-◌, ◌≡◌, ◌==◌, if◌then◌else◌, refl, arith, true, false, some, List, [], ◌∷◌,
}
use sanitizers.Tids.{Read, failed, got, walk_entries, and_on, read_all, iterate_tids}
use sanitizers.Tids.Listing.{
  holds_end, holds_entry, Lists, lists_end, lists_more, iterate_tids-Lists,
}

-- Two entries of 24 bytes, `.` and `7`.
abbrev buffer : Mem
buffer a =
    if a == 16
    then 24
    else if a == 19
    then 46
    else if a == 40
    then 24
    else if a == 43
    then 55
    else 0

-- The value of one digit.
abbrev digit : Mem → ℕ → ℕ
digit m a = m a - 48

abbrev reads : List Read
reads = got 48 buffer ∷ got 0 buffer ∷ []

reads-Lists : Lists digit reads (7 ∷ [])
reads-Lists =
    lists_more {nread = 48} {buf = buffer} {places = 0 ∷ 24 ∷ []} (omega arith)
      (holds_entry (omega arith) (omega arith) (holds_entry (omega arith) (omega arith) holds_end))
      lists_end

iterate_tids-Lists_example : iterate_tids digit false reads ≡ ok (some (7 ∷ []))
iterate_tids-Lists_example = iterate_tids-Lists digit reads-Lists

listing_run : iterate_tids digit false reads ≡ ok (some (7 ∷ []))
unfolding iterate_tids read_all and_on walk_entries
listing_run = refl

-- A failed open or read stops the program.
no_directory : iterate_tids digit true reads ≡ trap
unfolding iterate_tids
no_directory = refl

read_failed : iterate_tids digit false (got 48 buffer ∷ failed ∷ []) ≡ trap
unfolding iterate_tids read_all and_on walk_entries
read_failed = refl
