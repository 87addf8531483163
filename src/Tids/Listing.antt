-- ===== src/Tids/Listing.antt =====
-- The callback of `IterateTIDs` is called for each entry, in order, but for those whose names begin with a
-- dot.
use mathlib.Core.List.{append-nil, append_assoc}
use sanitizers.Base.{
  Mem, ok, le→leb, lt→leb, ◌==◌, if◌then◌else◌, ℕ, zero, suc, ◌+◌, ◌<◌, ◌≤◌, ◌≡◌, sym, ap, ◌∙◌,
  arith, Bool-cases, inl, inr, false, some, List, [], ◌∷◌, ◌++◌,
}
use sanitizers.Tids.{d_reclen, d_name, Read, got, walk_entries, and_on, read_all, iterate_tids}

-- From `bpos` on, a buffer of `nread` bytes holds entries at these places, none of them empty.
pub data Holds (buf : Mem) (nread : ℕ) : ℕ → List ℕ → Type 0 where
  holds_end : Holds buf nread nread []
  holds_entry :
      {bpos : ℕ} {places : List ℕ}
      → bpos < nread
      → 0 < d_reclen buf bpos
      → Holds buf nread (bpos + d_reclen buf bpos) places
      → Holds buf nread bpos (bpos ∷ places)

-- The numbers of the entries but those of `.` and `..`.
abbrev pub numbers_of : (Mem → ℕ → ℕ) → Mem → List ℕ → List ℕ
numbers_of atoll buf [] = []
numbers_of atoll buf (d ∷ places) =
    let others = numbers_of atoll buf places in
    if buf (d_name d) == 46 then others else atoll buf (d_name d) ∷ others

-- What successive reads list, up to the one that gives nothing.
pub data Lists (atoll : Mem → ℕ → ℕ) : List Read → List ℕ → Type 0 where
  lists_end : {buf : Mem} {reads : List Read} → Lists atoll (got 0 buf ∷ reads) []
  lists_more :
      {nread : ℕ} {buf : Mem} {reads : List Read} {places tids : List ℕ}
      → 0 < nread
      → Holds buf nread 0 places
      → Lists atoll reads tids
      → Lists atoll (got nread buf ∷ reads) (numbers_of atoll buf places ++ tids)

walk_entries-Holds :
    (atoll : Mem → ℕ → ℕ) (rounds : ℕ) (buf : Mem) (nread bpos : ℕ) (places tids : List ℕ)
    → nread ≤ bpos + rounds
    → Holds buf nread bpos places
    → walk_entries atoll rounds buf nread bpos tids ≡ some (tids ++ numbers_of atoll buf places)
unfolding walk_entries
walk_entries-Holds atoll zero buf nread _ _ tids enough holds_end =
    rw (le→leb nread nread (omega arith)) (ap some (sym (append-nil tids)))
walk_entries-Holds atoll zero buf nread _ _ tids enough (holds_entry lt positive holds) =
    absurd (omega arith)
walk_entries-Holds atoll (suc rounds) buf nread _ _ tids enough holds_end =
    rw (le→leb nread nread (omega arith)) (ap some (sym (append-nil tids)))
walk_entries-Holds atoll (suc rounds) buf nread _ _ tids enough
      (holds_entry {bpos} {places} lt positive holds) =
    elim (Bool-cases (buf (d_name bpos) == 46)) [
      | inl dot ↦
          rw (lt→leb nread bpos lt, dot)
            (walk_entries-Holds atoll rounds buf nread (bpos + d_reclen buf bpos) places tids
              (omega arith) holds)
      | inr other ↦
          rw (lt→leb nread bpos lt, other)
            (walk_entries-Holds atoll rounds buf nread (bpos + d_reclen buf bpos) places
                (tids ++ (atoll buf (d_name bpos) ∷ [])) (omega arith) holds
              ∙ ap some
                  (append_assoc tids (atoll buf (d_name bpos) ∷ []) (numbers_of atoll buf places)))
    ]

read_all-Lists :
    (atoll : Mem → ℕ → ℕ) {reads : List Read} {listed : List ℕ} (tids : List ℕ)
    → Lists atoll reads listed
    → read_all atoll reads tids ≡ ok (some (tids ++ listed))
unfolding read_all and_on
read_all-Lists atoll tids lists_end = ap (λ l. ok (some l)) (sym (append-nil tids))
read_all-Lists atoll tids
      (lists_more {nread} {buf} {reads} {places} {tids = listed} some_bytes holds lists) =
    let nonempty : (nread == 0) ≡ false = ground arith in
    rw (nonempty, walk_entries-Holds atoll nread buf nread 0 places tids (omega arith) holds)
      (read_all-Lists atoll (tids ++ numbers_of atoll buf places) lists
        ∙ ap (λ l. ok (some l)) (append_assoc tids (numbers_of atoll buf places) listed))

-- Where /proc/self/task opens and the reads, up to one that gives no byte, hold entries of positive
-- lengths, `IterateTIDs` comes to its end, and its callback is called for the numbers of all
-- entries, in order, but for those whose names begin with a dot.
pub iterate_tids-Lists :
    (atoll : Mem → ℕ → ℕ) {reads : List Read} {listed : List ℕ}
    → Lists atoll reads listed
    → iterate_tids atoll false reads ≡ ok (some listed)
unfolding iterate_tids
iterate_tids-Lists atoll lists = read_all-Lists atoll [] lists
