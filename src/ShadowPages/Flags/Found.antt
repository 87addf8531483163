-- ===== src/ShadowPages/Flags/Found.antt =====
-- The pages that `scan` of hwaddress-sanitizer/scan.cc finds, whatever flags are kept.
use sanitizers.Base.{
  Outcome, ok, trap, ◌>>=◌, ◌==◌, ==_iff, ==_refl, if◌then◌else◌, add64, ℕ, ◌/◌, ◌%◌, ◌^◌, ◌≡◌, ◌≢◌,
  refl, ap, sym, ◌∙◌, Bool, true, false, Bool-cases, not, ◌&&◌, Option, none, some, List, [], ◌∷◌,
  ◌++◌, map, inl, inr,
}
use mathlib.Core.List.{append_assoc, append-nil}
use sanitizers.ShadowPages.Flags.{
  Flags, find_flags, load_flags, found_or, looked_up, get_flags, zero_page, is_resident, frame_of,
  is_pushed, scan_pages,
}

-- What is kept is what the file holds.
abbrev pub IsCopy : (ℕ → Option ℕ) → Flags → Type 0
IsCopy kpageflags flags = (pfn x : ℕ) → find_flags flags pfn ≡ some x → kpageflags pfn ≡ some x

-- The entries with the addresses of their pages.
unfoldable pub pages_at : ℕ → List ℕ → List (ℕ × ℕ)
pages_at addr [] = []
pages_at addr (v ∷ vs) = (addr, v) ∷ pages_at (add64 addr 4096) vs

-- The elements that pass a test.
unfoldable pub pick {ℓ} : {A : Type ℓ} → (A → Bool) → List A → List A
pick test [] = []
pick test (x ∷ xs) = let rest = pick test xs in if test x then x ∷ rest else rest

-- Bit 24 of the flags that the file holds for a page frame.
abbrev pub is_zero : Option ℕ → Bool
is_zero none = false
is_zero (some x) = x / 2 ^ 24 % 2 == 1

-- An entry of a resident page that is not the zero page.
abbrev pub counts : (ℕ → Option ℕ) → ℕ × ℕ → Bool
counts kpageflags page = is_resident page.1 && not (is_zero (kpageflags (frame_of page.1)))

pub data IsEntry (v : ℕ) : List ℕ → Type 0 where
  here : {vs : List ℕ} → IsEntry v (v ∷ vs)
  there : {v' : ℕ} {vs : List ℕ} → IsEntry v vs → IsEntry v (v' ∷ vs)

-- What a scan gives: it stops at a resident page whose flags cannot be read, or all can be read and it
-- appends the addresses of the resident pages that are not the zero page, in order.
pub data Found (kpageflags : ℕ → Option ℕ) (addr : ℕ) (entries pages : List ℕ)
    : Outcome (List ℕ × Flags) → Type 0 where
  unreadable :
      (v : ℕ)
      → IsEntry v entries
      → is_resident v ≡ true
      → kpageflags (frame_of v) ≡ none
      → Found kpageflags addr entries pages trap
  found :
      (pages' : List ℕ) (flags : Flags)
      → ((v : ℕ) → IsEntry v entries → is_resident v ≡ true → kpageflags (frame_of v) ≢ none)
      → pages' ≡ pages ++ map (λ page. page.0) (pick (counts kpageflags) (pages_at addr entries))
      → IsCopy kpageflags flags
      → Found kpageflags addr entries pages (ok (pages', flags))

-- What the loop learns of one entry.
data Entry (kpageflags : ℕ → Option ℕ) (addr v : ℕ) : Outcome (Bool × Flags) → Type 0 where
  entry_unreadable :
      is_resident v ≡ true → kpageflags (frame_of v) ≡ none → Entry kpageflags addr v trap
  entry_read :
      (pushed : Bool) (flags : Flags)
      → (is_resident v ≡ true → kpageflags (frame_of v) ≢ none)
      → counts kpageflags (addr, v) ≡ pushed
      → IsCopy kpageflags flags
      → Entry kpageflags addr v (ok (pushed, flags))

some-injective : {x y : ℕ} → some x ≡ some y → x ≡ y
some-injective e = cc

some-none : {o : Option ℕ} {x : ℕ} → o ≡ some x → o ≢ none
some-none e e' = cc

true-false : true ≢ false
true-false e = cc

no-IsEntry : {v : ℕ} → ¬ IsEntry v []
no-IsEntry at = elim at [ ]

-- All entries can be read if the first and the others can.
all_read :
    (kpageflags : ℕ → Option ℕ) (vs : List ℕ) (v : ℕ)
    → (is_resident v ≡ true → kpageflags (frame_of v) ≢ none)
    → ((v' : ℕ) → IsEntry v' vs → is_resident v' ≡ true → kpageflags (frame_of v') ≢ none)
    → (v' : ℕ) → IsEntry v' (v ∷ vs)
    → is_resident v' ≡ true
    → kpageflags (frame_of v') ≢ none
all_read kpageflags vs v first others _ here = first
all_read kpageflags vs v first others v' (there at) = others v' at

module _ (kpageflags : ℕ → Option ℕ) where
  IsCopy-loaded :
      (flags : Flags) (pfn x : ℕ)
      → kpageflags pfn ≡ some x
      → IsCopy kpageflags flags
      → IsCopy kpageflags ((pfn, x) ∷ flags)
  unfolding find_flags
  IsCopy-loaded flags pfn x held copy q y e = elim (Bool-cases (pfn == q)) [
    | inl same ↦
        let at_head = rw same at e in
        let at_q : pfn ≡ q = (==_iff pfn q).0 same in ap kpageflags (sym at_q) ∙ held ∙ at_head
    | inr other ↦ let behind = rw other at e in copy q y behind
  ]

  -- `GetFlags` gives what the file holds, or stops where it holds nothing.
  get_flags_found :
      (flags : Flags) (pfn x : ℕ)
      → find_flags flags pfn ≡ some x
      → get_flags kpageflags flags pfn ≡ ok (x, flags)
  unfolding get_flags looked_up
  get_flags_found flags pfn x e = rw e refl

  get_flags_unreadable :
      (flags : Flags) (pfn : ℕ)
      → find_flags flags pfn ≡ none
      → kpageflags pfn ≡ none
      → get_flags kpageflags flags pfn ≡ trap
  unfolding get_flags looked_up load_flags
  get_flags_unreadable flags pfn e e' = rw (e, e') refl

  get_flags_loaded :
      (flags : Flags) (pfn x : ℕ)
      → find_flags flags pfn ≡ none
      → kpageflags pfn ≡ some x
      → get_flags kpageflags flags pfn ≡ ok (x, (pfn, x) ∷ flags)
  unfolding get_flags looked_up load_flags find_flags found_or
  get_flags_loaded flags pfn x e e' = rw (e, e', ==_refl pfn) refl

  pushed_at :
      (flags flags' : Flags) (addr v x : ℕ)
      → is_resident v ≡ true
      → kpageflags (frame_of v) ≡ some x
      → get_flags kpageflags flags (frame_of v) ≡ ok (x, flags')
      → IsCopy kpageflags flags'
      → Entry kpageflags addr v (is_pushed kpageflags flags v)
  unfolding is_pushed zero_page
  pushed_at flags flags' addr v x resident held eq copy =
      rw (resident, eq) (entry_read _ flags' (λ e. some-none held) (rw (resident, held) refl) copy)

  pushed_first :
      (flags : Flags) (addr v : ℕ) (kept file : Option ℕ)
      → is_resident v ≡ true
      → find_flags flags (frame_of v) ≡ kept
      → kpageflags (frame_of v) ≡ file
      → IsCopy kpageflags flags
      → Entry kpageflags addr v (is_pushed kpageflags flags v)
  unfolding is_pushed zero_page
  pushed_first flags addr v (some x) file resident e e' copy =
      pushed_at flags flags addr v x resident (copy (frame_of v) x e)
        (get_flags_found flags (frame_of v) x e) copy
  pushed_first flags addr v none (some x) resident e e' copy =
      pushed_at flags ((frame_of v, x) ∷ flags) addr v x resident e'
        (get_flags_loaded flags (frame_of v) x e e') (IsCopy-loaded flags (frame_of v) x e' copy)
  pushed_first flags addr v none none resident e e' copy =
      rw (resident, get_flags_unreadable flags (frame_of v) e e') (entry_unreadable resident e')

  entry_lem :
      (flags : Flags) (addr v : ℕ)
      → IsCopy kpageflags flags
      → Entry kpageflags addr v (is_pushed kpageflags flags v)
  unfolding is_pushed
  entry_lem flags addr v copy = elim (Bool-cases (is_resident v)) [
    | inl resident ↦ pushed_first flags addr v _ _ resident refl refl copy
    | inr absent ↦
        rw absent
          (entry_read false flags (λ e. absurd (true-false (sym e ∙ absent))) (rw absent refl) copy)
  ]

  -- From the pages after one entry to the pages with it.
  with_entry :
      (addr v : ℕ) (vs pages : List ℕ) (pushed : Bool) {out : Outcome (List ℕ × Flags)}
      → (is_resident v ≡ true → kpageflags (frame_of v) ≢ none)
      → counts kpageflags (addr, v) ≡ pushed
      → Found kpageflags (add64 addr 4096) vs (if pushed then pages ++ (addr ∷ []) else pages) out
      → Found kpageflags addr (v ∷ vs) pages out
  unfolding pages_at pick
  with_entry addr v vs pages pushed read e (unreadable v' at resident bad) =
      unreadable v' (there at) resident bad
  with_entry addr v vs pages true read e (found pages' flags all eq copy) =
      found pages' flags (all_read kpageflags vs v read all)
        (rw e (eq ∙ append_assoc pages (addr ∷ []) _)) copy
  with_entry addr v vs pages false read e (found pages' flags all eq copy) =
      found pages' flags (all_read kpageflags vs v read all) (rw e eq) copy

  go_on :
      (addr v : ℕ) (vs pages : List ℕ) {out : Outcome (Bool × Flags)}
      → Entry kpageflags addr v out
      → ((flags : Flags) (pages' : List ℕ)
          → IsCopy kpageflags flags
          → Found kpageflags
              (add64 addr 4096)
              vs
              pages'
              (scan_pages kpageflags flags (add64 addr 4096) vs pages'))
      → Found kpageflags addr (v ∷ vs) pages (
          out >>= λ (pushed, flags').
          let pages' : List ℕ = if pushed then pages ++ (addr ∷ []) else pages in
          scan_pages kpageflags flags' (add64 addr 4096) vs pages')
  go_on addr v vs pages (entry_unreadable resident bad) next = unreadable v here resident bad
  go_on addr v vs pages (entry_read pushed flags read e copy) next =
      with_entry addr v vs pages pushed read e (next flags _ copy)

  -- From kept flags that are what the file holds, for any entries: if the flags of some resident page
  -- cannot be read, an assertion stops the scan; otherwise it ends, appends the addresses of the
  -- resident pages that are not the zero page, each entry's own and in order, and what is kept is still
  -- what the file holds.
  pub scan_pages-Found :
      (flags : Flags) (addr : ℕ) (entries pages : List ℕ)
      → IsCopy kpageflags flags
      → Found kpageflags addr entries pages (scan_pages kpageflags flags addr entries pages)
  unfolding scan_pages pages_at pick
  scan_pages-Found flags addr [] pages copy =
      found pages flags (λ v at. absurd (no-IsEntry at)) (sym (append-nil pages)) copy
  scan_pages-Found flags addr (v ∷ vs) pages copy =
      go_on addr v vs pages (entry_lem flags addr v copy)
        (λ flags' pages' copy'. scan_pages-Found flags' (add64 addr 4096) vs pages' copy')
