-- ===== src/SuperPage/Serve.antt =====
-- `SuperPage` as a server of the requests of `SuperPage.Contract`, and what its bytes stand for.
pub mod Bytes
pub mod Answers
pub mod Runs
pub mod Exclusive
use sanitizers.Base.{
  Mem, Outcome, ok, trap, ◌>>=◌, store8, load-store8, load-store8_self, load-store8_ne, update, ℕ,
  ◌+◌, ◌*◌, ◌/◌, ◌-◌, ◌%◌, ◌≤◌, ◌<◌, ◌≡◌, ◌≢◌, ◌==◌, ==_iff, if◌then◌else◌, refl, sym, ap, ◌∙◌, ◌⊎◌,
  inl, inr, Bool, true, false, Option, none, some, List, [], ◌∷◌, arith, Bool-cases, u8,
}
use native.Mathlib.Nat.{mul-div_left, div-mul-le_self, mod-add-div', mod-lt, mul-le-mul_right}
use native.Mathlib.Decide.{dec_lt}
use sanitizers.Layout.{super_page_size}
use sanitizers.Shadow.{get_shadow_ptr, super_page_metadata}
use sanitizers.SizeClass.{SizeClassDescr, chunk_size}
use sanitizers.Tags.{apply_address_tag}
use sanitizers.SuperPage.{
  Env, states_of, address_of_chunk, try_allocate, deallocate, quarantine, mark,
  move_from_quarantine_to_available, state_on_free, compute_state_ptr, swept,
}
use sanitizers.SuperPage.State.{available, used_mixed, used_data, quarantined, marked, swept}
use sanitizers.SuperPage.Chunk.{
  IsPlaced, IsSuperPage, in_space, chunk_end, address_of_chunk_lem, compute_state_ptr_cases,
  state_outside_chunks,
}
use sanitizers.SuperPage.Alloc.{Allocated, got, full, try_allocate-Allocated}
use sanitizers.SuperPage.Free.{is_used, KeepsBut, deallocate-chunk, quarantine-chunk}
use sanitizers.SuperPage.Sweep.{sweep_lem, swept_cases, mark-chunk, mark-slack}
use sanitizers.SuperPage.Meta.{meta_slot, meta-apart, IsSuperPage-kept}
use sanitizers.SuperPage.Contract.{
  Chunk, vacant, held, retired, reached, Heap, Request, give, give_back, retire, point_to, end_scan,
  Starts, Points, after_scan, Promise, given, none_vacant, taken_back, bad_free, put_off,
  bad_retire, seen, not_retired, swept_all, Served, done, stopped, answered,
}

-- The memory, and the hint that the caller keeps.
pub record Page : Type 0 where
  pub mem : Mem
  pub hint : ℕ

module _ (env : Env) (sp : ℕ) (d : SizeClassDescr) where
  -- The operation of `SuperPage` for a request, and the pointer that it returns.
  unfoldable pub serve : Page → Request → Outcome (Option ℕ × Page)
  serve page (give data_only) = do
    (res, hint, m) ← try_allocate env page.mem data_only d page.hint sp
    ok (res, record { mem = m; hint = hint })
  serve page (give_back offset) = do
    m ← deallocate env page.mem sp (sp + offset % super_page_size)
    ok (none, record page { mem = m })
  serve page (retire offset) = do
    (bytes, m) ← quarantine env page.mem sp (sp + offset % super_page_size)
    ok (none, record page { mem = m })
  serve page (point_to value) = do
    m ← mark env page.mem sp value
    ok (none, record page { mem = m })
  serve page end_scan = do
    m ← move_from_quarantine_to_available env page.mem sp
    ok (none, record page { mem = m })

  unfoldable pub follow :
      Outcome (Option ℕ × Page)
      → (Page → List (Option ℕ) × Option Page)
      → List (Option ℕ) × Option Page
  follow trap next = ([], none)
  follow (ok (res, page)) next = let (rest, last) = next page in (res ∷ rest, last)

  -- The results of a list of requests, until its end or the first trap.
  unfoldable pub serve_all : Page → List Request → List (Option ℕ) × Option Page
  serve_all page [] = ([], some page)
  serve_all page (r ∷ rs) = follow (serve page r) (λ page'. serve_all page' rs)

abbrev pub byte_of : Chunk → ℕ
byte_of vacant = available
byte_of (held true) = used_data
byte_of (held false) = used_mixed
byte_of retired = quarantined
byte_of reached = marked

-- The bytes of a super page stand for the chunks `h`.
pub record Represents (env : Env) (sp : ℕ) (d : SizeClassDescr) (page : Page) (h : Heap)
    : Type 0 where
  pub placed : IsSuperPage env page.mem sp d
  pub hint : page.hint ≤ d.num_chunks
  pub states : (p : ℕ) → p < d.num_chunks → page.mem (states_of sp d + p) ≡ byte_of (h p)

-- A returned pointer is the address of the chunk, with a tag.
pub data IsAnswer (env : Env) (sp : ℕ) (d : SizeClassDescr) : Option ℕ → Option ℕ → Type 0 where
  nothing : IsAnswer env sp d none none
  pointer :
      (p tag : ℕ)
      → p < d.num_chunks
      → IsAnswer env sp d
          (some (apply_address_tag env.target (address_of_chunk sp p d) tag))
          (some p)

pub data Meets (env : Env) (sp : ℕ) (d : SizeClassDescr)
    : Outcome (Option ℕ × Page) → Option (Option ℕ × Heap) → Type 0 where
  both_trap : Meets env sp d trap none
  both_answer :
      {res a : Option ℕ} {page : Page} {h : Heap}
      → IsAnswer env sp d res a
      → Represents env sp d page h
      → Meets env sp d (ok (res, page)) (some (a, h))

-- The same answers, and both stop at a trap or both go on to the end.
pub data Mirrors (env : Env) (sp : ℕ) (d : SizeClassDescr)
    : List (Option ℕ) × Option Page → List (Option ℕ) × Option Heap → Type 0 where
  both_done :
      {page : Page} {h : Heap}
      → Represents env sp d page h
      → Mirrors env sp d ([], some page) ([], some h)
  both_stopped : Mirrors env sp d ([], none) ([], none)
  both_go_on :
      {res a : Option ℕ} {got : List (Option ℕ) × Option Page} {all : List (Option ℕ) × Option Heap}
      → IsAnswer env sp d res a
      → Mirrors env sp d got all
      → Mirrors env sp d (res ∷ got.0, got.1) (a ∷ all.0, all.1)
