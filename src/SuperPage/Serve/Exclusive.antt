-- ===== src/SuperPage/Serve/Exclusive.antt =====
-- A chunk in use is not handed out again.
use sanitizers.Base.{
  ℕ, ◌+◌, ◌<◌, ◌≡◌, ◌≢◌, ◌==◌, if◌then◌else◌, refl, sym, ap, ◌∙◌, ◌≤◌, ◌%◌, ◌^◌, Bool, false,
  Option, none, some, List, [], ◌∷◌, arith, update,
}
use sanitizers.SizeClass.{SizeClassDescr, chunk_size}
use sanitizers.Tags.{apply_address_tag}
use native.Mathlib.Decide.{dec_lt}
use native.Mathlib.Nat.{mul-le-mul_right}
use sanitizers.Tags.Address.{apply_address_tag-low, untag-tag}
use sanitizers.SuperPage.Chunk.{IsPlaced, chunk-InAllocator, address_of_chunk_lem}
use sanitizers.SuperPage.{Env, states_of, address_of_chunk}
use sanitizers.SuperPage.Contract.{
  Chunk, vacant, held, retired, reached, Heap, Request, give, give_back, retire, point_to, end_scan,
  Starts, Promise, given, none_vacant, taken_back, bad_free, put_off, bad_retire, seen, not_retired,
  swept_all, Served, done, stopped, answered,
}
use sanitizers.SuperPage.Serve.{
  Page, serve_all, byte_of, Represents, IsAnswer, nothing, pointer, Mirrors, both_done,
  both_stopped, both_go_on,
}
use sanitizers.SuperPage.Serve.Runs.{serve_all-Served}

-- A request that does not free chunk `p`.
abbrev pub Spares : ℕ → ℕ → Request → Type 0
Spares size p (give data_only) = Unit
Spares size p (give_back offset) = ¬ Starts size offset p
Spares size p (retire offset) = ¬ Starts size offset p
Spares size p (point_to value) = Unit
Spares size p end_scan = Unit

pub data AllSpare (size p : ℕ) : List Request → Type 0 where
  spare_end : AllSpare size p []
  spare_next :
      {r : Request} {rs : List Request}
      → Spares size p r
      → AllSpare size p rs
      → AllSpare size p (r ∷ rs)

-- What the contract leaves of a chunk in use: it stays, and it is not the answer.
abbrev Stays : ℕ → Bool → Option (Option ℕ × Heap) → Type 0
Stays p data_only none = Unit
Stays p data_only (some (a, h)) = (h p ≡ held data_only) × (a ≢ some p)

update_other :
    (h : Heap) {p : ℕ} {data_only : Bool} (q : ℕ) (c : Chunk)
    → p ≢ q
    → h p ≡ held data_only
    → update h q c p ≡ held data_only
update_other h {p} q c ne is_held = let other : (p == q) ≡ false = ground arith in rw other is_held

vacant-ne : (h : Heap) {p q : ℕ} {data_only : Bool} → h p ≡ held data_only → h q ≡ vacant → p ≢ q
vacant-ne h is_held e e' = let same = ap h e' in cc

retired-ne : (h : Heap) {p q : ℕ} {data_only : Bool} → h p ≡ held data_only → h q ≡ retired → p ≢ q
retired-ne h is_held e e' = let same = ap h e' in cc

some-injective : {p q : ℕ} → some q ≡ some p → p ≡ q
some-injective e = cc

none-some : {p : ℕ} → none ≢ some p
none-some e = cc

Starts-ne : (size offset : ℕ) {p q : ℕ} → ¬ Starts size offset p → Starts size offset q → p ≢ q
Starts-ne size offset spares e e' = spares (rw e' e)

spared :
    {n size p : ℕ} {data_only : Bool} {r : Request} {h : Heap} {out : Option (Option ℕ × Heap)}
    → Promise n size r h out
    → h p ≡ held data_only
    → Spares size p r
    → Stays p data_only out
spared (given h b q lt free) is_held spares =
    let ne = vacant-ne h is_held free in
    (update_other h q (held b) ne is_held, λ e. ne (some-injective e))
spared (none_vacant h b busy) is_held spares = (is_held, none-some)
spared (taken_back h offset q b lt e was) is_held spares =
    (update_other h q vacant (Starts-ne _ offset spares e) is_held, none-some)
spared (bad_free h offset bad) is_held spares = tt
spared (put_off h offset q b keep lt e was) is_held spares = (
  update_other h q (if keep then retired else vacant) (Starts-ne _ offset spares e) is_held,
  none-some,
)
spared (bad_retire h offset bad) is_held spares = tt
spared (seen h value q lt inside was) is_held spares =
    (update_other h q reached (retired-ne h is_held was) is_held, none-some)
spared (not_retired h value no_one) is_held spares = (is_held, none-some)
spared (swept_all h) is_held spares = (rw is_held refl, none-some)

-- No answer is the address of chunk `p` under any tag.
pub data NoneIs (env : Env) (sp : ℕ) (d : SizeClassDescr) (p : ℕ) : List (Option ℕ) → Type 0 where
  none_end : NoneIs env sp d p []
  none_null : {rest : List (Option ℕ)} → NoneIs env sp d p rest → NoneIs env sp d p (none ∷ rest)
  none_other :
      {rest : List (Option ℕ)} (x : ℕ)
      → apply_address_tag env.target x 0 ≢ address_of_chunk sp p d
      → NoneIs env sp d p rest
      → NoneIs env sp d p (some x ∷ rest)

-- Putting in a tag of zero takes any tag out of a chunk's address.
untag_chunk :
    (env : Env) {sp : ℕ} {d : SizeClassDescr}
    → env.target.config.use_aliases ≤ 4
    → IsPlaced sp d
    → (q tag : ℕ) → q < d.num_chunks
    → apply_address_tag env.target (apply_address_tag env.target (address_of_chunk sp q d) tag) 0
      ≡ address_of_chunk sp q d
untag_chunk env {sp} {d} few s q tag lt =
    let (lo, hi) = chunk-InAllocator s q lt in
    ap (λ x. apply_address_tag env.target x 0)
      (apply_address_tag-low env.target few (address_of_chunk sp q d) tag)
    ∙ untag-tag env.target few (address_of_chunk sp q d) (tag % 2 ^ 8) lo hi (omega arith)

-- Different chunks have different addresses.
chunks-ne :
    {sp : ℕ} {d : SizeClassDescr}
    → IsPlaced sp d
    → (p q : ℕ) → p < d.num_chunks
    → q < d.num_chunks
    → q ≢ p
    → address_of_chunk sp q d ≢ address_of_chunk sp p d
chunks-ne {sp} {d} s p q lt lt' ne e =
    let same = sym (address_of_chunk_lem s q lt') ∙ e ∙ address_of_chunk_lem s p lt in
    let full = s.descr.size_pos in
    elim (dec_lt p q) [
      | yes before ↦ omega (arith, same, full, mul-le-mul_right (chunk_size d) before)
      | no behind ↦
          let past : q < p = omega (arith, behind, ne) in
          omega (arith, same, full, mul-le-mul_right (chunk_size d) past)
    ]

-- The chunk is still in use at the end, if the requests were all served.
abbrev pub StillHeld : Env → ℕ → SizeClassDescr → ℕ → Bool → Option Page → Type 0
StillHeld env sp d p data_only none = Unit
StillHeld env sp d p data_only (some page) =
    page.mem (states_of sp d + p) ≡ byte_of (held data_only)

module _ (env : Env) (sp : ℕ) (d : SizeClassDescr) (p : ℕ) (lt : p < d.num_chunks)
    (data_only : Bool) (few : env.target.config.use_aliases ≤ 4) (s : IsPlaced sp d) where
  next_none :
      {res a : Option ℕ} {rest : List (Option ℕ)}
      → IsAnswer env sp d res a
      → a ≢ some p
      → NoneIs env sp d p rest
      → NoneIs env sp d p (res ∷ rest)
  next_none nothing ne others = none_null others
  next_none (pointer q tag lt') ne others =
      let away = chunks-ne s p q lt lt' (λ e. ne (ap some e)) in
      none_other _ (λ e. away (sym (untag_chunk env few s q tag lt') ∙ e)) others

  never_given :
      {rs : List Request} {h : Heap} {all : List (Option ℕ) × Option Heap}
      {got : List (Option ℕ) × Option Page}
      → Served d.num_chunks (chunk_size d) rs h all
      → Mirrors env sp d got all
      → h p ≡ held data_only
      → AllSpare (chunk_size d) p rs
      → NoneIs env sp d p got.0 × StillHeld env sp d p data_only got.1
  never_given (done h) (both_done rep) is_held spare_end =
      (none_end, rep.states p lt ∙ ap byte_of is_held)
  never_given (stopped r rs h bad) both_stopped is_held spare = (none_end, tt)
  never_given (answered r rs h h' a rest promise served) (both_go_on answer mirrors) is_held
        (spare_next first spare) =
      let (is_held', ne) = spared promise is_held first in
      let (others, last) = never_given served mirrors is_held' spare in
      (next_none answer ne others, last)

module _ (env : Env) (sp : ℕ) (d : SizeClassDescr) (p : ℕ) (lt : p < d.num_chunks)
    (data_only : Bool) where
  -- A chunk in use is not handed out again: from bytes that stand for chunks of which `p` is held,
  -- no list of requests (allocations, frees of other chunks, marks and sweeps) that does not free
  -- it returns its address, whatever the tag, and it is still in use when all were served.
  pub serve_all-NoneIs :
      (rs : List Request) (page : Page) (h : Heap)
      → env.target.config.use_aliases ≤ 4
      → Represents env sp d page h
      → h p ≡ held data_only
      → AllSpare (chunk_size d) p rs
      → NoneIs env sp d p (serve_all env sp d page rs).0
        × StillHeld env sp d p data_only (serve_all env sp d page rs).1
  serve_all-NoneIs rs page h few rep is_held spare =
      let (all, served, mirrors) = serve_all-Served env sp d few rs page h rep in
      never_given env sp d p lt data_only few rep.placed.place served mirrors is_held spare
