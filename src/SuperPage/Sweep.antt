-- ===== src/SuperPage/Sweep.antt =====
-- The state changes of a scan: marking, sweeping and counting.
use native.Mathlib.Nat.{le-div_iff_mul-le, div-eq_of_lt-le}
use sanitizers.Layout.{super_page_size}
use sanitizers.Base.{
  Mem, store8, load-store8, ok, ltb, leb, ◌==◌, if◌then◌else◌, le→leb, lt→leb, ℕ, zero, suc, ◌+◌,
  ◌*◌, ◌/◌, ◌%◌, ◌≤◌, ◌<◌, ◌≡◌, refl, ◌≢◌, ◌⊎◌, ◌&&◌, arith,
}
use sanitizers.SizeClass.{SizeClassDescr, chunk_size}
use sanitizers.SuperPage.{
  available, quarantined, marked, swept, Env, states_of, mark, update_from, count_from,
  update_states, move_from_quarantine_to_available,
}
use sanitizers.SuperPage.State.{available, quarantined, marked, swept}
use sanitizers.SuperPage.Chunk.{IsSuperPage}

-- The loop that writes each state applies its function to the bytes of the array and no other.
pub update_from_lem :
    (rounds : ℕ) (f : ℕ → ℕ) (m : Mem) (start a : ℕ)
    → update_from rounds f m start a
      ≡ (if leb start a && ltb a (start + rounds) then f (m a) else m a)
unfolding update_from
update_from_lem zero f m start a = ground arith
update_from_lem (suc rounds) f m start a = ground (
  arith,
  update_from_lem rounds f (store8 m start (f (m start))) (start + 1) a,
  load-store8 m start (f (m start)) a,
)

-- What a sweep does to one state.
pub swept_cases :
    (s : ℕ)
    → (s ≡ quarantined → swept s ≡ available)
      × (s ≡ marked → swept s ≡ quarantined)
      × (s ≢ quarantined → s ≢ marked → swept s ≡ s)
unfolding swept
swept_cases s = ground arith

-- How one state adds to the number of the states `t`.
abbrev one_if : ℕ → ℕ → ℕ
one_if s t = if s == t then 1 else 0

swept_counts :
    (s : ℕ)
    → (one_if (swept s) quarantined ≡ one_if s marked)
      × (one_if (swept s) marked ≡ 0)
      × (one_if (swept s) available ≡ one_if s available + one_if s quarantined)
unfolding swept
swept_counts s = (ground arith, ground arith, ground arith)

count_swept :
    (rounds : ℕ) (m m' : Mem) (start : ℕ)
    → ((i : ℕ) → i < rounds → m' (start + i) ≡ swept (m (start + i)))
    → (count_from rounds quarantined m' start ≡ count_from rounds marked m start)
      × (count_from rounds marked m' start ≡ 0)
      × (count_from rounds available m' start
          ≡ count_from rounds available m start + count_from rounds quarantined m start)
unfolding count_from
count_swept zero m m' start h = (refl, refl, refl)
count_swept (suc rounds) m m' start h =
    let first : m' start ≡ swept (m start) =
      let e = h 0 (omega arith) in let z : start + 0 ≡ start = omega arith in rw z at e in
    let rest : (i : ℕ) → i < rounds → m' (start + 1 + i) ≡ swept (m (start + 1 + i)) = λ i lt.
      let z : start + 1 + i ≡ start + suc i = omega arith in rw z (h (suc i) (omega arith)) in
    let ih = count_swept rounds m m' (start + 1) rest in
    let (q, k, a) = swept_counts (m start) in rw (first, q, k, a) (omega (arith, ih))

-- How many states of a super page are `state`.
abbrev pub number : ℕ → SizeClassDescr → Mem → ℕ → ℕ
number sp d m state = count_from d.num_chunks state m (states_of sp d)

module _ (env : Env) (m : Mem) {sp : ℕ} {d : SizeClassDescr} (s : IsSuperPage env m sp d) where
  -- `MoveFromQuarantineToAvailable` moves every quarantined chunk of the super page to available,
  -- every marked one back to quarantined, leaves all other bytes, and so afterwards as many chunks
  -- are quarantined as were marked, none is marked, and the available ones have grown by those
  -- that were quarantined.
  pub sweep_lem :
      (m' : Mem) × (move_from_quarantine_to_available env m sp ≡ ok m')
      × ((p : ℕ) → p < d.num_chunks → m' (states_of sp d + p) ≡ swept (m (states_of sp d + p)))
      × ((a : ℕ) → (a < states_of sp d) ⊎ (states_of sp d + d.num_chunks ≤ a) → m' a ≡ m a)
      × (number sp d m' quarantined ≡ number sp d m marked)
      × (number sp d m' marked ≡ 0)
      × (number sp d m' available ≡ number sp d m available + number sp d m quarantined)
  unfolding move_from_quarantine_to_available update_states
  sweep_lem =
      let st = states_of sp d in
      let m' = update_from d.num_chunks swept m st in
      let each : (p : ℕ) → p < d.num_chunks → m' (st + p) ≡ swept (m (st + p)) =
        λ p h. ground (arith, update_from_lem d.num_chunks swept m st (st + p)) in
      let (q, k, a) = count_swept d.num_chunks m m' st each in
      (
        m',
        rw s.class,
        each,
        λ b out. ground (arith, update_from_lem d.num_chunks swept m st b),
        q,
        k,
        a,
      )

  -- `Mark` with a pointer into chunk `idx`, to its start or past it, marks the chunk if it is
  -- quarantined and changes nothing otherwise.
  pub mark-chunk :
      (v idx : ℕ)
      → idx < d.num_chunks
      → idx * chunk_size d ≤ v % super_page_size
      → v % super_page_size < idx * chunk_size d + chunk_size d
      → mark env m sp v
        ≡ ok (
            if m (states_of sp d + idx) == quarantined
            then store8 m (states_of sp d + idx) marked
            else m)
  unfolding mark
  mark-chunk v idx h lo hi =
      let q : v % super_page_size / chunk_size d ≡ idx =
        div-eq_of_lt-le (chunk_size d) lo (omega arith) in
      rw (s.class, s.place.descr.divides (v % super_page_size) (omega arith), q)
        (simp (lt→leb d.num_chunks idx h))

  -- A pointer into the slack behind the chunks marks nothing.
  pub mark-slack :
      (v : ℕ) → d.num_chunks * chunk_size d ≤ v % super_page_size → mark env m sp v ≡ ok m
  unfolding mark
  mark-slack v h =
      let q : d.num_chunks ≤ v % super_page_size / chunk_size d =
        (le-div_iff_mul-le s.place.descr.size_pos).1 h in
      rw (s.class, s.place.descr.divides (v % super_page_size) (omega arith)) (simp (le→leb _ _ q))
