-- ===== src/SizeClass/Chunks.antt =====
-- `ComputeNumChunks`: as many chunks as fit a super page beside their state bytes.
use sanitizers.Base.{
  ℕ, zero, suc, ◌+◌, ◌*◌, ◌/◌, ◌≤◌, ◌<◌, ◌≡◌, refl, false, inl, inr, arith, leb, leb→le, le→leb,
  ◌≢◌, subst, Bool-cases, Outcome, ok,
}
use native.Mathlib.Nat.{lt-div-mul-add, lt_of_mul-lt-mul_right}
use sanitizers.Layout.{super_page_size}
use sanitizers.SizeClass.{size_of_inline_meta, num_chunks_from, compute_num_chunks}

module _ (chunk_size range_num : ℕ) where
  -- `n` chunks and their inline state bytes fit a super page.
  abbrev pub Fits : ℕ → Type 0
  Fits n = size_of_inline_meta n range_num + n * chunk_size ≤ super_page_size

  -- The result of the loop from `top` down.
  abbrev Greatest : ℕ → Outcome ℕ → Type 0
  Greatest top r = (n : ℕ) × (r ≡ ok n) × (0 < n) × Fits n × ((m : ℕ) → m ≤ top → Fits m → m ≤ n)

  from-Greatest :
      (top : ℕ) → 0 < top → Fits 1 → Greatest top (num_chunks_from chunk_size range_num top)
  unfolding num_chunks_from
  from-Greatest zero h one = absurd (omega arith)
  from-Greatest (suc top) h one =
      elim (Bool-cases
        (leb (size_of_inline_meta (suc top) range_num + suc top * chunk_size) super_page_size)) [
          | inl fits ↦ rw fits (suc top, refl, omega arith, leb→le _ _ fits, λ m le f. le)
          | inr tight ↦
              let not_one : top ≢ 0 = λ e. cc (le→leb _ _ one, tight, e) in
              let (n, eq, pos, fits, most) = from-Greatest top (omega arith) one in
              rw tight (n, eq, pos, fits, λ m le f. most m (below m le f tight) f)
        ]
    where
      below :
          (m : ℕ)
          → m ≤ suc top
          → Fits m
          → leb (size_of_inline_meta (suc top) range_num + suc top * chunk_size) super_page_size
            ≡ false
          → m ≤ top
      below m le f tight =
          let ne : m ≢ suc top = λ e. cc (le→leb _ _ (subst Fits e f), tight) in omega arith

  -- For a chunk size of which one chunk fits, `ComputeNumChunks` returns a positive number of
  -- chunks that fits with its state bytes, and no larger number fits.
  pub compute_num_chunks_greatest :
      0 < chunk_size
      → Fits 1
      → (n : ℕ) × (compute_num_chunks chunk_size range_num ≡ ok n)
        × (0 < n)
        × Fits n
        × ((m : ℕ) → Fits m → m ≤ n)
  unfolding compute_num_chunks
  compute_num_chunks_greatest pos one =
      let top = super_page_size / chunk_size in
      let limit : (m : ℕ) → Fits m → m ≤ top = λ m f.
        let below : m < top + 1 =
          lt_of_mul-lt-mul_right chunk_size
            (omega (arith, lt-div-mul-add {a = super_page_size} pos, f)) in
        omega arith in
      let (n, eq, npos, fits, most) = from-Greatest top (omega (arith, limit 1 one)) one in
      (n, eq, npos, fits, λ m f. most m (limit m f) f)
