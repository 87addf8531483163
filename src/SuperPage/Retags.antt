-- ===== src/SuperPage/Retags.antt =====
-- The tags that a free of a chunk leaves as they are.
use sanitizers.Base.{
  ◌==◌, Mem, ok, trap, if◌then◌else◌, Bool, true, false, store8, load-store8_ne, u8, ℕ, ◌+◌, ◌<◌,
  ◌≤◌, ◌≡◌, ◌>>=◌, sym, ap, ◌∙◌, arith, ok-injective, bind_ok,
}
use sanitizers.SizeClass.{SizeClassDescr, chunk_size}
use sanitizers.Tags.{get_memory_tag, set_memory_tag}
use sanitizers.Tags.Memory.{InShadows}
use sanitizers.Tags.Frames.{KeepsTags, KeepsTags-trans, set_memory_tag-KeepsTags, above-KeepsTags}
use sanitizers.SuperPage.{
  Env, states_of, address_of_chunk, update_memory_tag_on_free, exchange_and_check_for_double_free,
  deallocate, quarantine, state_on_free, available,
}
use sanitizers.SuperPage.State.{available}
use sanitizers.SuperPage.Chunk.{
  IsSuperPage, compute_state_ptr-chunk, chunk-InShadows, in_space, state_outside_chunks,
}
use sanitizers.SuperPage.Free.{is_used, exchange_lem}

-- A result of a guarded outcome is the one of its branch.
pub if_ok : {A : Type 0} (c : Bool) (x y : A) → (if c then ok x else trap) ≡ ok y → x ≡ y
if_ok true x y e = cc
if_ok false x y e = cc

update-KeepsTags :
    (env : Env) (m : Mem) (p size tag : ℕ) (m' : Mem)
    → InShadows p size
    → update_memory_tag_on_free env m p size ≡ ok (tag, m')
    → KeepsTags env.target p (p + size) m m'
unfolding update_memory_tag_on_free
update-KeepsTags env m p size tag m' inside eq =
    let (old, read, rest) =
      bind_ok (get_memory_tag env.target m p)
        (λ o. set_memory_tag env.target m p size (u8 (o + 1)) >>= λ m2. ok (u8 (o + 1), m2)) eq in
    let (m1, wrote, done) =
      bind_ok (set_memory_tag env.target m p size (u8 (old + 1))) (λ m2. ok (u8 (old + 1), m2))
        rest in
    let same : m1 ≡ m' = ap (λ (r : ℕ × Mem). r.1) (ok-injective done) in
    set_memory_tag-KeepsTags env.target m m' p size (u8 (old + 1)) inside (rw same at wrote)

exchange-KeepsTags :
    (env : Env) (m : Mem) (first last s v : ℕ) (m' : Mem)
    → 0x5000_0000_0000 ≤ s
    → exchange_and_check_for_double_free m s v ≡ ok m'
    → KeepsTags env.target first last m m'
exchange-KeepsTags env m first last s v m' high eq =
    let same : store8 m s v ≡ m' =
      if_ok (is_used (m s)) (store8 m s v) m' (sym (exchange_lem m s v) ∙ eq) in
    let kept : (a : ℕ) → a < 0x5000_0000_0000 → store8 m s v a ≡ m a =
      λ a low. load-store8_ne m s v a (λ e. omega (arith, e, low, high)) in
    rw same at (above-KeepsTags env.target first last m (store8 m s v) kept)

module _ (env : Env) (m : Mem) {sp : ℕ} {d : SizeClassDescr} (s : IsSuperPage env m sp d) (p : ℕ)
    (h : p < d.num_chunks) where
  high : 0x5000_0000_0000 ≤ states_of sp d + p
  high = omega (arith, (state_outside_chunks s.place p h).0, in_space s.place)

  -- A free changes no tag outside its chunk.
  pub deallocate-KeepsTags :
      (m' : Mem)
      → deallocate env m sp (address_of_chunk sp p d) ≡ ok m'
      → KeepsTags env.target (address_of_chunk sp p d) (address_of_chunk sp p d + chunk_size d) m m'
  unfolding deallocate
  deallocate-KeepsTags m' eq =
      let start = address_of_chunk sp p d in
      let eq' = rw (s.class, compute_state_ptr-chunk s.place p h) at eq in
      let ((tag, m1), update, exchange) =
        bind_ok (update_memory_tag_on_free env m (address_of_chunk sp p d) (chunk_size d))
          (λ r. exchange_and_check_for_double_free r.1 (states_of sp d + p) available) eq' in
      KeepsTags-trans env.target start (start + chunk_size d) m m1 m'
        (update-KeepsTags env m start (chunk_size d) tag m1 (chunk-InShadows s.place p h) update)
        (exchange-KeepsTags env m1 start (start + chunk_size d) (states_of sp d + p) available m'
          high exchange)

  pub quarantine-KeepsTags :
      (bytes : ℕ) (m' : Mem)
      → quarantine env m sp (address_of_chunk sp p d) ≡ ok (bytes, m')
      → KeepsTags env.target (address_of_chunk sp p d) (address_of_chunk sp p d + chunk_size d) m m'
  unfolding quarantine
  quarantine-KeepsTags bytes m' eq =
      let start = address_of_chunk sp p d in
      let eq' = rw (s.class, compute_state_ptr-chunk s.place p h) at eq in
      let value : ℕ → ℕ = λ t. state_on_free env.target.config.use_tag t in
      let counted : ℕ → ℕ = λ t. if value t == available then 0 else chunk_size d in
      let ((tag, m1), update, rest) =
        bind_ok (update_memory_tag_on_free env m (address_of_chunk sp p d) (chunk_size d))
          (λ r. exchange_and_check_for_double_free r.1 (states_of sp d + p) (value r.0) >>= λ m2.
            ok (counted r.0, m2))
          eq' in
      let (m2, exchange, done) =
        bind_ok (exchange_and_check_for_double_free m1 (states_of sp d + p) (value tag))
          (λ m3. ok (counted tag, m3)) rest in
      let same : m2 ≡ m' = ap (λ (r : ℕ × Mem). r.1) (ok-injective done) in
      KeepsTags-trans env.target start (start + chunk_size d) m m1 m'
        (update-KeepsTags env m start (chunk_size d) tag m1 (chunk-InShadows s.place p h) update)
        (exchange-KeepsTags env m1 start (start + chunk_size d) (states_of sp d + p) (value tag) m'
          high (rw same at exchange))
