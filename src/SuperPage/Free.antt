-- ===== src/SuperPage/Free.antt =====
-- `Deallocate` and `Quarantine` of one chunk.
use sanitizers.Base.{
  bit_and-low_mask, Mem, store8, load-store8_self, load-store8_ne, ok, trap, ◌==◌, if◌then◌else◌,
  u8, ℕ, ◌+◌, ◌%◌, ◌^◌, ◌≤◌, ◌<◌, ◌≡◌, refl, ◌∙◌, ◌≢◌, ◌↔◌, Bool, true, false, ◌||◌, arith, true,
}
use sanitizers.SizeClass.{SizeClassDescr, chunk_size}
use sanitizers.Tags.{get_memory_tag}
use sanitizers.Tags.Memory.{KeepsAbove, get_memory_tag_total, set_memory_tag_total}
use sanitizers.SuperPage.{
  available, used_mixed, used_data, quarantined, Env, states_of, address_of_chunk,
  exchange_and_check_for_double_free, update_memory_tag_on_free, deallocate, state_on_free,
  quarantine,
}
use sanitizers.SuperPage.State.{available, used_mixed, used_data, quarantined}
use sanitizers.SuperPage.Chunk.{
  IsSuperPage, in_space, compute_state_ptr-chunk, state_outside_chunks, chunk-InShadows,
  chunk-InAllocator,
}

-- The states of a chunk that the program holds.
abbrev pub is_used : ℕ → Bool
is_used s = (s == used_mixed) || (s == used_data)

pub new_state_used :
    (data_only : Bool)
    → (is_used (if data_only then used_data else used_mixed) ≡ true)
      × ((if data_only then used_data else used_mixed) < 2 ^ 8)
new_state_used true = (refl, omega arith)
new_state_used false = (refl, omega arith)

-- Above the shadows only the byte at `a` may differ.
abbrev pub KeepsBut : Mem → Mem → ℕ → Type 0
KeepsBut m m' a = (b : ℕ) → 0x5000_0000_0000 ≤ b → b ≢ a → m' b ≡ m b

pub exchange_lem :
    (m : Mem) (s v : ℕ)
    → exchange_and_check_for_double_free m s v ≡ (if is_used (m s) then ok (store8 m s v) else trap)
unfolding exchange_and_check_for_double_free
exchange_lem m s v = ground arith

module _ (env : Env) (m : Mem) {sp : ℕ} {d : SizeClassDescr} (s : IsSuperPage env m sp d)
    (few : env.target.config.use_aliases ≤ 4) (p : ℕ) (h : p < d.num_chunks) where
  retag :
      (old : ℕ) × (m' : Mem) × (get_memory_tag env.target m (address_of_chunk sp p d) ≡ ok old)
      × (update_memory_tag_on_free env m (address_of_chunk sp p d) (chunk_size d)
          ≡ ok (u8 (old + 1), m'))
      × KeepsAbove m m'
  unfolding update_memory_tag_on_free
  retag =
      let (old, read) =
        get_memory_tag_total env.target m (address_of_chunk sp p d)
          (chunk-InAllocator s.place p h) in
      let (m', wrote, keeps) =
        set_memory_tag_total env.target m (address_of_chunk sp p d) (chunk_size d) (u8 (old + 1))
          few (chunk-InShadows s.place p h) in
      (old, m', read, rw (read, wrote), keeps)

  state_high : 0x5000_0000_0000 ≤ states_of sp d + p
  state_high = omega (arith, (state_outside_chunks s.place p h).0, in_space s.place)

  store_keeps :
      (m' : Mem) (v : ℕ)
      → KeepsAbove m m'
      → KeepsBut m (store8 m' (states_of sp d + p) v) (states_of sp d + p)
  store_keeps m' v keeps b high ne = load-store8_ne m' (states_of sp d + p) v b ne ∙ keeps b high

  -- `Deallocate` of the start of a chunk of a super page traps exactly if the chunk is not in use
  -- (a double free). Otherwise the chunk is available, and above the shadows no other byte changes.
  pub deallocate-chunk :
      (m' : Mem) × (deallocate env m sp (address_of_chunk sp p d)
        ≡ (if is_used (m (states_of sp d + p)) then ok m' else trap))
      × (m' (states_of sp d + p) ≡ available)
      × KeepsBut m m' (states_of sp d + p)
  unfolding deallocate
  deallocate-chunk =
      let (old, m', read, update, keeps) = retag in
      (
        store8 m' (states_of sp d + p) available,
        rw
            (
              s.class,
              compute_state_ptr-chunk s.place p h,
              update,
              exchange_lem m' (states_of sp d + p) available,
              keeps (states_of sp d + p) state_high,
            )
            refl,
        load-store8_self m' (states_of sp d + p) available,
        store_keeps m' available keeps,
      )

  pub quarantine-chunk :
      (old : ℕ) × (m' : Mem) × (get_memory_tag env.target m (address_of_chunk sp p d) ≡ ok old)
      × (quarantine env m sp (address_of_chunk sp p d) ≡ (
          if is_used (m (states_of sp d + p))
          then ok (
            if state_on_free env.target.config.use_tag (u8 (old + 1)) == available
                then 0
                else chunk_size d,
            m',
          )
          else trap))
      × (m' (states_of sp d + p) ≡ state_on_free env.target.config.use_tag (u8 (old + 1)))
      × KeepsBut m m' (states_of sp d + p)
  unfolding quarantine
  quarantine-chunk =
      let (old, m', read, update, keeps) = retag in
      let v = state_on_free env.target.config.use_tag (u8 (old + 1)) in
      (
        old,
        store8 m' (states_of sp d + p) v,
        read,
        rw
            (
              s.class,
              compute_state_ptr-chunk s.place p h,
              update,
              exchange_lem m' (states_of sp d + p) v,
              keeps (states_of sp d + p) state_high,
            )
            (ground arith),
        load-store8_self m' (states_of sp d + p) v,
        store_keeps m' v keeps,
      )

pub state_on_free-byte : (use_tag tag : ℕ) → state_on_free use_tag tag < 2 ^ 8
unfolding state_on_free
state_on_free-byte use_tag tag = ground arith

-- With 4-bit tags a freed chunk goes to the quarantine only when its new tag is 0 modulo 16, with
-- 8-bit tags only when it is 0, and without tags always.
pub state_on_free_cases :
    (tag : ℕ)
    → tag < 2 ^ 8
    → (state_on_free 0 tag ≡ quarantined)
      × ((state_on_free 1 tag ≡ quarantined) ↔ (tag % 16 ≡ 0))
      × ((state_on_free 2 tag ≡ quarantined) ↔ (tag ≡ 0))
unfolding state_on_free
state_on_free_cases tag h = rw (bit_and-low_mask 4 tag, bit_and-low_mask 8 tag) (ground arith)
