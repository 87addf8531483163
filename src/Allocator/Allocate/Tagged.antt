-- ===== src/Allocator/Allocate/Tagged.antt =====
-- The calls of `AllocateSuperPage`, where the system grants the pages.
use sanitizers.Base.{
  ℕ, zero, suc, ◌+◌, ◌*◌, ◌≡◌, ◌≢◌, ◌<◌, ◌≤◌, some, ok, refl, sym, ◌∙◌, arith, leb, ltb, le→leb,
  lt→ltb, if◌then◌else◌, ◌&&◌, add64, u8, true, Mem, store8, load-store8_self, load-store8_ne, ◌⊎◌,
  inl, inr,
}
use sanitizers.Layout.{allocator_space, allocator_size}
use sanitizers.Shadow.{check_granule, is_mine, get_shadow_ptr, super_page_metadata}
use sanitizers.SizeClass.{SizeClassDescr}
use sanitizers.Shadow.Laws.{put_eq}
use sanitizers.Tags.Frames.{KeepsTags, set_memory_tag-KeepsTags}
use sanitizers.Tags.{get_memory_tag, set_memory_tag}
use sanitizers.Base.{ap, ok-injective, bind_ok, ◌⊎◌, inl, inr}
use sanitizers.Tags.Memory.{InShadows, KeepsAbove, set_memory_tag_total}
use sanitizers.SuperPage.{Env, set_size_class}
use sanitizers.SuperPage.Chunk.{IsPlaced, in_space}
use sanitizers.Allocator.State.{rand_r}
use sanitizers.Allocator.Allocate.{Os, map_aliases, tag_chunks}

-- A system that maps what it is asked to: new pages hold zeros, all else stays.
pub record IsGranting (os : Os) : Type 0 where
  pub maps :
      (m : Mem) (a n : ℕ)
      → (m' : Mem) × (os.map_fixed m a n ≡ some m')
        × ((b : ℕ) → m' b ≡ (if leb a b && ltb b (a + n) then 0 else m b))
  pub remaps : (sp a : ℕ) → os.remap sp a ≡ true

pub map_aliases_lem :
    {os : Os} (rounds sp page : ℕ) → IsGranting os → map_aliases os rounds sp page ≡ ok tt
unfolding map_aliases
map_aliases_lem zero sp page g = refl
map_aliases_lem (suc rounds) sp page g =
    rw (g.remaps sp (add64 page allocator_size)) (map_aliases_lem rounds sp _ g)

-- The tags of all chunks are written, and what stands above the shadows stays.
pub tag_chunks_lem :
    (env : Env) (size rounds : ℕ) (m : Mem) (addr rand : ℕ)
    → env.target.config.use_aliases ≤ 4
    → ((i : ℕ) → i < rounds → InShadows (addr + i * size) size)
    → (rand' : ℕ) × (m' : Mem) × (tag_chunks env size rounds m addr rand ≡ ok (rand', m'))
      × KeepsAbove m m'
unfolding tag_chunks
tag_chunks_lem env size zero m addr rand few inside = (rand, m, refl, λ a above. refl)
tag_chunks_lem env size (suc rounds) m addr rand few inside =
    let at_first : addr + 0 * size ≡ addr = omega arith in
    let (tag, rand1) = rand_r rand in
    let (m1, eq, keeps) =
      set_memory_tag_total env.target m addr size (u8 tag) few
        (rw at_first at (inside 0 (omega arith))) in
    let later : (i : ℕ) → i < rounds → InShadows (addr + size + i * size) size = λ i lt.
      let e : addr + size + i * size ≡ addr + suc i * size = omega arith in
      rw e (inside (suc i) (omega arith)) in
    let (rand', m', eq', keeps') =
      tag_chunks_lem env size rounds m1 (addr + size) rand1 few later in
    (rand', m', rw eq eq', λ a above. keeps' a above ∙ keeps a above)

pub tag_chunks-KeepsTags :
    (env : Env) (size rounds : ℕ) (m : Mem) (addr rand rand' : ℕ) (m' : Mem)
    → ((i : ℕ) → i < rounds → InShadows (addr + i * size) size)
    → tag_chunks env size rounds m addr rand ≡ ok (rand', m')
    → KeepsTags env.target addr (addr + rounds * size) m m'
unfolding tag_chunks
tag_chunks-KeepsTags env size zero m addr rand rand' m' inside eq u a room out =
    ap (λ (m0 : Mem). get_memory_tag env.target m0 a)
      (sym (ap (λ (r : ℕ × Mem). r.1) (ok-injective eq)))
tag_chunks-KeepsTags env size (suc rounds) m addr rand rand' m' inside eq u a room out =
    let at_first : addr + 0 * size ≡ addr = omega arith in
    let (tag, rand1) = rand_r rand in
    let (m1, first, rest) =
      bind_ok (set_memory_tag env.target m addr size (u8 tag))
        (λ m2. tag_chunks env size rounds m2 (addr + size) rand1) eq in
    let later : (i : ℕ) → i < rounds → InShadows (addr + size + i * size) size = λ i lt.
      let e : addr + size + i * size ≡ addr + suc i * size = omega arith in
      rw e (inside (suc i) (omega arith)) in
    let all : addr + size + rounds * size ≡ addr + suc rounds * size = omega arith in
    let beyond : (a < addr + size) ⊎ (addr + size + rounds * size ≤ a) = elim out [
      | inl before ↦ inl (omega arith)
      | inr behind ↦ inr (omega arith)
    ] in
    let outside : (a < addr) ⊎ (addr + size ≤ a) = elim out [
      | inl before ↦ inl before
      | inr behind ↦ inr (omega arith)
    ] in
    tag_chunks-KeepsTags env size rounds m1 (addr + size) rand1 rand' m' later rest u a room beyond
    ∙ set_memory_tag-KeepsTags env.target m m1 addr size (u8 tag)
        (rw at_first at (inside 0 (omega arith))) first u a room outside

pub set_size_class_lem :
    (m : Mem) {sp : ℕ} {d : SizeClassDescr} (sc : ℕ)
    → IsPlaced sp d
    → (m' : Mem) × (set_size_class m sp sc ≡ ok m')
      × (m' (get_shadow_ptr super_page_metadata sp) ≡ sc)
      × ((b : ℕ) → b ≢ get_shadow_ptr super_page_metadata sp → m' b ≡ m b)
unfolding set_size_class check_granule is_mine
set_size_class_lem m {sp} sc s =
    let (lo, hi) = in_space s in
    let slot = get_shadow_ptr super_page_metadata sp in
    let m1 = store8 m slot sc in
    rw
      (
        le→leb allocator_space sp lo,
        lt→ltb sp (allocator_space + allocator_size) (omega arith),
        put_eq super_page_metadata m sp sc,
        s.aligned,
      )
      (
        store8 m1 slot sc,
        refl,
        load-store8_self m1 slot sc,
        λ b ne. load-store8_ne m1 slot sc b ne ∙ load-store8_ne m slot sc b ne,
      )
