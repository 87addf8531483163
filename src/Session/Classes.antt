-- ===== src/Session/Classes.antt =====
-- The class of a super page, from its byte in the metadata.
use sanitizers.Base.{Mem, ok, ℕ, ◌+◌, ◌≡◌, refl, arith, le→leb, lt→ltb}
use sanitizers.Layout.{allocator_space, allocator_size}
use sanitizers.Shadow.{get_shadow_ptr, super_page_metadata, is_mine, get}
use sanitizers.SizeClass.Filled.{filled_descrs}
use sanitizers.SizeClass.Lookup.{class_at}
use sanitizers.SuperPage.{Env, get_scd, get_size_class}
use sanitizers.SuperPage.Chunk.{IsPlaced, IsSuperPage, in_space}

get_scd-class :
    (env : Env) (m : Mem) {sp sc : ℕ}
    → env.descrs ≡ filled_descrs
    → IsPlaced sp (class_at filled_descrs sc)
    → m (get_shadow_ptr super_page_metadata sp) ≡ sc
    → get_scd env m sp ≡ ok (class_at filled_descrs sc)
unfolding get_scd get_size_class is_mine get
get_scd-class env m {sp} {sc} filled s class =
    let (lo, hi) = in_space s in
    rw
      (
        le→leb allocator_space sp lo,
        lt→ltb sp (allocator_space + allocator_size) (omega arith),
        class,
        filled,
      )
      refl

-- A page of a known class is a super page.
pub IsSuperPage-class :
    (env : Env) (m : Mem) {sp sc : ℕ}
    → env.descrs ≡ filled_descrs
    → IsPlaced sp (class_at filled_descrs sc)
    → m (get_shadow_ptr super_page_metadata sp) ≡ sc
    → IsSuperPage env m sp (class_at filled_descrs sc)
IsSuperPage-class env m filled s class = record {
  class = get_scd-class env m filled s class;
  place = s;
}
