-- ===== src/Session/Writes.antt =====
-- What the program writes into a block that it holds changes nothing of the allocator's.
use sanitizers.Base.{Mem, ◌+◌, ◌*◌, ◌≤◌, inl, inr, refl, ◌∙◌, arith}
use native.Mathlib.Decide.{dec_lt}
use sanitizers.Shadow.{get_shadow_ptr, super_page_metadata}
use sanitizers.SizeClass.{chunk_size}
use sanitizers.SuperPage.{Env}
use sanitizers.SuperPage.Chunk.{in_space, chunks_fit}
use native.Mathlib.Nat.{mul-le-mul_right}
use sanitizers.SuperPage.Meta.{meta_slot}
use sanitizers.Allocator.State.{World}
use sanitizers.Allocator.Untag.{UsesAliases}
use sanitizers.Allocator.Allocate.Pages.{page_at}
use sanitizers.Allocator.Scans.Marks.{chunk-not-IsState}
use sanitizers.Allocator.Scans.Sweeps.{state_at, address_at}
use sanitizers.Tags.Frames.{above-KeepsTags}
use sanitizers.SuperPage.Chunk.{chunk-InAllocator}
use sanitizers.Session.{Block, block_start, IsAllocator, IsHeld, WritesInside}
use sanitizers.Session.Frames.{Kept}
use sanitizers.Session.Stores.{IsHeap-kept}
use sanitizers.Session.Frees.{IsAllocator-kept}
use sanitizers.Session.Grows.{spare_start}
use sanitizers.Session.Apartness.{block_start_lem}

-- A block lies in its super page.
block-inside :
    {env : Env} {w : World} {b : Block}
    → UsesAliases env.target
    → (h : IsHeld env w b)
    → (page_at h.place.range_num h.place.idx ≤ block_start env.target b)
      × (block_start env.target b + b.1
          ≤ page_at h.place.range_num h.place.idx + h.place.d.num_chunks * chunk_size h.place.d)
block-inside u h =
    let l = h.place in
    let start = block_start_lem u h in
    let room = mul-le-mul_right (chunk_size l.d) l.below in
    (omega (arith, start), omega (arith, start, room, h.fits))

pub written-IsAllocator :
    (env : Env) (w : World) {b : Block} (m' : Mem)
    → UsesAliases env.target
    → IsAllocator env w
    → IsHeld env w b
    → WritesInside env.target b w.mem m'
    → IsAllocator env (record w { mem = m' }) × Kept env w (record w { mem = m' }) (λ a. ⊥)
written-IsAllocator env w {b} m' u inv h writes =
    let n0 = w.allocator.num_super_pages0 in
    let n1 = w.allocator.num_super_pages1 in
    let l = h.place in
    let (low, high) = block-inside u h in
    let fits = chunks_fit l.page.place in
    let (space, end_space) = in_space l.page.place in
    let k : Kept env w (record w { mem = m' }) (λ a. ⊥) = record {
      more0 = omega arith;
      more1 = omega arith;
      classes = λ r i two known.
          let (d, page) = inv.heap.pages r i two known in
          writes.outside (get_shadow_ptr super_page_metadata (page_at r i))
            (inr (omega (arith, meta_slot page.place, high, fits, end_space)));
      used = λ l' in_use out.
          writes.outside (state_at l') (elim (dec_lt (state_at l') (block_start env.target b)) [
            | yes before ↦ inl before
            | no behind ↦ elim (dec_lt (state_at l') (block_start env.target b + b.1)) [
              | no past ↦ inr (omega (arith, past))
              | yes inside ↦ absurd (
                  chunk-not-IsState {env = env} {m = w.mem} (state_at l') l.page
                    (omega (arith, behind, low)) (omega (arith, inside, high))
                    (record {
                      sp = page_at l'.range_num l'.idx;
                      d = l'.d;
                      chunk = l'.chunk;
                      page = l'.page;
                      below = l'.below;
                      at_state = refl;
                    }))
            ]
          ]);
      tags = λ l' in_use out uses.
          above-KeepsTags env.target 0 0 w.mem m'
            (λ a below. writes.outside a (inl (omega (arith, below, low, space)))) uses
            (address_at l') (chunk-InAllocator l'.page.place l'.chunk l'.below) (inr (omega arith));
    } in
    let (_, spare_high) = spare_start n1 n1 (omega arith) inv.heap.few1 in
    (
      IsAllocator-kept inv refl
          (IsHeap-kept env w.mem n0 n1 inv.heap m' k.classes (λ a above.
            elim (dec_lt a (block_start env.target b)) [
              | yes before ↦ rw (writes.outside a (inl before)) (inv.heap.bytes a above)
              | no behind ↦ elim (dec_lt a (block_start env.target b + b.1)) [
                | no past ↦
                    rw (writes.outside a (inr (omega (arith, past)))) (inv.heap.bytes a above)
                | yes inside ↦ writes.bytes a (omega (arith, behind)) inside
              ]
            ]))
          (λ c lo hi.
            writes.outside c (inr (omega (arith, lo, spare_high, high, fits, end_space)))
            ∙ inv.spare c lo hi)
          k,
      k,
    )
