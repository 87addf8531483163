-- ===== src/Session/Contents.antt =====
-- What the program has written into a block stays there.
use sanitizers.Base.{
  Mem, ok, some, ℕ, ◌+◌, ◌<◌, ◌≤◌, ◌≡◌, inl, inr, sym, ap, ◌∙◌, arith, List, ok-injective, Option,
}
use sanitizers.SizeClass.{max_size_class}
use sanitizers.Tags.{Target}
use sanitizers.SuperPage.{Env}
use sanitizers.SuperPage.Chunk.{address_of_chunk_lem}
use sanitizers.Allocator.{allocator_deallocate}
use sanitizers.Allocator.State.{World}
use sanitizers.Allocator.Untag.{UsesAliases}
use sanitizers.Allocator.Allocate.{Os, allocate}
use sanitizers.Allocator.Allocate.Tagged.{IsGranting}
use sanitizers.Allocator.Kill.{Process}
use sanitizers.Allocator.Scans.{scan, quarantine_and_maybe_scan}
use sanitizers.Allocator.Scans.Sweeps.{state_at}
use sanitizers.Session.{Block, block_start, IsHeld, Removed, HasRoom, WritesInside, Session}
use sanitizers.Session.Frames.{KeepsContents}
use sanitizers.Session.Apartness.{block_start_lem, states-Apart, Every-Removed, AllApart-Removed}
use sanitizers.Session.Serves.{allocate-Granted}
use sanitizers.Session.Frees.{allocator_deallocate-FreesOnly}
use sanitizers.Session.Scans.{scan-IsAllocator, quarantine_and_maybe_scan-FreesOnly}
use sanitizers.Session.History.{Session-IsInOrder}

-- A call, or a write, that leads to the memory and concerns none but the blocks `others`.
pub data Elsewhere (os : Os) (env : Env) (w : World) (others : List Block) : Mem → Type 0 where
  allocates :
      {ptr : ℕ} {w' : World} (size : ℕ)
      → HasRoom w
      → 0 < size
      → size ≤ max_size_class
      → allocate os env w size ≡ ok (some ptr, w')
      → Elsewhere os env w others w'.mem
  frees :
      {b : Block} {rest : List Block} {m' : Mem}
      → Removed b others rest
      → allocator_deallocate env w.mem b.0 ≡ ok m'
      → Elsewhere os env w others m'
  quarantines :
      {b : Block} {rest : List Block} {w' : World} (process : Process) (max_quarantine_size : ℕ)
      → Removed b others rest
      → quarantine_and_maybe_scan process env w b.0 max_quarantine_size ≡ ok w'
      → Elsewhere os env w others w'.mem
  scans :
      {w' : World} (process : Process)
      → scan process env w ≡ ok w'
      → Elsewhere os env w others w'.mem
  writes :
      {b : Block} {rest : List Block} {m' : Mem}
      → Removed b others rest
      → WritesInside env.target b w.mem m'
      → Elsewhere os env w others m'

abbrev InBlock : Target → Block → ℕ → Type 0
InBlock t b a = (block_start t b ≤ a) × (a < block_start t b + b.1)

-- The bytes of a block are among those of its chunk.
block_kept :
    {env : Env} {w : World} (w' : World) (Freed : ℕ → Type 0) {b : Block}
    → UsesAliases env.target
    → KeepsContents env w w' Freed
    → (h : IsHeld env w b) → ¬ Freed (state_at h.place)
    → (a : ℕ) → InBlock env.target b a
    → w'.mem a ≡ w.mem a
block_kept w' Freed u keeps h out a (lo, hi) =
    let l = h.place in
    let start = block_start_lem u h in
    let same = address_of_chunk_lem l.page.place l.chunk l.below in
    keeps l h.used out a (omega (arith, lo, start, same)) (omega (arith, hi, start, same, h.fits))

-- The bytes of a block that the program holds stay the same in every call that concerns it not: in
-- an allocation, in a free or a quarantine of another held block, in a scan and in a write into
-- another held block. The system grants pages; tags are in the software shadow and in address aliases.
pub session-contents :
    (os : Os) (env : Env) {w : World} {m' : Mem} {live others : List Block} {b : Block} (a : ℕ)
    → IsGranting os
    → UsesAliases env.target
    → Session os env w live
    → Removed b live others
    → Elsewhere os env w others m'
    → block_start env.target b ≤ a
    → a < block_start env.target b + b.1
    → m' a ≡ w.mem a
session-contents os env {w} a granting u s r (allocates {ptr} {w'} size room pos top eq) lo hi =
    let o = Session-IsInOrder env u os granting s in
    let (h, _) = Every-Removed o.held r in
    let (ptr', w1, eq', g) = allocate-Granted os env w size granting u o.inv room pos top in
    let at_w : w1 ≡ w' = ap (λ (out : Option ℕ × World). out.1) (ok-injective (sym eq' ∙ eq)) in
    let kept = block_kept w1 (λ x. ⊥) u g.contents h (λ none_freed. none_freed) a (lo, hi) in
    ap (λ (v : World). v.mem a) (sym at_w) ∙ kept
session-contents os env {w} a granting u s r (frees {m'} r' eq) lo hi =
    let o = Session-IsInOrder env u os granting s in
    let (h, held) = Every-Removed o.held r in
    let (h', _) = Every-Removed held r' in
    let (apart, _) = Every-Removed (AllApart-Removed o.apart r).0 r' in
    let (_, _, contents) = allocator_deallocate-FreesOnly env w m' u o.inv h' eq in
    block_kept (record w { mem = m' }) (λ x. x ≡ state_at h'.place) u contents h
      (states-Apart u h h' apart) a (lo, hi)
session-contents os env {w} a granting u s r (quarantines {w'} process most r' eq) lo hi =
    let o = Session-IsInOrder env u os granting s in
    let (h, held) = Every-Removed o.held r in
    let (h', _) = Every-Removed held r' in
    let (apart, _) = Every-Removed (AllApart-Removed o.apart r).0 r' in
    let (_, _, contents) =
      quarantine_and_maybe_scan-FreesOnly process env w w' most u o.inv h' eq in
    block_kept w' (λ x. x ≡ state_at h'.place) u contents h (states-Apart u h h' apart) a (lo, hi)
session-contents os env {w} a granting u s r (scans {w'} process eq) lo hi =
    let o = Session-IsInOrder env u os granting s in
    let (h, _) = Every-Removed o.held r in
    let (_, _, contents) = scan-IsAllocator process env w w' o.inv eq in
    block_kept w' (λ x. ⊥) u contents h (λ none_freed. none_freed) a (lo, hi)
session-contents os env {w} a granting u s r (writes r' inside) lo hi =
    let o = Session-IsInOrder env u os granting s in
    let (apart, _) = Every-Removed (AllApart-Removed o.apart r).0 r' in
    inside.outside a (elim apart [
      | inl before ↦ inl (omega (arith, hi, before))
      | inr behind ↦ inr (omega (arith, lo, behind))
    ])
