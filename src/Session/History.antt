-- ===== src/Session/History.antt =====
-- The blocks that the program holds, after any calls.
use sanitizers.Base.{ℕ, ◌<◌, ◌≡◌, inl, sym, ap, ◌∙◌, arith, List, [], ◌∷◌, ok-injective}
use sanitizers.Base.{Option}
use sanitizers.Allocator.Scans.Ranges.{pages_of}
use sanitizers.SuperPage.{Env}
use sanitizers.Allocator.State.{World}
use sanitizers.Allocator.Untag.{UsesAliases}
use sanitizers.Allocator.Allocate.{Os}
use sanitizers.Allocator.Allocate.Tagged.{IsGranting}
use sanitizers.Allocator.Scans.Sweeps.{state_at}
use sanitizers.Session.{
  Block, IsAllocator, IsHeld, Every, nothing, each, AllApart, nothing_apart, each_apart, Removed,
  IsOpened, Session, opened, allocated, written, deallocated, quarantined,
}
use sanitizers.Session.Frames.{Kept, held_kept}
use sanitizers.Session.Apartness.{
  Apart-states, states-Apart, Every-Removed, AllApart-Removed, Every-map, Every-both,
}
use sanitizers.Session.Serves.{Granted, allocate-Granted}
use sanitizers.Session.Frees.{FreesOnly, allocator_deallocate-FreesOnly}
use sanitizers.Session.Scans.{quarantine_and_maybe_scan-FreesOnly}
use sanitizers.Session.Writes.{written-IsAllocator}

-- The invariant of the allocator, and blocks that are used chunks without a byte in common.
pub record IsInOrder (env : Env) (w : World) (live : List Block) : Type 0 where
  pub inv : IsAllocator env w
  pub held : Every (IsHeld env w) live
  pub apart : AllApart env.target live

opened-IsInOrder : {env : Env} {w : World} → IsOpened env w → IsInOrder env w []
opened-IsInOrder {env} {w} o = record {
  inv = record {
    filled = o.filled;
    heap = record {
      few0 = rw o.no_pages0 (omega arith);
      few1 = rw o.no_pages1 (omega arith);
      pages = λ r i two known. absurd (
          no_page w.allocator.num_super_pages0 w.allocator.num_super_pages1 r i o.no_pages0
            o.no_pages1 known);
      bytes = o.bytes;
    };
    slots = o.slots;
    hints = λ sc inside. rw ((o.none_kept sc inside).1) (omega arith);
    cached = λ sc inside. inl (o.none_kept sc inside).0;
    spare = rw o.no_pages1 o.spare;
  };
  held = nothing;
  apart = nothing_apart;
}
  where
    no_page : (n0 n1 r i : ℕ) → n0 ≡ 0 → n1 ≡ 0 → i < pages_of n0 n1 r → ⊥
    no_page n0 n1 r i e e' known = ground arith

module _ (env : Env) (u : UsesAliases env.target) where
  Granted-IsInOrder :
      {w w' : World} {live : List Block} {ptr : ℕ} (size : ℕ)
      → IsInOrder env w live
      → Granted env size w ptr w'
      → IsInOrder env w' ((ptr, size) ∷ live)
  Granted-IsInOrder {w} {w'} {live} {ptr} size o g = record {
    inv = g.inv;
    held = each g.held (Every-map (λ b h. held_kept u.uses_shadow g.kept h (λ out. out)) o.held);
    apart =
        each_apart
          (Every-map
            (λ b h.
              let h' = held_kept u.uses_shadow g.kept h (λ out. out) in
              Apart-states u g.held h' (λ e. g.new h.place h.used (sym e)))
            o.held)
          o.apart;
  }

  -- Nothing is freed.
  kept-IsInOrder :
      {w w' : World} {live : List Block}
      → IsInOrder env w live
      → IsAllocator env w'
      → Kept env w w' (λ a. ⊥)
      → IsInOrder env w' live
  kept-IsInOrder o inv k = record {
    inv = inv;
    held = Every-map (λ b h. held_kept u.uses_shadow k h (λ out. out)) o.held;
    apart = o.apart;
  }

  -- One block is freed.
  freed-IsInOrder :
      {w w' : World} {live rest : List Block} {b : Block}
      → IsInOrder env w live
      → Removed b live rest
      → ((h : IsHeld env w b) → FreesOnly env w (state_at h.place) w')
      → IsInOrder env w' rest
  freed-IsInOrder {w} {w'} {live} {rest} {b} o r frees =
      let (h, others) = Every-Removed o.held r in
      let (with_b, apart) = AllApart-Removed o.apart r in
      let (inv, k, _) = frees h in
      record {
        inv = inv;
        held =
            Every-both
              (λ b' h' from_b.
                held_kept u.uses_shadow k h' (λ e. states-Apart u h h' from_b (sym e)))
              others with_b;
        apart = apart;
      }

  -- In every session the invariant of the allocator holds, and the blocks that the program holds are
  -- used chunks, large enough, whose pointers pass the check for a double free, without a byte in
  -- common. The system grants pages; tags are in the software shadow and in address aliases.
  pub Session-IsInOrder :
      (os : Os) {w : World} {live : List Block}
      → IsGranting os
      → Session os env w live
      → IsInOrder env w live
  Session-IsInOrder os granting (opened o) = opened-IsInOrder o
  Session-IsInOrder os granting (allocated {w} {w'} {live} {ptr} size s room pos top eq) =
      let o = Session-IsInOrder os granting s in
      let (ptr', w1, eq', g) = allocate-Granted os env w size granting u o.inv room pos top in
      let same = ok-injective (sym eq' ∙ eq) in
      let firsts = ap (λ (out : Option ℕ × World). out.0) same in
      let at_ptr : ptr' ≡ ptr = cc in
      let at_w : w1 ≡ w' = ap (λ (out : Option ℕ × World). out.1) same in
      Granted-IsInOrder size o (rw (at_ptr, at_w) at g)
  Session-IsInOrder os granting (written {w} m' s r writes) =
      let o = Session-IsInOrder os granting s in
      let (h, _) = Every-Removed o.held r in
      let (inv, k) = written-IsAllocator env w m' u o.inv h writes in kept-IsInOrder o inv k
  Session-IsInOrder os granting (deallocated {w} {m'} s r eq) =
      let o = Session-IsInOrder os granting s in
      freed-IsInOrder o r (λ h. allocator_deallocate-FreesOnly env w m' u o.inv h eq)
  Session-IsInOrder os granting (quarantined {w} {w'} process most s r eq) =
      let o = Session-IsInOrder os granting s in
      freed-IsInOrder o r
        (λ h. quarantine_and_maybe_scan-FreesOnly process env w w' most u o.inv h eq)
