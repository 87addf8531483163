-- ===== src/Session/Service.antt =====
-- What a program can rely on after any calls: each call that it may make succeeds.
use sanitizers.Base.{
  Outcome-cases, Mem, ok, trap, some, ℕ, ◌<◌, ◌≤◌, ◌≡◌, ◌≢◌, ◌⊎◌, inl, inr, sym, ◌∙◌, ap, List, ◌∷◌,
}
use sanitizers.SizeClass.{max_size_class}
use sanitizers.SuperPage.{Env}
use sanitizers.Allocator.{allocator_deallocate}
use sanitizers.Allocator.State.{World}
use sanitizers.Allocator.Untag.{UsesAliases}
use sanitizers.Allocator.RoundTrip.{freed_twice}
use sanitizers.Allocator.Allocate.{Os, allocate}
use sanitizers.Allocator.Allocate.Tagged.{IsGranting}
use sanitizers.Allocator.Kill.{Process, kill_all_threads_but_myself}
use sanitizers.Allocator.Scans.{quarantine_and_maybe_scan}
use sanitizers.Session.{
  TakesFew, Block, Session, AllApart, HasRoom, Removed, allocated, deallocated, quarantined,
}
use sanitizers.Session.History.{Session-IsInOrder}
use sanitizers.Session.Apartness.{Every-Removed}
use sanitizers.Session.Serves.{allocate-Granted}
use sanitizers.Session.Scans.{quarantine_and_maybe_scan-held}

ok-trap : {A : Type 0} {x : A} → ok x ≢ trap
ok-trap e = cc

module _ (os : Os) (env : Env) (granting : IsGranting os) (u : UsesAliases env.target) where
  -- After any allocations, writes into held blocks, frees and quarantines of one thread, an allocation
  -- of 1 byte up to the largest class succeeds, where each
  -- range has room for a super page, and the block joins those that the program holds, without
  -- a byte in common with them. It takes at most one new super page of both ranges together, and
  -- gives none back. The system grants pages; tags are in the software shadow and in address aliases.
  pub session-allocate :
      {w : World} {live : List Block} (size : ℕ)
      → Session os env w live
      → HasRoom w
      → 0 < size
      → size ≤ max_size_class
      → (ptr : ℕ) × (w' : World) × (allocate os env w size ≡ ok (some ptr, w'))
        × Session os env w' ((ptr, size) ∷ live)
        × AllApart env.target ((ptr, size) ∷ live)
        × TakesFew w w'
  session-allocate {w} size s room pos top =
      let o = Session-IsInOrder env u os granting s in
      let (ptr, w', eq, g) = allocate-Granted os env w size granting u o.inv room pos top in
      let s' = allocated size s room pos top eq in
      let o' = Session-IsInOrder env u os granting s' in (ptr, w', eq, s', o'.apart, g.few)

  -- After any allocations, writes into held blocks, frees and quarantines of one thread, a free of
  -- a block that the program holds raises no false alarm: it succeeds, and the session goes on
  -- without the block. A second free at once traps. The system grants pages; tags are in the
  -- software shadow and in address aliases.
  pub session-deallocate :
      {w : World} {live rest : List Block} {b : Block}
      → Session os env w live
      → Removed b live rest
      → (m' : Mem) × (allocator_deallocate env w.mem b.0 ≡ ok m')
        × Session os env (record w { mem = m' }) rest
        × (allocator_deallocate env m' b.0 ≡ trap)
  session-deallocate {w} s r =
      let o = Session-IsInOrder env u os granting s in
      let (h, _) = Every-Removed o.held r in
      let (m', once, twice) =
        freed_twice env w.mem u h.place.page h.place.below h.small h.read h.same_tag h.used in
      let freed = ap (allocator_deallocate env w.mem) h.pointer ∙ once in
      (m', freed, deallocated s r freed, ap (allocator_deallocate env m') h.pointer ∙ twice)

  -- After any allocations, writes into held blocks, frees and quarantines of one thread, a block that
  -- the program holds can be put into the quarantine, with a scan if one is due: the call succeeds,
  -- and the session goes on without the block, or it traps and `KillAllThreadsButMyself` traps,
  -- which the scan calls. The system grants pages; tags are in the software shadow and in address
  -- aliases.
  pub session-quarantine :
      {w : World} {live rest : List Block} {b : Block} (process : Process) (max_quarantine_size : ℕ)
      → Session os env w live
      → Removed b live rest
      → ((w' : World) × (quarantine_and_maybe_scan process env w b.0 max_quarantine_size ≡ ok w')
          × Session os env w' rest)
        ⊎ ((quarantine_and_maybe_scan process env w b.0 max_quarantine_size ≡ trap)
            × (kill_all_threads_but_myself process ≡ trap))
  session-quarantine {w} {b = b} process max_quarantine_size s r =
      let o = Session-IsInOrder env u os granting s in
      let (h, _) = Every-Removed o.held r in
      elim (Outcome-cases (quarantine_and_maybe_scan process env w b.0 max_quarantine_size)) [
        | inl (w', eq) ↦ inl (w', eq, quarantined process max_quarantine_size s r eq)
        | inr failed ↦ inr (
          failed,
          elim (Outcome-cases (kill_all_threads_but_myself process)) [
            | inl (seen, signalled) ↦
                let (w', eq) =
                  quarantine_and_maybe_scan-held process env w max_quarantine_size signalled u o.inv
                    h in
                absurd (ok-trap (sym eq ∙ failed))
            | inr e ↦ e
          ],
        )
      ]
