-- ===== src/Examples/Sessions.antt =====
-- A program that allocates twice, and goes on.
use sanitizers.Base.{Mem, ok, trap, some, ℕ, ◌≡◌, ◌⊎◌, refl, arith, [], ◌∷◌, List}
use sanitizers.SizeClass.{num_size_classes}
use sanitizers.Allocator.{allocator_deallocate}
use sanitizers.Allocator.State.{World}
use sanitizers.Allocator.Allocate.{allocate}
use sanitizers.Examples.Killing.{process}
use sanitizers.Allocator.Kill.{kill_all_threads_but_myself}
use sanitizers.Allocator.Scans.{quarantine_and_maybe_scan}
use sanitizers.Session.{
  Block, block_start, Session, opened, IsOpened, HasRoom, AllApart, TakesFew, first, later,
}
use sanitizers.Session.History.{IsInOrder, Session-IsInOrder}
use sanitizers.Session.Service.{session-allocate, session-deallocate, session-quarantine}
use sanitizers.Session.Contents.{allocates, session-contents}
use sanitizers.Examples.Allocation.{os, start, os-IsGranting, get_or-replicate}
use sanitizers.Examples.Pages.{env}
use sanitizers.Examples.Tagging.{env-UsesAliases}

start-IsOpened : IsOpened env start
start-IsOpened = record {
  filled = refl;
  bytes = λ a high. omega arith;
  no_pages0 = refl;
  no_pages1 = refl;
  slots = refl;
  none_kept = λ sc inside. rw (get_or-replicate num_size_classes sc) (refl, refl);
  spare = λ b lower upper. refl;
}

-- What an allocation in a session gives.
abbrev Next : World → List Block → ℕ → Type 0
Next w live size =
    (ptr : ℕ) × (w' : World) × (allocate os env w size ≡ ok (some ptr, w'))
    × Session os env w' ((ptr, size) ∷ live)
    × AllApart env.target ((ptr, size) ∷ live)
    × TakesFew w w'

started : Session os env start []
started = opened start-IsOpened

one : Next start [] 100
one =
    session-allocate os env os-IsGranting env-UsesAliases 100 started
      (record { room0 = omega arith; room1 = omega arith }) (omega arith) (omega arith)

abbrev w1 : World
w1 = one.1

abbrev b1 : Block
b1 = (one.0, 100)

w1-HasRoom : HasRoom w1
w1-HasRoom =
    let (more0, more1, sum) = one.5 in
    record { room0 = omega (arith, more0, more1, sum); room1 = omega (arith, more0, more1, sum) }

two : Next w1 (b1 ∷ []) 200
two =
    session-allocate os env os-IsGranting env-UsesAliases 200 one.3 w1-HasRoom (omega arith)
      (omega arith)

abbrev w2 : World
w2 = two.1

abbrev b2 : Block
b2 = (two.0, 200)

session-allocate_example : Next w1 (b1 ∷ []) 3000
session-allocate_example =
    session-allocate os env os-IsGranting env-UsesAliases 3000 one.3 w1-HasRoom (omega arith)
      (omega arith)

Session-IsInOrder_example : IsInOrder env w2 (b2 ∷ b1 ∷ [])
Session-IsInOrder_example = Session-IsInOrder env env-UsesAliases os os-IsGranting two.3

session-deallocate_example :
    (m' : Mem) × (allocator_deallocate env w2.mem b1.0 ≡ ok m')
    × Session os env (record w2 { mem = m' }) (b2 ∷ [])
    × (allocator_deallocate env m' b1.0 ≡ trap)
session-deallocate_example =
    session-deallocate os env os-IsGranting env-UsesAliases two.3 (later first)

session-quarantine_example :
    ((w' : World) × (quarantine_and_maybe_scan process env w2 b1.0 1000 ≡ ok w')
      × Session os env w' (b2 ∷ []))
    ⊎ ((quarantine_and_maybe_scan process env w2 b1.0 1000 ≡ trap)
        × (kill_all_threads_but_myself process ≡ trap))
session-quarantine_example =
    session-quarantine os env os-IsGranting env-UsesAliases process 1000 two.3 (later first)

session-contents_example : w2.mem (block_start env.target b1) ≡ w1.mem (block_start env.target b1)
session-contents_example =
    session-contents os env (block_start env.target b1) os-IsGranting env-UsesAliases one.3 first
      (allocates 200 w1-HasRoom (omega arith) (omega arith) two.2) (omega arith) (omega arith)
