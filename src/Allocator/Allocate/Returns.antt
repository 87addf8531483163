-- ===== src/Allocator/Allocate/Returns.antt =====
-- `Allocate` returns a chunk.
use sanitizers.Base.{
  Mem, ap, sym, ◌∙◌, ◌≢◌, ℕ, ◌≡◌, ◌<◌, ◌≤◌, inl, inr, Option, none, some, ok, refl, if◌then◌else◌,
  ◌==◌, length, Bool, true, false, u32, Bool-cases, ==_iff,
}
use sanitizers.SizeClass.{SizeClassDescr, size_to_size_class, num_size_classes, max_size_class}
use sanitizers.SizeClass.Shape.{IsDescr, class_at-IsDescr}
use sanitizers.SizeClass.Filled.{filled_descrs}
use sanitizers.SizeClass.Lookup.{class_at, size_to_size_class-IsFirstFit, IsFirstFit}
use sanitizers.SuperPage.{Env}
use sanitizers.Tags.{Target}
use sanitizers.Allocator.State.{bump, World, Statistics, get_num_super_pages, with_stats}
use sanitizers.Allocator.Allocate.{
  Os, get_per_sc, or_else, try_super_page, allocate_slower, allocate,
}
use sanitizers.Allocator.Allocate.Pages.{range_capacity}
use sanitizers.Allocator.Allocate.Tries.{SameBut-refl, try_super_page-Tried}
use sanitizers.Allocator.Allocate.Outcomes.{Tried, found, missed, SameBut, Given-after, OtherSlots}
use sanitizers.Allocator.Allocate.Fresh.{IsSpare}
use sanitizers.Allocator.Allocate.Enough.{allocate_slower_from-some}
use sanitizers.Allocator.Allocate.Served.{Served, Prepared, as_is, with_page}
use sanitizers.Allocator.Allocate.Served.{IsReady}

Prepared-after :
    {t : Target} {d : SizeClassDescr} {sc : ℕ} {w w1 w0 : World}
    → w1.mem ≡ w.mem
    → w1.allocator ≡ w.allocator
    → Prepared t d sc w1 w0
    → Prepared t d sc w w0
Prepared-after mem allocator (as_is mem' allocator') = as_is (mem' ∙ mem) (allocator' ∙ allocator)
Prepared-after {d = d} mem allocator (with_page n room count counted class cleared elsewhere tags) =
    with_page n room (rw allocator at count) (rw allocator at counted) class cleared
      (λ b high out ne. elsewhere b high out ne ∙ ap (λ (m : Mem). m b) mem) (rw mem at tags)

-- The same from a world before, with the same memory and allocator.
Served-after :
    {env : Env} {d : SizeClassDescr} {sc : ℕ} {Cached Cached' : ℕ → Type 0} {w w1 w' : World}
    {ptr : ℕ}
    → w1.mem ≡ w.mem
    → w1.allocator ≡ w.allocator
    → length w1.local.per_sc ≡ length w.local.per_sc
    → OtherSlots sc w w1
    → ((sp : ℕ) → Cached sp → Cached' sp)
    → Served env d sc Cached w1 ptr w'
    → Served env d sc Cached' w ptr w'
Served-after mem allocator slots others to s = record {
  w0 = s.w0;
  prepared = Prepared-after mem allocator s.prepared;
  slots = s.slots ∙ slots;
  others = λ sc' ne. s.others sc' ne ∙ others sc' ne;
  given =
      Given-after refl refl refl (λ sc' ne. refl)
        (λ sp seen. elim seen [ inl cached ↦ inl (to sp cached) | inr known ↦ inr known ]) s.given;
}

-- What the slow path needs to know of a class, on a world that a failed attempt left.
slower-some :
    (os : Os) (env : Env) (w w2 : World) (size sc : ℕ) {d : SizeClassDescr}
    → IsReady os env w
    → IsDescr d
    → size_to_size_class env.descrs size ≡ (sc, d)
    → sc < length w.local.per_sc
    → SameBut d sc w w2
    → (q : ℕ) × (w' : World) × (allocate_slower os env w2 size ≡ ok (some q, w'))
      × Served env d sc (λ sp. ⊥) w q w'
unfolding allocate_slower
slower-some os env w w2 size sc {d} r descr class_of slot same =
    let rand : ℕ = if w2.local.rand == 0 then u32 os.thread_id else w2.local.rand in
    let (q, w', eq, served) =
      allocate_slower_from-some os env size sc d descr class_of
        (record w2 { local = record w2.local { rand = rand } }) r.granting r.few
        (rw same.allocator room) spare (rw same.slots slot) same.hint in
    (
      q,
      w',
      eq,
      Served-after same.mem same.allocator same.slots same.others (λ sp none_at. none_at) served,
    )
  where
    room : get_num_super_pages w.allocator d.range_num < range_capacity
    room = elim (Bool-cases (d.range_num == 0)) [
      | inl first ↦ rw first r.room0
      | inr second ↦ rw second r.room1
    ]

    spare : d.range_num ≡ 1 → IsSpare w2.mem (get_num_super_pages w2.allocator d.range_num)
    spare second = rw (same.mem, same.allocator, second) r.spare

-- The attempt on the cached super page, and the slow path if it fails.
or_else-some :
    (os : Os) (env : Env) (w : World) (size sc : ℕ) {d : SizeClassDescr}
    → IsReady os env w
    → IsDescr d
    → size_to_size_class env.descrs size ≡ (sc, d)
    → sc < length w.local.per_sc
    → {Looked : ℕ → Type 0} (out : Option ℕ × World) → Tried env d sc Looked w out
    → (q : ℕ) × (w' : World) × (or_else (ok out) (λ w2. allocate_slower os env w2 size)
        ≡ ok (some q, w'))
      × Served env d sc Looked w q w'
unfolding or_else
or_else-some os env w size sc r descr class_of slot _ (found q w' given) = (
  q,
  w',
  refl,
  record {
    w0 = w;
    prepared = as_is refl refl;
    slots = refl;
    others = λ sc' ne. refl;
    given = Given-after refl refl refl (λ sc' ne. refl) (λ sp seen. inl seen) given;
  },
)
or_else-some os env w size sc r descr class_of slot _ (missed w2 same all) =
    let (q, w', eq, served) = slower-some os env w w2 size sc r descr class_of slot same in
    (q, w', eq, Served-after refl refl refl (λ sc' ne. refl) (λ sp none_at. absurd none_at) served)

-- The super page that the thread keeps for the class.
abbrev pub CachedPage : World → ℕ → ℕ → Type 0
CachedPage w sc sp = (sp ≡ (get_per_sc w sc).sp) × (sp ≢ 0)

from_cache :
    (os : Os) (env : Env) (w : World) (size sc : ℕ)
    → IsReady os env w
    → sc < num_size_classes
    → size_to_size_class env.descrs size ≡ (sc, class_at filled_descrs sc)
    → (q : ℕ) × (w' : World) × (or_else
          (if (get_per_sc w sc).sp == 0
            then ok (none, w)
            else try_super_page env w sc (class_at filled_descrs sc) (get_per_sc w sc).sp)
          (λ w2. allocate_slower os env w2 size)
        ≡ ok (some q, w'))
      × Served env (class_at filled_descrs sc) sc (CachedPage w sc) w q w'
from_cache os env w size sc r inside class_of =
    let d = class_at filled_descrs sc in
    let descr = class_at-IsDescr sc inside in
    let slot : sc < length w.local.per_sc = rw r.slots inside in
    let hint = r.hints sc inside in
    elim (Bool-cases ((get_per_sc w sc).sp == 0)) [
      | inl empty ↦
          let nothing : Tried env d sc (λ sp. ⊥) w (none, w) =
            missed w (SameBut-refl env d sc w slot hint) (λ sp e. absurd e) in
          let (q, w', eq, served) =
            or_else-some os env w size sc {d = d} r descr class_of slot (none, w) nothing in
          rw empty
            (q, w', eq, Served-after refl refl refl (λ sc' ne. refl) (λ sp e. absurd e) served)
      | inr full_slot ↦ elim (r.cached sc inside) [
        | inl empty ↦ absurd (ne full_slot ((==_iff _ _).1 empty))
        | inr placed ↦
            let (out, eq, tried) =
              try_super_page-Tried env d sc w (get_per_sc w sc).sp placed slot hint in
            let (q, w', eq', served) =
              or_else-some os env w size sc {d = d} r descr class_of slot out tried in
            let nonzero : (get_per_sc w sc).sp ≢ 0 = λ e. ne full_slot ((==_iff _ _).1 e) in
            rw (full_slot, eq)
              (
                q,
                w',
                eq',
                Served-after refl refl refl (λ sc' other. refl)
                    (λ sp e. (e, λ zero_sp. nonzero (sym e ∙ zero_sp))) served,
              )
      ]
    ]
  where
    ne : {b : Bool} → b ≡ false → b ≡ true → ⊥
    ne e e' = cc

IsReady-stats :
    {os : Os} {env : Env} {w : World} (stats : Statistics)
    → IsReady os env w
    → IsReady os env (with_stats w stats)
IsReady-stats stats r = record {
  filled = r.filled;
  few = r.few;
  granting = r.granting;
  slots = r.slots;
  hints = r.hints;
  cached = r.cached;
  room0 = r.room0;
  room1 = r.room1;
  spare = r.spare;
}

IsReady-if :
    {os : Os} {env : Env} {w : World} (print_stats : Bool) (stats : Statistics)
    → IsReady os env w
    → IsReady os env (if print_stats then with_stats w stats else w)
IsReady-if true stats r = IsReady-stats stats r
IsReady-if false stats r = r

from_stats :
    {env : Env} {d : SizeClassDescr} {sc : ℕ} {w w' : World} {ptr : ℕ} (print_stats : Bool)
    (stats : Statistics)
    → Served env d sc
        (CachedPage (if print_stats then with_stats w stats else w) sc)
        (if print_stats then with_stats w stats else w)
        ptr
        w'
    → Served env d sc (CachedPage w sc) w ptr w'
from_stats true stats s = Served-after refl refl refl (λ sc' ne. refl) (λ sp e. e) s
from_stats false stats s = s

-- What an allocation of `size` bytes does: it serves a chunk of the smallest class.
pub allocate-Served :
    (os : Os) (env : Env) (w : World) (size : ℕ)
    → IsReady os env w
    → 0 < size
    → size ≤ max_size_class
    → (sc ptr : ℕ) × (w' : World) × IsFirstFit filled_descrs size sc
      × (allocate os env w size ≡ ok (some ptr, w'))
      × Served env (class_at filled_descrs sc) sc (CachedPage w sc) w ptr w'
unfolding allocate
allocate-Served os env w size r pos top =
    let (sc, class_of, fit) = size_to_size_class-IsFirstFit size pos top in
    let class_of' : size_to_size_class env.descrs size ≡ (sc, class_at filled_descrs sc) =
      rw r.filled class_of in
    let stats = w.local.stats in
    let counted : Statistics = record stats {
      allocs_per_size_class = bump stats.allocs_per_size_class sc;
    } in
    let w1 : World = if env.target.config.print_stats then with_stats w counted else w in
    let (q, w', eq, served) =
      from_cache os env w1 size sc (IsReady-if env.target.config.print_stats counted r) fit.inside
        class_of' in
    (sc, q, w', fit, rw class_of' eq, from_stats env.target.config.print_stats counted served)

-- Where the system grants memory and each range has room for a super page, `Allocate` returns a
-- pointer for every size from 1 to the largest class: no trap is reached, and the endless loop of
-- `AllocateSlower` ends in its second round at the latest.
pub allocate-some :
    (os : Os) (env : Env) (w : World) (size : ℕ)
    → IsReady os env w
    → 0 < size
    → size ≤ max_size_class
    → (ptr : ℕ) × (w' : World) × (allocate os env w size ≡ ok (some ptr, w'))
allocate-some os env w size r pos top =
    let (sc, ptr, w', fit, eq, served) = allocate-Served os env w size r pos top in (ptr, w', eq)
