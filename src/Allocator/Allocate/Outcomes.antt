-- ===== src/Allocator/Allocate/Outcomes.antt =====
-- What an attempt to allocate leaves.
use sanitizers.SuperPage.Free.{is_used}
use sanitizers.Base.{true, store8, ◌^◌}
use sanitizers.Tags.{apply_address_tag, get_memory_tag}
use sanitizers.SuperPage.{address_of_chunk}
use sanitizers.Base.{
  ◌-◌, leb, ℕ, ◌+◌, ◌≡◌, ◌≢◌, ◌<◌, ◌≤◌, Option, none, some, ok, if◌then◌else◌, length, ◌∙◌,
}
use sanitizers.SizeClass.{SizeClassDescr}
use sanitizers.SuperPage.{Env, states_of, available}
use sanitizers.SuperPage.State.{available}
use sanitizers.Allocator.Allocate.Pages.{page_at}
use sanitizers.Allocator.State.{World, get_num_super_pages}
use sanitizers.Shadow.{get_shadow_ptr, super_page_metadata}
use sanitizers.Allocator.Allocate.{get_per_sc, leb, add64, meta}

-- The slots of the other classes stay.
abbrev pub OtherSlots : ℕ → World → World → Type 0
OtherSlots sc w w' = (sc' : ℕ) → sc' ≢ sc → get_per_sc w' sc' ≡ get_per_sc w sc'

-- What a search that found nothing leaves: the same memory and allocator, the same list of classes
-- but for the super page of class `sc`.
pub record SameBut (d : SizeClassDescr) (sc : ℕ) (w w' : World) : Type 0 where
  pub mem : w'.mem ≡ w.mem
  pub allocator : w'.allocator ≡ w.allocator
  pub rand : w'.local.rand ≡ w.local.rand
  pub slots : length w'.local.per_sc ≡ length w.local.per_sc
  pub hint : (get_per_sc w' sc).last_idx_hint ≤ d.num_chunks
  pub others : OtherSlots sc w w'

-- What a search that found `ptr` leaves: a chunk that was available, of a super page that was looked
-- at, is used; its tagged address is returned, and the thread keeps the super page and the index
-- behind the chunk.
pub record Given (env : Env) (d : SizeClassDescr) (sc : ℕ) (Looked : ℕ → Type 0) (w : World)
    (ptr : ℕ) (w' : World) : Type 0 where
  pub sp : ℕ
  pub chunk : ℕ
  pub tag : ℕ
  pub state : ℕ
  pub looked : Looked sp
  pub below : chunk < d.num_chunks
  pub free : w.mem (states_of sp d + chunk) ≡ available
  pub used : is_used state ≡ true
  pub small : state < 2 ^ 8
  pub stored : w'.mem ≡ store8 w.mem (states_of sp d + chunk) state
  pub pointer : ptr ≡ apply_address_tag env.target (address_of_chunk sp chunk d) tag
  pub read : get_memory_tag env.target w'.mem (address_of_chunk sp chunk d) ≡ ok tag
  pub allocator : w'.allocator ≡ w.allocator
  pub slots : length w'.local.per_sc ≡ length w.local.per_sc
  pub own : get_per_sc w' sc ≡ record { sp = sp; last_idx_hint = chunk + 1 }
  pub others : OtherSlots sc w w'

-- The same from a world that a failed search started from.
pub Given-after :
    {env : Env} {d : SizeClassDescr} {sc : ℕ} {Looked Looked' : ℕ → Type 0} {w w1 w' : World}
    {ptr : ℕ}
    → w1.mem ≡ w.mem
    → w1.allocator ≡ w.allocator
    → length w1.local.per_sc ≡ length w.local.per_sc
    → OtherSlots sc w w1
    → ((sp : ℕ) → Looked sp → Looked' sp)
    → Given env d sc Looked w1 ptr w'
    → Given env d sc Looked' w ptr w'
Given-after mem allocator slots others to g = record {
  sp = g.sp;
  chunk = g.chunk;
  tag = g.tag;
  state = g.state;
  looked = to g.sp g.looked;
  below = g.below;
  free = rw mem at g.free;
  used = g.used;
  small = g.small;
  stored = rw mem at g.stored;
  pointer = g.pointer;
  read = g.read;
  allocator = g.allocator ∙ allocator;
  slots = g.slots ∙ slots;
  own = g.own;
  others = λ sc' ne. g.others sc' ne ∙ others sc' ne;
}

-- No chunk of the super page at `sp` is available.
abbrev pub IsFull : World → SizeClassDescr → ℕ → Type 0
IsFull w d sp = (p : ℕ) → p < d.num_chunks → w.mem (states_of sp d + p) ≢ available

-- A pointer, or nothing and the super pages that `Looked` names are full.
pub data Tried (env : Env) (d : SizeClassDescr) (sc : ℕ) (Looked : ℕ → Type 0) (w : World)
    : Option ℕ × World → Type 0 where
  found : (p : ℕ) (w' : World) → Given env d sc Looked w p w' → Tried env d sc Looked w (some p, w')
  missed :
      (w' : World)
      → SameBut d sc w w'
      → ((sp : ℕ) → Looked sp → IsFull w d sp)
      → Tried env d sc Looked w (none, w')

-- The index that round `i` looks at.
abbrev pub wrapped : ℕ → ℕ → ℕ → ℕ
wrapped n offset i = if leb n (i + offset) then i + offset - n else i + offset

-- The super pages of the class that the rounds from `i` on look at.
abbrev pub Looked : SizeClassDescr → ℕ → ℕ → ℕ → ℕ → World → ℕ → Type 0
Looked d sc n offset i w sp =
    (j : ℕ) × (i ≤ j)
    × (j < n)
    × (w.mem (add64 (meta d.range_num) (wrapped n offset j)) ≡ sc)
    × (sp ≡ page_at d.range_num (wrapped n offset j))

-- The super pages of the class in the range.
abbrev pub Known : SizeClassDescr → ℕ → World → ℕ → Type 0
Known d sc w sp =
    (i : ℕ) × (i < get_num_super_pages w.allocator d.range_num)
    × (sp ≡ page_at d.range_num i)
    × (w.mem (get_shadow_ptr super_page_metadata sp) ≡ sc)
