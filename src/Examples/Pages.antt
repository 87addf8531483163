-- ===== src/Examples/Pages.antt =====
-- Super pages at concrete inputs.
use sanitizers.Base.{
  Mem, store8, ok, trap, ltb, if◌then◌else◌, ℕ, ◌+◌, ◌*◌, ◌%◌, ◌≤◌, ◌<◌, ◌≡◌, refl, ◌≢◌, ◌⊎◌, true,
  false, Option, arith,
}
use sanitizers.Layout.{super_page_size, allocator_space}
use sanitizers.Shadow.{is_mine, get_shadow_ptr, get}
use sanitizers.Config.{zero_config}
use sanitizers.SizeClass.{SizeClassDescr, chunk_size, size_of_inline_meta}
use sanitizers.SizeClass.Filled.{filled_descrs}
use sanitizers.SizeClass.Lookup.{class_at}
use sanitizers.SizeClass.Shape.{IsDescr, class_at-IsDescr}
use sanitizers.SuperPage.{
  available, used_mixed, quarantined, marked, swept, Env, get_size_class, get_scd, state_array,
  states_of, address_of_chunk, try_allocate, compute_state_ptr, move_from_quarantine_to_available,
  deallocate,
}
use sanitizers.Util.{round_up_to}
use sanitizers.SuperPage.State.{available, used_mixed, quarantined, marked, swept}
use sanitizers.SuperPage.Chunk.{IsPlaced, IsSuperPage, compute_state_ptr_cases}
use sanitizers.SuperPage.Alloc.{Allocated, try_allocate-Allocated}
use sanitizers.SuperPage.Free.{is_used, KeepsBut, deallocate-chunk}
use sanitizers.SuperPage.Sweep.{number, sweep_lem}

abbrev pub env : Env
env = record {
  target = record {
    tbi = false;
    config = record zero_config { use_shadow = true; use_aliases = 4 };
  };
  descrs = filled_descrs;
}

-- The class of 16 bytes, and the first super page.
abbrev pub d : SizeClassDescr
d = class_at filled_descrs 0

abbrev pub sp : ℕ
sp = allocator_space

-- A memory whose every byte is zero: the first super page is of class 0 with all chunks available.
abbrev pub fresh : Mem
fresh a = 0

pub d-IsDescr : IsDescr d
d-IsDescr = class_at-IsDescr 0 (omega arith)

pub sp-IsPlaced : IsPlaced sp d
sp-IsPlaced = record { descr = d-IsDescr; aligned = refl; lower = omega arith; upper = omega arith }

pub fresh-IsSuperPage : IsSuperPage env fresh sp d
fresh-IsSuperPage = record { class = known; place = sp-IsPlaced }
  where
    known : get_scd env fresh sp ≡ ok d
    known = unfold get_scd get_size_class is_mine get in refl

try_allocate-Allocated_example :
    (out : Option ℕ × ℕ × Mem) × (try_allocate env fresh false d 3 sp ≡ ok out)
    × Allocated env fresh d 3 sp used_mixed out
try_allocate-Allocated_example = try_allocate-Allocated env fresh false 3 sp-IsPlaced (omega arith)

compute_state_ptr_cases_example :
    ((idx : ℕ) × (idx < d.num_chunks)
      × ((sp + 40) % super_page_size ≡ idx * chunk_size d)
      × (compute_state_ptr sp (sp + 40) d ≡ ok (states_of sp d + idx)))
    ⊎ (((idx : ℕ) → idx < d.num_chunks → (sp + 40) % super_page_size ≢ idx * chunk_size d)
        × (compute_state_ptr sp (sp + 40) d ≡ trap))
compute_state_ptr_cases_example = compute_state_ptr_cases sp-IsPlaced (sp + 40)

-- A double free: the chunk is available.
deallocate-chunk_example :
    (m' : Mem) × (deallocate env fresh sp (address_of_chunk sp 5 d)
      ≡ (if is_used (fresh (states_of sp d + 5)) then ok m' else trap))
    × (m' (states_of sp d + 5) ≡ available)
    × KeepsBut fresh m' (states_of sp d + 5)
deallocate-chunk_example =
    deallocate-chunk env fresh fresh-IsSuperPage (omega arith) 5 (omega arith)

-- A memory whose chunks of the first super page are all in use.
abbrev pub busy : Mem
busy a = if ltb a (allocator_space + super_page_size) then used_mixed else 0

pub busy-IsSuperPage : IsSuperPage env busy sp d
busy-IsSuperPage = record { class = known; place = sp-IsPlaced }
  where
    known : get_scd env busy sp ≡ ok d
    known = unfold get_scd get_size_class is_mine get get_shadow_ptr in refl

abbrev new_tag : ℕ
new_tag = 48

-- A memory with a quarantined chunk.
abbrev freed : Mem
freed = store8 fresh (states_of sp d + 5) quarantined

freed-IsSuperPage : IsSuperPage env freed sp d
freed-IsSuperPage = record { class = known; place = sp-IsPlaced }
  where
    known : get_scd env freed sp ≡ ok d
    known =
        unfold get_scd get_size_class is_mine get get_shadow_ptr store8 state_array
          size_of_inline_meta round_up_to in
        refl

sweep_lem_example :
    (m' : Mem) × (move_from_quarantine_to_available env freed sp ≡ ok m')
    × ((p : ℕ) → p < d.num_chunks → m' (states_of sp d + p) ≡ swept (freed (states_of sp d + p)))
    × ((a : ℕ) → (a < states_of sp d) ⊎ (states_of sp d + d.num_chunks ≤ a) → m' a ≡ freed a)
    × (number sp d m' quarantined ≡ number sp d freed marked)
    × (number sp d m' marked ≡ 0)
    × (number sp d m' available ≡ number sp d freed available + number sp d freed quarantined)
sweep_lem_example = sweep_lem env freed freed-IsSuperPage
