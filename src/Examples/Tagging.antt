-- ===== src/Examples/Tagging.antt =====
-- Frees and accesses through tagged pointers, and scopes, at concrete inputs.
use sanitizers.Base.{
  ◌&&◌, Mem, ok, trap, ◌==◌, if◌then◌else◌, u8, ℕ, ◌+◌, ◌%◌, ◌^◌, ◌≤◌, ◌<◌, ◌≡◌, refl, inl, true,
  false, [], ◌∷◌, arith,
}
use sanitizers.Base.Int.{pos, negsuc}
use sanitizers.Shadow.{is_mine, get}
use sanitizers.Tags.{apply_address_tag, get_memory_tag}
use sanitizers.SuperPage.{Env, update_memory_tag_on_free}
use sanitizers.Allocator.{
  Statistics, Allocator, World, remove_address_tag_and_check_for_double_free, allocator_deallocate,
  count_access,
}
use sanitizers.Config.{zero_config}
use sanitizers.SizeClass.Filled.{filled_descrs}
use sanitizers.Allocator.State.{Statistics, Allocator, World}
use sanitizers.Allocator.Untag.{UsesAliases, update_memory_tag_on_free-stale}
use sanitizers.Allocator.Scopes.{run_scopes, none_left, nest, run_scopes-balanced}
use sanitizers.Malloc.{mtm_access}
use sanitizers.Malloc.Access.{mtm_access-own_tag}
use sanitizers.Shadow.{get_shadow_ptr}
use sanitizers.SuperPage.{address_of_chunk, states_of}
use sanitizers.SuperPage.State.{available}
use sanitizers.SuperPage.Free.{is_used, KeepsBut}
use sanitizers.Allocator.Frees.{allocator_deallocate-chunk}
use sanitizers.Allocator.RoundTrip.{FreedOnce, try_allocate-deallocate}
use sanitizers.Examples.Pages.{fresh-IsSuperPage, d, busy, busy-IsSuperPage, env, sp, fresh}

pub env-UsesAliases : UsesAliases env.target
env-UsesAliases = record {
  uses_shadow = record { no_mte = refl; shadow = refl };
  no_tbi = refl;
  some_aliases = omega arith;
  few = omega arith;
}

-- The same with two address tags.
abbrev env2 : Env
env2 = record {
  target = record {
    tbi = false;
    config = record zero_config { use_shadow = true; use_aliases = 1 };
  };
  descrs = filled_descrs;
}

env2-UsesAliases : UsesAliases env2.target
env2-UsesAliases = record {
  uses_shadow = record { no_mte = refl; shadow = refl };
  no_tbi = refl;
  some_aliases = omega arith;
  few = omega arith;
}

-- A memory whose every byte is 6.
abbrev sixes : Mem
sixes a = 6

abbrev no_stats : Statistics
no_stats = record {
  allocs_per_size_class = [];
  accesses_per_size_class = [];
  large_allocs = 0;
  access_other = 0;
}

abbrev idle : Allocator
idle = record {
  stats = no_stats;
  num_scans = 0;
  num_super_pages0 = 1;
  num_super_pages1 = 0;
  bytes_in_quarantine = 0;
  scan_pos0 = 0;
  scan_pos1 = 0;
  last_quarantine_size = 0;
  data_only_scope_level = 0;
}

abbrev world : World
world = record {
  mem = sixes;
  allocator = idle;
  local = record { rand = 1; local_quarantine_size = 0; per_sc = []; stats = no_stats };
}

fresh_tag : get_memory_tag env.target fresh sp ≡ ok 0
fresh_tag = unfold get_memory_tag is_mine get in refl

sixes_tag : get_memory_tag env2.target sixes (sp + 32) ≡ ok 6
sixes_tag = unfold get_memory_tag is_mine get in refl

update_memory_tag_on_free-stale_example :
    (m' : Mem) × (update_memory_tag_on_free env fresh sp 16 ≡ ok (u8 (0 + 1), m'))
    × ((a : ℕ)
        → sp ≤ a
        → a < sp + 16
        → (allocator_deallocate env m' (apply_address_tag env.target a 0) ≡ trap)
          × (remove_address_tag_and_check_for_double_free env.target m'
                (apply_address_tag env.target a (u8 (0 + 1)))
              ≡ ok a))
update_memory_tag_on_free-stale_example =
    update_memory_tag_on_free-stale env fresh env-UsesAliases
      (inl (record {
        nonempty = omega arith;
        lower = omega arith;
        upper = omega arith;
        aligned = refl;
        whole = refl;
      }))
      (omega arith) fresh_tag

-- A trap on an access through the pointer that the allocator gave out.
mtm_access-own_tag_example :
    (w' : World) × (count_access env2 world (apply_address_tag env2.target (sp + 32) 6) ≡ ok w')
    × (◌≡◌ {A = ℕ} 1 4 → mtm_access env2 world (apply_address_tag env2.target (sp + 32) 6) ≡ ok w')
    × (2 ^ 1 ≤ 6 % 16 → mtm_access env2 world (apply_address_tag env2.target (sp + 32) 6) ≡ trap)
mtm_access-own_tag_example =
    mtm_access-own_tag env2 env2-UsesAliases world (sp + 32) 6 (omega arith, omega arith)
      (omega arith) sixes_tag

run_scopes-balanced_example : run_scopes (pos 1 ∷ pos 1 ∷ negsuc 0 ∷ negsuc 0 ∷ []) idle ≡ ok idle
run_scopes-balanced_example =
    run_scopes-balanced idle (nest (nest none_left none_left) none_left) (omega arith)

-- The shadow of that memory holds the byte 1.
busy_tag : get_memory_tag env.target busy (address_of_chunk sp 5 d) ≡ ok 1
busy_tag = unfold get_memory_tag is_mine get get_shadow_ptr address_of_chunk in refl

allocator_deallocate-chunk_example :
    (m' : Mem) × (allocator_deallocate env busy
        (apply_address_tag env.target (address_of_chunk sp 5 d) 1)
      ≡ (if (1 % 2 ^ 4 == 1 % 2 ^ 4) && is_used (busy (states_of sp d + 5)) then ok m' else trap))
    × (m' (states_of sp d + 5) ≡ available)
    × KeepsBut busy m' (states_of sp d + 5)
allocator_deallocate-chunk_example =
    allocator_deallocate-chunk env busy env-UsesAliases busy-IsSuperPage (omega arith) (omega arith)
      busy_tag

try_allocate-deallocate_example : FreedOnce env fresh false d 0 sp
try_allocate-deallocate_example =
    try_allocate-deallocate env fresh false 0 env-UsesAliases fresh-IsSuperPage (omega arith)
      (λ a. omega arith)
