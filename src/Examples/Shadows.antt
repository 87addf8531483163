-- ===== src/Examples/Shadows.antt =====
-- Shadows and tags at concrete inputs.
use sanitizers.Base.{
  Mem, ok, ltb, leb, if◌then◌else◌, ℕ, ◌+◌, ◌*◌, ◌%◌, ◌^◌, ◌≡◌, refl, inl, true, false, ◌&&◌, arith,
}
use sanitizers.Layout.{allocator_space}
use sanitizers.Config.{zero_config}
use sanitizers.Tags.{Target, apply_address_tag, get_address_tag, set_memory_tag, get_memory_tag}
use sanitizers.Tags.Address.{tag_count, address_tag_round_trip}
use sanitizers.Tags.Memory.{InAllocator, set_memory_tag_lem}

abbrev no_memory : Mem
no_memory a = 0

-- Four bits of aliases and a software shadow.
abbrev aliased : Target
aliased = record { tbi = false; config = record zero_config { use_shadow = true; use_aliases = 4 } }

tags_run :
    (apply_address_tag aliased allocator_space 0x95 ≡ allocator_space + 5 * 2 ^ 37)
    × (get_address_tag aliased (allocator_space + 5 * 2 ^ 37) ≡ 5)
unfolding apply_address_tag get_address_tag
tags_run = (refl, refl)

address_tag_round_trip_example :
    (get_address_tag aliased (apply_address_tag aliased allocator_space 0x95)
      ≡ 0x95 % tag_count aliased)
    × (apply_address_tag aliased (apply_address_tag aliased allocator_space 0x95) 0
        ≡ apply_address_tag aliased allocator_space 0)
address_tag_round_trip_example =
    address_tag_round_trip aliased (omega arith) allocator_space 0x95 (omega arith) (omega arith)

set_memory_tag_lem_example :
    (m' : Mem) × (set_memory_tag aliased no_memory allocator_space 48 9 ≡ ok m')
    × ((w : ℕ)
        → InAllocator w
        → get_memory_tag aliased m' w ≡ (
            if leb allocator_space w && ltb w (allocator_space + 48)
            then ok 9
            else get_memory_tag aliased no_memory w))
set_memory_tag_lem_example =
    set_memory_tag_lem aliased no_memory allocator_space 48 9
      (record { no_mte = refl; shadow = refl })
      (inl (record {
        nonempty = omega arith;
        lower = omega arith;
        upper = omega arith;
        aligned = refl;
        whole = refl;
      }))
