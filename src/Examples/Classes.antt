-- ===== src/Examples/Classes.antt =====
-- The size classes at concrete inputs.
use sanitizers.Base.{get_or, ok, ℕ, ◌/◌, ◌≤◌, ◌<◌, ◌≡◌, refl, some, arith}
use sanitizers.SizeClass.{
  sc_array, first_fit, size_to_size_class, div_mul_shift, compute_mul_for_div, div_by_size_via_mul,
  size_of_inline_meta, compute_num_chunks, init_size_classes,
}
use sanitizers.SizeClass.Filled.{filled_descrs}
use sanitizers.SizeClass.DivMul.{div_by_size_via_mul-eq-div}
use sanitizers.SizeClass.Chunks.{Fits, compute_num_chunks_greatest}
use sanitizers.SizeClass.Setup.{init_size_classes-filled}
use sanitizers.SizeClass.Lookup.{class_at, IsFirstFit, size_to_size_class-IsFirstFit}

lookup_runs :
    ((size_to_size_class filled_descrs 42).0 ≡ 2) × ((size_to_size_class filled_descrs 1000).0 ≡ 28)
unfolding size_to_size_class first_fit
lookup_runs = (refl, refl)

-- Class 17 has 288 bytes.
div_by_size_via_mul-eq-div_example :
    div_by_size_via_mul 100000 (compute_mul_for_div (get_or sc_array 17 0) div_mul_shift)
    ≡ 100000 / get_or sc_array 17 0
div_by_size_via_mul-eq-div_example =
    div_by_size_via_mul-eq-div 17 100000 (omega arith) (omega arith)

compute_num_chunks_greatest_example :
    (n : ℕ) × (compute_num_chunks 1024 1 ≡ ok n)
    × (0 < n)
    × Fits 1024 1 n
    × ((m : ℕ) → Fits 1024 1 m → m ≤ n)
compute_num_chunks_greatest_example = compute_num_chunks_greatest 1024 1 (omega arith) one
  where
    one : Fits 1024 1 1
    one = unfold size_of_inline_meta in omega arith

init_size_classes-filled_example : init_size_classes 1 sc_array ≡ some (ok filled_descrs)
init_size_classes-filled_example = init_size_classes-filled 0

size_to_size_class-IsFirstFit_example :
    (j : ℕ) × (size_to_size_class filled_descrs 1000 ≡ (j, class_at filled_descrs j))
    × IsFirstFit filled_descrs 1000 j
size_to_size_class-IsFirstFit_example =
    size_to_size_class-IsFirstFit 1000 (omega arith) (omega arith)
