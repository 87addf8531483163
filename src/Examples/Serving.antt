-- ===== src/Examples/Serving.antt =====
-- Requests to super pages, at concrete inputs.
use sanitizers.Base.{ℕ, ◌+◌, refl, arith, true, false, Option, List, [], ◌∷◌, lt→ltb}
use sanitizers.Layout.{super_page_size}
use sanitizers.SizeClass.{chunk_size}
use sanitizers.SuperPage.{states_of}
use sanitizers.SuperPage.Chunk.{state_in_page}
use sanitizers.SuperPage.Contract.{
  vacant, held, Heap, Request, give, retire, point_to, end_scan, Served,
}
use sanitizers.SuperPage.Serve.{Page, serve_all, Represents, Mirrors}
use sanitizers.SuperPage.Serve.Runs.{serve_all-Served}
use sanitizers.SuperPage.Serve.Exclusive.{
  AllSpare, spare_end, spare_next, NoneIs, StillHeld, serve_all-NoneIs,
}
use sanitizers.Examples.Pages.{
  env, d, sp, fresh, fresh-IsSuperPage, busy, busy-IsSuperPage, sp-IsPlaced,
}

abbrev fresh_page : Page
fresh_page = record { mem = fresh; hint = 3 }

fresh_page-Represents : Represents env sp d fresh_page (λ p. vacant)
fresh_page-Represents = record {
  placed = fresh-IsSuperPage;
  hint = omega arith;
  states = λ p below. refl;
}

-- A chunk is freed twice.
abbrev requests : List Request
requests = give false ∷ retire 48 ∷ retire 48 ∷ []

serve_all-Served_example :
    (all : List (Option ℕ) × Option Heap) × Served d.num_chunks
      (chunk_size d)
      requests
      (λ p. vacant)
      all
    × Mirrors env sp d (serve_all env sp d fresh_page requests) all
serve_all-Served_example =
    serve_all-Served env sp d (omega arith) requests fresh_page (λ p. vacant) fresh_page-Represents

abbrev busy_page : Page
busy_page = record { mem = busy; hint = 0 }

busy_page-Represents : Represents env sp d busy_page (λ p. held false)
busy_page-Represents = record {
  placed = busy-IsSuperPage;
  hint = omega arith;
  states = λ p below.
      let (lower, upper) = state_in_page sp-IsPlaced p below (λ e. absurd (omega (arith, e))) in
      let inside = lt→ltb (states_of sp d + p) (sp + super_page_size) upper in rw inside refl;
}

abbrev others : List Request
others = retire 0 ∷ end_scan ∷ give true ∷ point_to 80 ∷ []

others-AllSpare : AllSpare (chunk_size d) 5 others
others-AllSpare =
    spare_next (λ e. omega (arith, e)) (spare_next tt (spare_next tt (spare_next tt spare_end)))

serve_all-NoneIs_example :
    NoneIs env sp d 5 (serve_all env sp d busy_page others).0
    × StillHeld env sp d 5 false (serve_all env sp d busy_page others).1
serve_all-NoneIs_example =
    serve_all-NoneIs env sp d 5 (omega arith) false others busy_page (λ p. held false) (omega arith)
      busy_page-Represents refl others-AllSpare
