-- ===== src/SuperPage/Serve/Runs.antt =====
-- `SuperPage` refines its contract.
use sanitizers.Base.{Outcome, ℕ, ◌≤◌, Option, List, [], ◌∷◌}
use sanitizers.SizeClass.{SizeClassDescr, chunk_size}
use sanitizers.SuperPage.{Env}
use sanitizers.SuperPage.Contract.{
  Heap, Request, give, give_back, retire, point_to, end_scan, Promise, Served, done, stopped,
  answered,
}
use sanitizers.SuperPage.Serve.{
  Page, serve, follow, serve_all, Represents, Meets, both_trap, both_answer, Mirrors, both_done,
  both_stopped, both_go_on,
}
use sanitizers.SuperPage.Serve.Answers.{
  give-Answered, give_back-Answered, retire-Answered, point_to-Answered, end_scan-Answered,
}

module _ (env : Env) (sp : ℕ) (d : SizeClassDescr) (few : env.target.config.use_aliases ≤ 4) where
  -- Each operation of a super page keeps its promise: from bytes that stand for the chunks `h`, for
  -- every request, it traps or answers as the contract allows, and then its bytes stand for the
  -- chunks of the contract.
  pub serve-Promise :
      (page : Page) (h : Heap)
      → Represents env sp d page h
      → (r : Request)
      → (out : Option (Option ℕ × Heap)) × Promise d.num_chunks (chunk_size d) r h out
        × Meets env sp d (serve env sp d page r) out
  serve-Promise page h rep (give data_only) = give-Answered env sp d few page h rep data_only
  serve-Promise page h rep (give_back offset) = give_back-Answered env sp d few page h rep offset
  serve-Promise page h rep (retire offset) = retire-Answered env sp d few page h rep offset
  serve-Promise page h rep (point_to value) = point_to-Answered env sp d few page h rep value
  serve-Promise page h rep end_scan = end_scan-Answered env sp d few page h rep

  follow-Mirrors :
      (r : Request) (rs : List Request) (h : Heap) (got : Outcome (Option ℕ × Page))
      (out : Option (Option ℕ × Heap))
      → Promise d.num_chunks (chunk_size d) r h out
      → Meets env sp d got out
      → ((page : Page) (h' : Heap)
          → Represents env sp d page h'
          → (rest : List (Option ℕ) × Option Heap) × Served d.num_chunks (chunk_size d) rs h' rest
            × Mirrors env sp d (serve_all env sp d page rs) rest)
      → (all : List (Option ℕ) × Option Heap) × Served d.num_chunks (chunk_size d) (r ∷ rs) h all
        × Mirrors env sp d (follow env sp d got (λ page. serve_all env sp d page rs)) all
  unfolding follow
  follow-Mirrors r rs h _ _ promise both_trap next = (_, stopped r rs h promise, both_stopped)
  follow-Mirrors r rs h _ _ promise (both_answer {a = a} {h = h'} answer rep) next =
      let (rest, served, mirrors) = next _ h' rep in
      (_, answered r rs h h' a rest promise served, both_go_on answer mirrors)

  -- `SuperPage` refines its contract: for every list of requests to a super page whose bytes stand
  -- for the chunks `h` there is a run of the contract from `h` with the same answers, each pointer
  -- being the address of the chunk with a tag, that traps at the same request, if any, and ends in
  -- the chunks that the bytes stand for.
  pub serve_all-Served :
      (rs : List Request) (page : Page) (h : Heap)
      → Represents env sp d page h
      → (all : List (Option ℕ) × Option Heap) × Served d.num_chunks (chunk_size d) rs h all
        × Mirrors env sp d (serve_all env sp d page rs) all
  unfolding serve_all
  serve_all-Served [] page h rep = (_, done h, both_done rep)
  serve_all-Served (r ∷ rs) page h rep =
      let (out, promise, meets) = serve-Promise page h rep r in
      follow-Mirrors r rs h (serve env sp d page r) out promise meets
        (λ page' h' rep'. serve_all-Served rs page' h' rep')
