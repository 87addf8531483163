-- ===== src/SuperPage/Contract.antt =====
-- What `SuperPage` promises its clients, with chunks for state bytes: a request is answered, or it
-- traps, and the chunks change as the constructors of `Promise` say.
use sanitizers.Base.{
  ℕ, ◌+◌, ◌*◌, ◌%◌, ◌≤◌, ◌<◌, ◌≡◌, ◌≢◌, if◌then◌else◌, Bool, Option, none, some, List, [], ◌∷◌,
  update,
}
use sanitizers.Layout.{super_page_size}

pub data Chunk : Type 0 where
  vacant : Chunk
  held : (data_only : Bool) → Chunk
  retired : Chunk
  reached : Chunk

abbrev pub Heap : Type 0
Heap = ℕ → Chunk

-- The operations on one super page; pointers to free are given by their offset in it.
pub data Request : Type 0 where
  give : (data_only : Bool) → Request
  give_back : (offset : ℕ) → Request
  retire : (offset : ℕ) → Request
  point_to : (value : ℕ) → Request
  end_scan : Request

abbrev pub Starts : ℕ → ℕ → ℕ → Type 0
Starts size offset p = offset % super_page_size ≡ p * size

abbrev pub Points : ℕ → ℕ → ℕ → Type 0
Points size value p =
    (p * size ≤ value % super_page_size) × (value % super_page_size < p * size + size)

abbrev pub after_scan : Chunk → Chunk
after_scan vacant = vacant
after_scan (held data_only) = held data_only
after_scan retired = vacant
after_scan reached = retired

-- The answer to a request, a chunk or nothing, and the chunks afterwards; `none` is a trap.
pub data Promise (n size : ℕ) : Request → Heap → Option (Option ℕ × Heap) → Type 0 where
  given :
      (h : Heap) (data_only : Bool) (p : ℕ)
      → p < n
      → h p ≡ vacant
      → Promise n size (give data_only) h (some (some p, update h p (held data_only)))
  none_vacant :
      (h : Heap) (data_only : Bool)
      → ((p : ℕ) → p < n → h p ≢ vacant)
      → Promise n size (give data_only) h (some (none, h))
  taken_back :
      (h : Heap) (offset p : ℕ) (data_only : Bool)
      → p < n
      → Starts size offset p
      → h p ≡ held data_only
      → Promise n size (give_back offset) h (some (none, update h p vacant))
  bad_free :
      (h : Heap) (offset : ℕ)
      → ((p : ℕ) (data_only : Bool) → p < n → Starts size offset p → h p ≢ held data_only)
      → Promise n size (give_back offset) h none
  put_off :
      (h : Heap) (offset p : ℕ) (data_only keep : Bool)
      → p < n
      → Starts size offset p
      → h p ≡ held data_only
      → Promise n size
          (retire offset)
          h
          (some (none, update h p (if keep then retired else vacant)))
  bad_retire :
      (h : Heap) (offset : ℕ)
      → ((p : ℕ) (data_only : Bool) → p < n → Starts size offset p → h p ≢ held data_only)
      → Promise n size (retire offset) h none
  seen :
      (h : Heap) (value p : ℕ)
      → p < n
      → Points size value p
      → h p ≡ retired
      → Promise n size (point_to value) h (some (none, update h p reached))
  not_retired :
      (h : Heap) (value : ℕ)
      → ((p : ℕ) → p < n → Points size value p → h p ≢ retired)
      → Promise n size (point_to value) h (some (none, h))
  swept_all : (h : Heap) → Promise n size end_scan h (some (none, λ p. after_scan (h p)))

-- A list of requests: the answers until the end or the first trap.
pub data Served (n size : ℕ) : List Request → Heap → List (Option ℕ) × Option Heap → Type 0 where
  done : (h : Heap) → Served n size [] h ([], some h)
  stopped :
      (r : Request) (rs : List Request) (h : Heap)
      → Promise n size r h none
      → Served n size (r ∷ rs) h ([], none)
  answered :
      (r : Request) (rs : List Request) (h h' : Heap) (a : Option ℕ)
      (rest : List (Option ℕ) × Option Heap)
      → Promise n size r h (some (a, h'))
      → Served n size rs h' rest
      → Served n size (r ∷ rs) h (a ∷ rest.0, rest.1)
