-- ===== src/ShadowPages/Maps/Sections.antt =====
-- A list of mappings with their attributes is read section by section.
use sanitizers.Base.{
  Outcome, ok, trap, ◌>>=◌, ◌≡◌, refl, ap, sym, ◌∙◌, ℕ, List, [], ◌∷◌, ◌++◌, Option, none, some,
}
use mathlib.Core.List.{append-nil, append_assoc}
use sanitizers.ShadowPages.{Map}
use sanitizers.ShadowPages.Maps.{
  Line, header, rss_line, pss_line, other_line, make_map, push_current, with_current, set_rss,
  set_pss, read_lines, read_maps, parse_all,
}

-- The lines behind a header: sizes, or anything else.
pub data Attribute : Type 0 where
  has_rss : ℕ → Attribute
  has_pss : ℕ → Attribute
  ignored : Attribute

pub record Section : Type 0 where
  pub start : ℕ
  pub end_ : ℕ
  pub permissions : List ℕ
  pub name : List ℕ
  pub attributes : List Attribute

abbrev line_of : Attribute → Line
line_of (has_rss n) = rss_line n
line_of (has_pss n) = pss_line n
line_of ignored = other_line

abbrev lines_of : List Attribute → List Line → List Line
lines_of [] rest = rest
lines_of (a ∷ attributes) rest = line_of a ∷ lines_of attributes rest

-- The file, as lines.
abbrev pub all_lines : List Section → List Line
all_lines [] = []
all_lines (s ∷ ss) =
    header s.start s.end_ s.permissions s.name ∷ lines_of s.attributes (all_lines ss)

-- What an attribute says of its mapping; the last one of a kind stays.
abbrev apply : List Attribute → Map → Map
apply [] m = m
apply (has_rss n ∷ attributes) m = apply attributes (set_rss n m)
apply (has_pss n ∷ attributes) m = apply attributes (set_pss n m)
apply (ignored ∷ attributes) m = apply attributes m

-- Each section on its own.
abbrev pub read_sections : List Section → Outcome (List Map)
read_sections [] = ok []
read_sections (s ∷ ss) = make_map s.start s.end_ s.permissions s.name >>= λ m.
    read_sections ss >>= λ ms. ok (apply s.attributes m ∷ ms)

read_attributes :
    (attributes : List Attribute) (rest : List Line) (maps : List Map) (m : Map)
    → read_lines (lines_of attributes rest) maps (some m)
      ≡ read_lines rest maps (some (apply attributes m))
unfolding read_lines with_current
read_attributes [] rest maps m = refl
read_attributes (has_rss n ∷ attributes) rest maps m =
    read_attributes attributes rest maps (set_rss n m)
read_attributes (has_pss n ∷ attributes) rest maps m =
    read_attributes attributes rest maps (set_pss n m)
read_attributes (ignored ∷ attributes) rest maps m = read_attributes attributes rest maps m

-- The mappings that are there already, and the others.
abbrev behind : List Map → Outcome (List Map) → Outcome (List Map)
behind maps (ok ms) = ok (maps ++ ms)
behind maps trap = trap

behind-behind :
    (maps maps' : List Map) (o : Outcome (List Map))
    → behind (maps ++ maps') o ≡ behind maps (behind maps' o)
behind-behind maps maps' (ok ms) = ap ok (append_assoc maps maps' ms)
behind-behind maps maps' trap = refl

one_more :
    (m : Map) (rest : Outcome (List Map)) → behind (m ∷ []) rest ≡ (rest >>= λ ms. ok (m ∷ ms))
one_more m (ok ms) = refl
one_more m trap = refl

-- A section behind its header, and what follows.
read_section :
    (attributes : List Attribute) (rest : List Line) (maps : List Map) (others : Outcome (List Map))
    (o : Outcome Map)
    → ((m : Map) → read_lines rest maps (some m) ≡ behind (maps ++ (m ∷ [])) others)
    → (o >>= λ m. read_lines (lines_of attributes rest) maps (some m))
      ≡ behind maps (o >>= λ m. others >>= λ ms. ok (apply attributes m ∷ ms))
read_section attributes rest maps others trap on = refl
read_section attributes rest maps others (ok m) on =
    read_attributes attributes rest maps m
    ∙ on (apply attributes m)
    ∙ behind-behind maps (apply attributes m ∷ []) others
    ∙ ap (behind maps) (one_more (apply attributes m) others)

read_on :
    (sections : List Section) (maps : List Map) (current : Option Map)
    → read_lines (all_lines sections) maps current
      ≡ behind (push_current maps current) (read_sections sections)
unfolding read_lines push_current
read_on [] maps current = ap ok (sym (append-nil (push_current maps current)))
read_on (s ∷ ss) maps current =
    read_section s.attributes (all_lines ss) (push_current maps current) (read_sections ss)
      (make_map s.start s.end_ s.permissions s.name)
      (λ m. read_on ss (push_current maps current) (some m))

behind-nil : (o : Outcome (List Map)) → behind [] o ≡ o
behind-nil (ok ms) = refl
behind-nil trap = refl

-- `read_maps` reads a file section by section: where its lines match as headers, each followed by its
-- attributes, the result is one mapping for each header, in order, with the last Rss and Pss behind
-- the header; and an assertion fails exactly if it does so for one of the headers.
pub read_maps-eq-read_sections :
    (parse : List ℕ → Line) (lines : List (List ℕ)) (sections : List Section)
    → parse_all parse lines ≡ all_lines sections
    → read_maps parse lines ≡ read_sections sections
unfolding read_maps push_current
read_maps-eq-read_sections parse lines sections e =
    rw e (read_on sections [] none ∙ behind-nil (read_sections sections))
