-- ===== src/Large/Placing.antt =====
-- Where a large chunk lies in its mapping.
use sanitizers.Base.{
  Mem, ok, ltb, leb, ◌==◌, if◌then◌else◌, lt→ltb, le→leb, add64, sub64, ℕ, ◌+◌, ◌-◌, ◌^◌, ◌≤◌, ◌<◌,
  ◌≡◌, refl, Bool, true, false, not, ◌&&◌, List, [], ◌∷◌, ◌++◌, arith,
}
use sanitizers.Util.{round_up_to}
use sanitizers.Large.{cpu_page_size, write_header, slack, place}

-- Whether a list of ranges, an address and a length each, holds an address.
unfoldable pub covers : List (ℕ × ℕ) → ℕ → Bool
covers [] a = false
covers ((first, n) ∷ rest) a = if leb first a && ltb a (first + n) then true else covers rest a

pub slacks-covers :
    (lo hdr last hi a : ℕ)
    → lo ≤ hdr
    → hdr ≤ last
    → last ≤ hi
    → hi < 2 ^ 64
    → covers (slack lo hdr ++ slack last hi) a
      ≡ ((leb lo a && ltb a hi) && not (leb hdr a && ltb a last))
unfolding covers slack
slacks-covers lo hdr last hi a h h' h'' w =
    let e : sub64 hdr lo ≡ hdr - lo = omega arith in
    let e' : sub64 hi last ≡ hi - last = omega arith in rw (e, e') (ground arith)

pub place_lem :
    (alignment rounded_size with_slack start ret : ℕ) (m : Mem)
    → round_up_to (start + 1) alignment ≡ ret
    → start + 2 ^ 12 ≤ ret
    → ret + rounded_size ≤ start + with_slack
    → start + with_slack ≤ 2 ^ 56
    → place alignment rounded_size with_slack start m
      ≡ ok (
        ret,
        slack start (ret - 2 ^ 12) ++ slack (ret + rounded_size) (start + with_slack),
        write_header m (ret - 2 ^ 12) (rounded_size + 2 ^ 12),
      )
unfolding place
place_lem alignment rounded_size with_slack start ret m e h h' h'' =
    let e1 : add64 start with_slack ≡ start + with_slack = omega arith in
    let e2 : add64 start 1 ≡ start + 1 = omega arith in
    let e3 : add64 ret rounded_size ≡ ret + rounded_size = omega arith in
    let e4 : sub64 ret cpu_page_size ≡ ret - 2 ^ 12 = omega arith in
    let e5 : add64 (ret - 2 ^ 12) (2 ^ 12) ≡ ret = omega arith in
    let e6 : add64 rounded_size (2 ^ 12) ≡ rounded_size + 2 ^ 12 = omega arith in
    let f : (start == 2 ^ 64 - 1) ≡ false = ground arith in
    rw
      (
        e1,
        e2,
        e,
        e3,
        e4,
        e5,
        e6,
        f,
        lt→ltb start ret (omega arith),
        le→leb (ret + rounded_size) (start + with_slack) h',
        le→leb start (ret - 2 ^ 12) (omega arith),
      )
      refl
