-- ===== src/Shadow/Laws.antt =====
-- What is read back from a shadow. `At` states what the template's users grant: the range lies
-- below the end of the address space, and a granule has one byte.
use sanitizers.Base.{
  Mem, store8, load-store8, ok, ◌>>◌, ltb, leb, ◌==◌, if◌then◌else◌, ltb→lt, lt→ltb, leb→le, le→leb,
  Bool-cases, sub64, mul64, ℕ, zero, suc, ◌+◌, ◌-◌, ◌*◌, ◌/◌, ◌%◌, ◌^◌, ◌≤◌, ◌<◌, ◌≡◌, refl, sym,
  ◌∙◌, ◌↔◌, ◌⊎◌, inl, inr, true, ◌&&◌, arith,
}
use sanitizers.Shadow.{
  FixedShadow, is_mine, get_shadow_ptr, get, check_granule, put, fill, put_range,
  super_page_metadata, small_shadow, large_shadow,
}
use native.Mathlib.Nat.{
  mod_self, div_self, le-mul_of_pos_right, mod-add-div', le-div_iff_mul-le, div-lt_iff_lt-mul,
  div-le_self, mul-mod_right, mul-sub,
}

pub record IsPlain (s : FixedShadow) : Type 0 where
  pub unit : s.unit_size ≡ 1
  pub granule : 0 < s.granularity
  pub range : s.beg + s.size ≤ 2 ^ 64
  pub shadow_range : s.shadow_beg + s.size ≤ 2 ^ 64
  pub aligned : s.beg % s.granularity ≡ 0

-- An address of the range.
abbrev pub IsMine : FixedShadow → ℕ → Type 0
IsMine s val = (s.beg ≤ val) × (val < s.beg + s.size)

-- `IsMine` decides the range.
pub is_mine_iff : (s : FixedShadow) (val : ℕ) → (is_mine s val ≡ true) ↔ IsMine s val
unfolding is_mine
is_mine_iff s val = ground arith

-- The number of the granule of an address.
abbrev pub granule_of : FixedShadow → ℕ → ℕ
granule_of s val = (val - s.beg) / s.granularity

pub get_shadow_ptr_lem :
    {s : FixedShadow} (val : ℕ)
    → IsPlain s
    → IsMine s val
    → get_shadow_ptr s val ≡ s.shadow_beg + granule_of s val
unfolding get_shadow_ptr
get_shadow_ptr_lem {s} val p mine =
    let plain : mul64 s.unit_size (sub64 val s.beg) ≡ val - s.beg = rw p.unit (omega arith) in
    rw plain (omega (arith, div-le_self (val - s.beg) s.granularity, p.shadow_range, p.range))

pub fill_lem :
    (rounds : ℕ) (m : Mem) (pos v a : ℕ)
    → fill rounds m pos v a ≡ (if leb pos a && ltb a (pos + rounds) then v else m a)
unfolding fill
fill_lem zero m pos v a = ground arith
fill_lem (suc rounds) m pos v a =
    ground (arith, fill_lem rounds (store8 m pos v) (pos + 1) v a, load-store8 m pos v a)

-- Comparing granules is comparing addresses with multiples of the granularity.
le_granule : (g k x : ℕ) → 0 < g → leb k (x / g) ≡ leb (k * g) x
le_granule g k x h = elim (Bool-cases (leb (k * g) x)) [
  | inl e ↦ rw e (le→leb _ _ ((le-div_iff_mul-le h).1 (leb→le _ _ e)))
  | inr e ↦ elim (Bool-cases (leb k (x / g))) [
    | inl f ↦ cc (le→leb _ _ ((le-div_iff_mul-le h).0 (leb→le _ _ f)))
    | inr f ↦ f ∙ sym e
  ]
]

granule_lt : (g k x : ℕ) → 0 < g → ltb (x / g) k ≡ ltb x (k * g)
granule_lt g k x h = elim (Bool-cases (ltb x (k * g))) [
  | inl e ↦ rw e (lt→ltb _ _ ((div-lt_iff_lt-mul h).1 (ltb→lt _ _ e)))
  | inr e ↦ elim (Bool-cases (ltb (x / g) k)) [
    | inl f ↦ cc (lt→ltb _ _ ((div-lt_iff_lt-mul h).0 (ltb→lt _ _ f)))
    | inr f ↦ f ∙ sym e
  ]
]

div_exact : (g x : ℕ) → x % g ≡ 0 → x / g * g ≡ x
div_exact g x h = omega (arith, mod-add-div' x g)

sub_mod_zero : (g x b : ℕ) → x % g ≡ 0 → b % g ≡ 0 → (x - b) % g ≡ 0
sub_mod_zero g x b hx hb =
    let e : x - b ≡ g * (x / g - b / g) =
      rw (mul-sub g (x / g) (b / g)) (omega (arith, div_exact g x hx, div_exact g b hb)) in
    rw (e, mul-mod_right g (x / g - b / g))

shift_range :
    (c x y z : ℕ) → (leb (c + x) (c + y) && ltb (c + y) (c + x + z)) ≡ (leb x y && ltb y (x + z))
shift_range c x y z = ground arith

granules_mul :
    {s : FixedShadow} (val n : ℕ)
    → IsPlain s
    → val % s.granularity ≡ 0
    → n % s.granularity ≡ 0
    → (granule_of s val + n / s.granularity) * s.granularity ≡ val - s.beg + n
granules_mul {s} val n p hv hn = omega (
  arith,
  div_exact s.granularity (val - s.beg) (sub_mod_zero s.granularity val s.beg hv p.aligned),
  div_exact s.granularity n hn,
)

granules_fit :
    {s : FixedShadow} (val n : ℕ)
    → IsPlain s
    → IsMine s val
    → val + n ≤ s.beg + s.size
    → val % s.granularity ≡ 0
    → n % s.granularity ≡ 0
    → granule_of s val + n / s.granularity ≤ s.size
granules_fit {s} val n p mv fits hv hn = omega (
  arith,
  granules_mul val n p hv hn,
  le-mul_of_pos_right (granule_of s val + n / s.granularity) p.granule,
)

-- The granules of `[val, val + n)`, from an aligned address and over an aligned length.
granule_range :
    {s : FixedShadow} (val n w : ℕ)
    → IsPlain s
    → IsMine s val
    → IsMine s w
    → val % s.granularity ≡ 0
    → n % s.granularity ≡ 0
    → (leb (granule_of s val) (granule_of s w)
        && ltb (granule_of s w) (granule_of s val + n / s.granularity))
      ≡ (leb val w && ltb w (val + n))
granule_range {s} val n w p mv mw hv hn =
    rw
      (
        le_granule s.granularity (granule_of s val) (w - s.beg) p.granule,
        granule_lt s.granularity (granule_of s val + n / s.granularity) (w - s.beg) p.granule,
        low,
        high,
      )
      (ground arith)
  where
    low : granule_of s val * s.granularity ≡ val - s.beg
    low = div_exact s.granularity (val - s.beg) (sub_mod_zero s.granularity val s.beg hv p.aligned)

    high : (granule_of s val + n / s.granularity) * s.granularity ≡ val - s.beg + n
    high = granules_mul val n p hv hn

-- No byte outside of the shadow changes.
abbrev pub SameOutside : FixedShadow → Mem → Mem → Type 0
SameOutside s m m' = (a : ℕ) → (a < s.shadow_beg) ⊎ (s.shadow_beg + s.size ≤ a) → m' a ≡ m a

-- `SetRange` on an aligned part of the range passes its checks; what is read afterwards is the
-- new value for each address of `[val, val + n)` and the old one elsewhere in the range, and only
-- bytes of the shadow change.
pub put_range_lem :
    {s : FixedShadow} (m : Mem) (val n v : ℕ)
    → IsPlain s
    → IsMine s val
    → val + n ≤ s.beg + s.size
    → val % s.granularity ≡ 0
    → n % s.granularity ≡ 0
    → (m' : Mem) × (put_range s m val n v ≡ ok m')
      × ((w : ℕ)
          → IsMine s w
          → get s m' w ≡ (if leb val w && ltb w (val + n) then v else get s m w))
      × SameOutside s m m'
unfolding put_range check_granule get
put_range_lem {s} m val n v p mv fits hv hn =
    rw (hv, hn)
      (
        fill (n / s.granularity) m (get_shadow_ptr s val) v,
        refl,
        λ w mw.
            rw
              (
                fill_lem (n / s.granularity) m (get_shadow_ptr s val) v (get_shadow_ptr s w),
                get_shadow_ptr_lem val p mv,
                get_shadow_ptr_lem w p mw,
                shift_range s.shadow_beg (granule_of s val) (granule_of s w) (n / s.granularity),
                granule_range val n w p mv mw hv hn,
              )
              refl,
        λ a out.
            rw
              (
                fill_lem (n / s.granularity) m (get_shadow_ptr s val) v a,
                get_shadow_ptr_lem val p mv,
              )
              (ground (arith, granules_fit val n p mv fits hv hn)),
      )

one_granule :
    {s : FixedShadow} (val w : ℕ)
    → IsPlain s
    → IsMine s val
    → IsMine s w
    → val % s.granularity ≡ 0
    → (granule_of s w == granule_of s val) ≡ (leb val w && ltb w (val + s.granularity))
one_granule {s} val w p mv mw hv =
    let one : s.granularity / s.granularity ≡ 1 = div_self p.granule in
    let same : (granule_of s w == granule_of s val)
        ≡ (leb (granule_of s val) (granule_of s w) && ltb (granule_of s w) (granule_of s val + 1)) =
      ground arith in
    same
    ∙ (let e = granule_range val s.granularity w p mv mw hv (mod_self s.granularity) in rw one at e)

pub put_eq :
    (s : FixedShadow) (m : Mem) (val v : ℕ)
    → put s m val v ≡ (
        check_granule s val
        >> ok (store8 (store8 m (get_shadow_ptr s val) v) (get_shadow_ptr s val) v))
unfolding put get_shadow_ptr
put_eq s m val v = refl

-- `Set` on an aligned address of the range passes its check, changes what is read in that one
-- granule, and changes only bytes of the shadow.
pub put_lem :
    {s : FixedShadow} (m : Mem) (val v : ℕ)
    → IsPlain s
    → IsMine s val
    → val % s.granularity ≡ 0
    → (m' : Mem) × (put s m val v ≡ ok m')
      × ((w : ℕ)
          → IsMine s w
          → get s m' w ≡ (if leb val w && ltb w (val + s.granularity) then v else get s m w))
      × SameOutside s m m'
unfolding check_granule get
put_lem {s} m val v p mv hv =
    rw (put_eq s m val v, hv)
      (
        store8 (store8 m (get_shadow_ptr s val) v) (get_shadow_ptr s val) v,
        refl,
        λ w mw.
            rw
              (
                load-store8 (store8 m (get_shadow_ptr s val) v) (get_shadow_ptr s val) v
                    (get_shadow_ptr s w),
                load-store8 m (get_shadow_ptr s val) v (get_shadow_ptr s w),
                get_shadow_ptr_lem val p mv,
                get_shadow_ptr_lem w p mw,
                ← one_granule val w p mv mw hv,
              )
              (ground arith),
        λ a out.
            rw
              (
                load-store8 (store8 m (get_shadow_ptr s val) v) (get_shadow_ptr s val) v a,
                load-store8 m (get_shadow_ptr s val) v a,
                get_shadow_ptr_lem val p mv,
              )
              (ground (arith, div-le_self (val - s.beg) s.granularity)),
      )

-- The instances of the template that have one byte for each granule.
pub super_page_metadata-IsPlain : IsPlain super_page_metadata
super_page_metadata-IsPlain = omega arith

pub small_shadow-IsPlain : IsPlain small_shadow
small_shadow-IsPlain = omega arith

pub large_shadow-IsPlain : IsPlain large_shadow
large_shadow-IsPlain = omega arith
