-- ===== src/Allocator/Scans/Marks.antt =====
-- What marking may change: quarantined states of super pages become marked.
use sanitizers.Base.{
  Mem, ok, store8, load-store8_self, load-store8_ne, ℕ, ◌+◌, ◌*◌, ◌/◌, ◌-◌, ◌%◌, ◌≤◌, ◌<◌, ◌≡◌,
  ◌==◌, ==_iff, refl, sym, ap, ◌∙◌, ◌⊎◌, inl, inr, true, false, arith, Bool-cases, Bool, ◌^◌,
}
use native.Mathlib.Nat.{div-eq_of_lt-le, div-mul-le_self, mod-add-div', mod-lt, mul-le-mul_right}
use native.Mathlib.Decide.{dec_lt, ℕ_discrete}
use sanitizers.Layout.{super_page_size}
use sanitizers.Shadow.{get_shadow_ptr, super_page_metadata}
use sanitizers.SizeClass.{SizeClassDescr, chunk_size}
use sanitizers.SuperPage.{Env, states_of, mark}
use sanitizers.SuperPage.State.{quarantined, marked}
use sanitizers.SuperPage.Chunk.{IsPlaced, IsSuperPage, in_space, chunks_fit, state_outside_chunks}
use sanitizers.SuperPage.Meta.{meta_slot, IsSuperPage-kept}
use sanitizers.SuperPage.Sweep.{mark-chunk, mark-slack}

-- A byte that holds the state of some chunk.
pub record IsState (env : Env) (m : Mem) (a : ℕ) : Type 0 where
  pub sp : ℕ
  pub d : SizeClassDescr
  pub chunk : ℕ
  pub page : IsSuperPage env m sp d
  pub below : chunk < d.num_chunks
  pub at_state : a ≡ states_of sp d + chunk

-- From `m` to `m'` some states went from quarantined to marked, and nothing else changed. The super
-- pages are those of `m0`.
abbrev pub Advances : Env → Mem → Mem → Mem → Type 0
Advances env m0 m m' =
    (a : ℕ) → (m' a ≡ m a) ⊎ (IsState env m0 a × (m a ≡ quarantined) × (m' a ≡ marked))

-- What was a byte still is one, what was zero still is, and below the super pages nothing changes.
abbrev pub Calm : Mem → Mem → Type 0
Calm m m' =
    (a : ℕ)
    → (m a < 2 ^ 8 → m' a < 2 ^ 8) × (m a ≡ 0 → m' a ≡ 0) × (a < 0x5000_0000_0000 → m' a ≡ m a)

pub Calm-refl : (m : Mem) → Calm m m
Calm-refl m a = (λ h. h, λ h. h, λ low. refl)

pub Calm-trans : {m m' m'' : Mem} → Calm m m' → Calm m' m'' → Calm m m''
Calm-trans first second a = (
  λ h. (second a).0 ((first a).0 h),
  λ h. (second a).1 ((first a).1 h),
  λ low. (second a).2 low ∙ (first a).2 low,
)

pub Calm-Advances : {env : Env} {m0 m m' : Mem} → Advances env m0 m m' → Calm m m'
Calm-Advances adv a = elim (adv a) [
  | inl same ↦ (λ h. rw same h, λ h. same ∙ h, λ low. same)
  | inr (state, was, now) ↦ (
    λ h. rw now (omega arith),
    λ h. absurd (omega (arith, was, h)),
    λ low. absurd (
        omega (
          arith,
          low,
          state.at_state,
          state_outside_chunks state.page.place state.chunk state.below,
          in_space state.page.place,
        )),
  )
]

-- No byte but the states of chunks differs.
abbrev pub KeepsPlain : Env → Mem → Mem → Mem → Type 0
KeepsPlain env m0 m m' = (a : ℕ) → ¬ IsState env m0 a → m' a ≡ m a

pub KeepsPlain-Advances :
    {env : Env} {m0 m m' : Mem} → Advances env m0 m m' → KeepsPlain env m0 m m'
KeepsPlain-Advances adv a plain = elim (adv a) [
  | inl same ↦ same
  | inr (state, _, _) ↦ absurd (plain state)
]

pub Advances-refl : (env : Env) (m0 m : Mem) → Advances env m0 m m
Advances-refl env m0 m a = inl refl

pub Advances-trans :
    (env : Env) (m0 : Mem) {m m' m'' : Mem}
    → Advances env m0 m m'
    → Advances env m0 m' m''
    → Advances env m0 m m''
Advances-trans env m0 first second a = elim (first a) [
  | inl same ↦ elim (second a) [
    | inl same' ↦ inl (same' ∙ same)
    | inr (state, was, now) ↦ inr (state, sym same ∙ was, now)
  ]
  | inr (state, was, now) ↦ elim (second a) [
    | inl same' ↦ inr (state, was, same' ∙ now)
    | inr (_, was', _) ↦ absurd (omega (arith, now, was'))
  ]
]

pub slot-not-IsState :
    {env : Env} {m : Mem} {sp : ℕ} {d : SizeClassDescr}
    → IsPlaced sp d
    → ¬ IsState env m (get_shadow_ptr super_page_metadata sp)
slot-not-IsState s state = omega (
  arith,
  meta_slot s,
  state_outside_chunks state.page.place state.chunk state.below,
  in_space state.page.place,
  state.at_state,
)

pub same_class :
    {env : Env} {m : Mem} {sp : ℕ} {d d' : SizeClassDescr}
    → IsSuperPage env m sp d
    → IsSuperPage env m sp d'
    → d ≡ d'
same_class s s' = let e = sym s.class ∙ s'.class in cc

-- The states lie outside the chunks of every super page.
pub chunk-not-IsState :
    {env : Env} {m : Mem} {sp : ℕ} {d : SizeClassDescr} (a : ℕ)
    → IsSuperPage env m sp d
    → sp ≤ a
    → a < sp + d.num_chunks * chunk_size d
    → ¬ IsState env m a
chunk-not-IsState {env} {m} {sp} {d} a s lo hi state =
    let (after, inside) = state_outside_chunks state.page.place state.chunk state.below in
    elim (ℕ_discrete state.sp sp) [
      | yes same_page ↦
          let page : IsSuperPage env m sp state.d = rw same_page at state.page in
          let bytes =
            ap (λ (c : SizeClassDescr). c.num_chunks * chunk_size c) (same_class s page) in
          omega (arith, after, state.at_state, same_page, bytes)
      | no other ↦ omega (
        arith,
        inside,
        state.at_state,
        other,
        s.place.aligned,
        state.page.place.aligned,
        chunks_fit s.place,
        in_space s.place,
        in_space state.page.place,
        after,
      )
    ]

-- A page stays a super page of its class.
pub IsSuperPage-Advances :
    {env : Env} {m0 m : Mem} {sp : ℕ} {d : SizeClassDescr}
    → Advances env m0 m0 m
    → IsSuperPage env m0 sp d
    → IsSuperPage env m sp d
IsSuperPage-Advances {sp = sp} adv s =
    IsSuperPage-kept s (elim (adv (get_shadow_ptr super_page_metadata sp)) [
      | inl same ↦ same
      | inr (state, _, _) ↦ absurd (slot-not-IsState s.place state)
    ])

-- In quarantine, whether it was reached already or not.
abbrev pub InQuarantine : ℕ → Type 0
InQuarantine s = (s ≡ quarantined) ⊎ (s ≡ marked)

pub InQuarantine-Advances :
    {env : Env} {m0 m m' : Mem} (a : ℕ)
    → Advances env m0 m m'
    → InQuarantine (m a)
    → InQuarantine (m' a)
InQuarantine-Advances a adv q = elim (adv a) [ inl same ↦ rw same q | inr (_, _, now) ↦ inr now ]

pub marked-Advances :
    {env : Env} {m0 m m' : Mem} (a : ℕ) → Advances env m0 m m' → m a ≡ marked → m' a ≡ marked
marked-Advances a adv is_marked = elim (adv a) [
  | inl same ↦ same ∙ is_marked
  | inr (_, _, now) ↦ now
]

pub le_of_not-lt : {a b : ℕ} → ¬ a < b → b ≤ a
le_of_not-lt h = omega arith

pub true-false : {b : Bool} → b ≡ true → b ≡ false → ⊥
true-false e e' = cc

-- `value` points into chunk `p` of the super page.
abbrev pub PointsInto : ℕ → SizeClassDescr → ℕ → ℕ → Type 0
PointsInto sp d p value =
    (p < d.num_chunks)
    × (sp + p * chunk_size d ≤ value)
    × (value < sp + p * chunk_size d + chunk_size d)

module _ (env : Env) (m0 m : Mem) {sp : ℕ} {d : SizeClassDescr} (adv : Advances env m0 m0 m)
    (s0 : IsSuperPage env m0 sp d) where
  store-Advances :
      (p : ℕ)
      → p < d.num_chunks
      → m (states_of sp d + p) ≡ quarantined
      → Advances env m0 m (store8 m (states_of sp d + p) marked)
  store-Advances p below was a = elim (ℕ_discrete a (states_of sp d + p)) [
    | yes here ↦ inr (
      record { sp = sp; d = d; chunk = p; page = s0; below = below; at_state = here },
      rw here was,
      rw here (load-store8_self m (states_of sp d + p) marked),
    )
    | no there ↦ inl (load-store8_ne m (states_of sp d + p) marked a there)
  ]

  -- The chunk that a value points into is reached.
  abbrev pub Reaches : ℕ → Mem → Type 0
  Reaches value m' =
      (p : ℕ)
      → PointsInto sp d p value
      → InQuarantine (m (states_of sp d + p))
      → m' (states_of sp d + p) ≡ marked

  -- A value points into the chunk of its quotient only.
  quotient_of :
      (value p : ℕ)
      → sp ≤ value
      → value < sp + super_page_size
      → PointsInto sp d p value
      → value % super_page_size / chunk_size d ≡ p
  quotient_of value p low high (below, lo, hi) =
      let offset : value % super_page_size ≡ value - sp = omega (arith, s0.place.aligned) in
      div-eq_of_lt-le (chunk_size d) (omega arith) (omega arith)

  -- `Mark` with a value of the super page.
  pub mark-Advances :
      (value : ℕ)
      → sp ≤ value
      → value < sp + super_page_size
      → (m' : Mem) × (mark env m sp value ≡ ok m') × Advances env m0 m m' × Reaches value m'
  mark-Advances value low high =
      let s = IsSuperPage-Advances adv s0 in
      let size = chunk_size d in
      let v = value % super_page_size in
      let q = v / size in
      let lo : q * size ≤ v = div-mul-le_self v size in
      let hi : v < q * size + size =
        omega (arith, mod-add-div' v size, mod-lt v s0.place.descr.size_pos) in
      elim (dec_lt q d.num_chunks) [
        | no above ↦ (
          m,
          mark-slack env m s value (omega (arith, lo, mul-le-mul_right size (le_of_not-lt above))),
          Advances-refl env m0 m,
          λ p points.
              let e = quotient_of value p low high points in absurd (omega (arith, e, points)),
        )
        | yes below ↦
            rw (mark-chunk env m s value q below lo hi)
              (elim (Bool-cases (m (states_of sp d + q) == quarantined)) [
                | inl was ↦ rw was (
                  store8 m (states_of sp d + q) marked,
                  refl,
                  store-Advances q below ((==_iff (m (states_of sp d + q)) quarantined).0 was),
                  λ p points in_q.
                      let e = quotient_of value p low high points in
                      rw (sym e) (load-store8_self m (states_of sp d + q) marked),
                )
                | inr other ↦ rw other (
                  m,
                  refl,
                  Advances-refl env m0 m,
                  λ p points in_q. elim in_q [
                    | inr already ↦ already
                    | inl was ↦
                        let e = quotient_of value p low high points in
                        let yes_eq = (==_iff (m (states_of sp d + q)) quarantined).1 (rw e was) in
                        absurd (true-false yes_eq other)
                  ],
                )
              ])
      ]
