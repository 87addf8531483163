-- ===== src/SuperPage/Serve/Bytes.antt =====
-- The bytes of states and the chunks of the contract.
use sanitizers.Base.{
  Mem, update, ℕ, ◌+◌, ◌≤◌, ◌<◌, ◌≡◌, ◌==◌, ==_iff, if◌then◌else◌, refl, ◌∙◌, inl, inr, Bool, true,
  false, arith, Bool-cases,
}
use sanitizers.Shadow.{get_shadow_ptr, super_page_metadata}
use sanitizers.SizeClass.{SizeClassDescr}
use sanitizers.SuperPage.{Env, states_of, state_on_free, swept}
use sanitizers.SuperPage.State.{available, used_mixed, used_data, quarantined, swept}
use sanitizers.SuperPage.Chunk.{in_space, state_outside_chunks}
use sanitizers.SuperPage.Free.{is_used, KeepsBut}
use sanitizers.SuperPage.Meta.{meta_slot, meta-apart, IsSuperPage-kept}
use sanitizers.SuperPage.Contract.{Chunk, vacant, held, retired, reached, Heap, after_scan}
use sanitizers.SuperPage.Serve.{Page, byte_of, Represents}

module _ {env : Env} {sp : ℕ} {d : SizeClassDescr} where
  -- A write of one state.
  pub Represents-update :
      {page : Page} {h : Heap} (m' : Mem) (hint' p : ℕ) (c : Chunk)
      → Represents env sp d page h
      → hint' ≤ d.num_chunks
      → p < d.num_chunks
      → m' (states_of sp d + p) ≡ byte_of c
      → KeepsBut page.mem m' (states_of sp d + p)
      → Represents env sp d (record { mem = m'; hint = hint' }) (update h p c)
  Represents-update {page} {h} m' hint' p c r small lt now keeps = record {
    placed = IsSuperPage-kept r.placed (
        keeps (get_shadow_ptr super_page_metadata sp) (omega (arith, meta_slot r.placed.place))
          (meta-apart r.placed.place p lt));
    hint = small;
    states = λ q below. elim (Bool-cases (q == p)) [
      | inl same ↦ let e : q ≡ p = (==_iff _ _).0 same in rw (same, e) now
      | inr other ↦ rw other (
          keeps (states_of sp d + q)
            (omega
              (arith, (state_outside_chunks r.placed.place q below).0, in_space r.placed.place))
            (λ e. let same : q ≡ p = omega arith in let yes_eq = (==_iff q p).1 same in cc)
          ∙ r.states q below)
    ];
  }

pub used_chunk :
    (c : Chunk) → is_used (byte_of c) ≡ true → (data_only : Bool) × (c ≡ held data_only)
used_chunk vacant e = cc
used_chunk (held data_only) e = (data_only, refl)
used_chunk retired e = cc
used_chunk reached e = cc

pub held-is_used : (data_only : Bool) → is_used (byte_of (held data_only)) ≡ true
held-is_used true = refl
held-is_used false = refl

pub vacant_chunk : (c : Chunk) → byte_of c ≡ available → c ≡ vacant
vacant_chunk vacant e = refl
vacant_chunk (held true) e = absurd (omega (arith, e))
vacant_chunk (held false) e = absurd (omega (arith, e))
vacant_chunk retired e = absurd (omega (arith, e))
vacant_chunk reached e = absurd (omega (arith, e))

pub retired_chunk : (c : Chunk) → (byte_of c == quarantined) ≡ true → c ≡ retired
retired_chunk vacant e = cc
retired_chunk (held true) e = cc
retired_chunk (held false) e = cc
retired_chunk retired e = refl
retired_chunk reached e = cc

pub swept-byte_of : (c : Chunk) → swept (byte_of c) ≡ byte_of (after_scan c)
unfolding swept
swept-byte_of vacant = refl
swept-byte_of (held true) = refl
swept-byte_of (held false) = refl
swept-byte_of retired = refl
swept-byte_of reached = refl

pub new_state_byte :
    (data_only : Bool) → (if data_only then used_data else used_mixed) ≡ byte_of (held data_only)
new_state_byte true = refl
new_state_byte false = refl

-- What a free stores is a state of the contract.
pub state_on_free-byte :
    (use_tag tag : ℕ)
    → (keep : Bool) × (state_on_free use_tag tag ≡ byte_of (if keep then retired else vacant))
unfolding state_on_free
state_on_free-byte use_tag tag = elim (Bool-cases (state_on_free use_tag tag == available)) [
  | inl free ↦ (false, (==_iff _ _).0 free)
  | inr other ↦ (true, ground arith)
]
