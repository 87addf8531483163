-- ===== src/SuperPage/Serve/Answers.antt =====
-- The answer to each request, as the contract has it.
use sanitizers.Base.{
  Mem, ok, load-store8_self, load-store8_ne, ℕ, ◌+◌, ◌*◌, ◌/◌, ◌%◌, ◌≤◌, ◌<◌, ◌≡◌, ◌≢◌, ◌==◌,
  ==_iff, if◌then◌else◌, sym, ap, ◌∙◌, inl, inr, Bool, true, false, Option, none, arith, Bool-cases,
  u8,
}
use native.Mathlib.Nat.{mul-div_left, div-mul-le_self, mod-add-div', mod-lt, mul-le-mul_right}
use native.Mathlib.Decide.{dec_lt}
use sanitizers.Layout.{super_page_size}
use sanitizers.Shadow.{get_shadow_ptr, super_page_metadata}
use sanitizers.SizeClass.{SizeClassDescr, chunk_size}
use sanitizers.SuperPage.{Env, states_of, address_of_chunk, deallocate, quarantine, swept}
use sanitizers.SuperPage.State.{used_mixed, used_data, quarantined, marked, swept}
use sanitizers.SuperPage.Chunk.{address_of_chunk_lem, compute_state_ptr_cases}
use sanitizers.SuperPage.Alloc.{Allocated, got, full, try_allocate-Allocated}
use sanitizers.SuperPage.Free.{is_used, deallocate-chunk, quarantine-chunk}
use sanitizers.SuperPage.Sweep.{sweep_lem, mark-chunk, mark-slack}
use sanitizers.SuperPage.Meta.{slot_apart, IsSuperPage-kept}
use sanitizers.SuperPage.Contract.{
  vacant, held, retired, reached, Heap, Request, give, give_back, retire, point_to, end_scan,
  Starts, Points, Promise, given, none_vacant, taken_back, bad_free, put_off, bad_retire, seen,
  not_retired, swept_all,
}
use sanitizers.SuperPage.Serve.{
  Page, serve, byte_of, Represents, nothing, pointer, Meets, both_trap, both_answer,
}
use sanitizers.SuperPage.Serve.Bytes.{
  Represents-update, used_chunk, held-is_used, vacant_chunk, retired_chunk, swept-byte_of,
  new_state_byte, state_on_free-byte,
}

succ_le : {a b : ℕ} → a < b → a + 1 ≤ b
succ_le h = omega arith

le_of_not-lt : {a b : ℕ} → ¬ a < b → b ≤ a
le_of_not-lt h = omega arith

module _ (env : Env) (sp : ℕ) (d : SizeClassDescr) (few : env.target.config.use_aliases ≤ 4)
    (page : Page) (h : Heap) (r : Represents env sp d page h) where
  -- The contract has an answer that the result meets.
  abbrev pub Answered : Request → Type 0
  Answered q =
      (out : Option (Option ℕ × Heap)) × Promise d.num_chunks (chunk_size d) q h out
      × Meets env sp d (serve env sp d page q) out

  pub give-Answered : (data_only : Bool) → Answered (give data_only)
  unfolding serve
  give-Answered data_only =
      let (out, eq, result) =
        try_allocate-Allocated env page.mem data_only page.hint r.placed.place r.hint in
      rw eq (conclude out result)
    where
      conclude :
          (out : Option ℕ × ℕ × Mem)
          → Allocated env page.mem d page.hint sp (if data_only then used_data else used_mixed) out
          → (out' : Option (Option ℕ × Heap)) × Promise d.num_chunks
              (chunk_size d)
              (give data_only)
              h
              out'
            × Meets env sp d (ok (out.0, record { mem = out.2; hint = out.1 })) out'
      conclude _ (got p tag below free read) = (
        _,
        given h data_only p below (vacant_chunk (h p) (sym (r.states p below) ∙ free)),
        both_answer (pointer p tag below) (
            Represents-update _ (p + 1) p (held data_only) r (omega arith) below
              (load-store8_self page.mem (states_of sp d + p) _ ∙ new_state_byte data_only)
              (λ b high ne. load-store8_ne page.mem (states_of sp d + p) _ b ne)),
      )
      conclude _ (full busy) = (
        _,
        none_vacant h data_only (λ p below e. busy p below (r.states p below ∙ ap byte_of e)),
        both_answer nothing r,
      )

  abbrev at_offset : ℕ → ℕ
  at_offset offset = sp + offset % super_page_size

  offset_of : (offset : ℕ) → at_offset offset % super_page_size ≡ offset % super_page_size
  offset_of offset = omega (arith, r.placed.place.aligned)

  chunk_at :
      (offset p : ℕ)
      → p < d.num_chunks
      → Starts (chunk_size d) offset p
      → at_offset offset ≡ address_of_chunk sp p d
  chunk_at offset p below e = omega (arith, e, address_of_chunk_lem r.placed.place p below)

  not_used :
      (p : ℕ)
      → p < d.num_chunks
      → is_used (page.mem (states_of sp d + p)) ≡ false
      → (data_only : Bool) → h p ≢ held data_only
  not_used p below e data_only e' =
      let used = held-is_used data_only in
      let same : is_used (page.mem (states_of sp d + p)) ≡ is_used (byte_of (held data_only)) =
        ap is_used (r.states p below ∙ ap byte_of e') in
      cc

  unique_start :
      (offset p q : ℕ) → Starts (chunk_size d) offset p → Starts (chunk_size d) offset q → p ≡ q
  unique_start offset p q e e' =
      let size_pos = r.placed.place.descr.size_pos in
      sym (mul-div_left p size_pos)
      ∙ ap (λ (x : ℕ). x / chunk_size d) (sym e ∙ e')
      ∙ mul-div_left q size_pos

  -- No chunk that the program holds starts at the offset of a chunk in another state.
  none_held :
      (offset p : ℕ)
      → p < d.num_chunks
      → Starts (chunk_size d) offset p
      → is_used (page.mem (states_of sp d + p)) ≡ false
      → (q : ℕ) (data_only : Bool) → q < d.num_chunks
      → Starts (chunk_size d) offset q
      → h q ≢ held data_only
  none_held offset p below e unused q data_only below' e' =
      let same = unique_start offset q p e' e in rw same (not_used p below unused data_only)

  held_at :
      (p : ℕ)
      → p < d.num_chunks
      → is_used (page.mem (states_of sp d + p)) ≡ true
      → (data_only : Bool) × (h p ≡ held data_only)
  held_at p below used = used_chunk (h p) (rw (r.states p below) at used)

  give_back-chunk :
      (offset p : ℕ)
      → p < d.num_chunks
      → Starts (chunk_size d) offset p
      → Answered (give_back offset)
  unfolding serve
  give_back-chunk offset p below e =
      let (m', eq, now, keeps) = deallocate-chunk env page.mem r.placed few p below in
      rw (chunk_at offset p below e, eq)
        (elim (Bool-cases (is_used (page.mem (states_of sp d + p)))) [
          | inl used ↦
              let (data_only, is_held) = held_at p below used in
              rw used (
                _,
                taken_back h offset p data_only below e is_held,
                both_answer nothing
                    (Represents-update m' page.hint p vacant r r.hint below now keeps),
              )
          | inr unused ↦
              rw unused (none, bad_free h offset (none_held offset p below e unused), both_trap)
        ])

  pub give_back-Answered : (offset : ℕ) → Answered (give_back offset)
  unfolding serve deallocate
  give_back-Answered offset = elim (compute_state_ptr_cases r.placed.place (at_offset offset)) [
    | inr (misses, traps) ↦
        rw (r.placed.class, traps)
          (
            none,
            bad_free h offset (λ p b below e e'. misses p below (offset_of offset ∙ e)),
            both_trap,
          )
    | inl (p, below, e, _) ↦ give_back-chunk offset p below (sym (offset_of offset) ∙ e)
  ]

  retire-chunk :
      (offset p : ℕ) → p < d.num_chunks → Starts (chunk_size d) offset p → Answered (retire offset)
  unfolding serve
  retire-chunk offset p below e =
      let (old, m', _, eq, now, keeps) = quarantine-chunk env page.mem r.placed few p below in
      let (keep, stored) = state_on_free-byte env.target.config.use_tag (u8 (old + 1)) in
      rw (chunk_at offset p below e, eq)
        (elim (Bool-cases (is_used (page.mem (states_of sp d + p)))) [
          | inl used ↦
              let (data_only, is_held) = held_at p below used in
              rw used (
                _,
                put_off h offset p data_only keep below e is_held,
                both_answer nothing (
                    Represents-update m' page.hint p (if keep then retired else vacant) r r.hint
                      below (now ∙ stored) keeps),
              )
          | inr unused ↦
              rw unused (none, bad_retire h offset (none_held offset p below e unused), both_trap)
        ])

  pub retire-Answered : (offset : ℕ) → Answered (retire offset)
  unfolding serve quarantine
  retire-Answered offset = elim (compute_state_ptr_cases r.placed.place (at_offset offset)) [
    | inr (misses, traps) ↦
        rw (r.placed.class, traps)
          (
            none,
            bad_retire h offset (λ p b below e e'. misses p below (offset_of offset ∙ e)),
            both_trap,
          )
    | inl (p, below, e, _) ↦ retire-chunk offset p below (sym (offset_of offset) ∙ e)
  ]

  Points-unique :
      (p q value : ℕ) → Points (chunk_size d) value p → Points (chunk_size d) value q → p ≡ q
  Points-unique p q value (lo, hi) (lo', hi') =
      let size = chunk_size d in
      elim (dec_lt p q) [
        | yes less ↦ absurd (omega (arith, mul-le-mul_right size (succ_le less)))
        | no not_less ↦ elim (dec_lt q p) [
          | yes more ↦ absurd (omega (arith, mul-le-mul_right size (succ_le more)))
          | no not_more ↦ omega arith
        ]
      ]

  other_state :
      (q : ℕ)
      → (page.mem (states_of sp d + q) == quarantined) ≡ false
      → q < d.num_chunks
      → h q ≢ retired
  other_state q other below e =
      let same : page.mem (states_of sp d + q) ≡ quarantined = r.states q below ∙ ap byte_of e in
      let yes_eq = (==_iff (page.mem (states_of sp d + q)) quarantined).1 same in cc

  pub point_to-Answered : (value : ℕ) → Answered (point_to value)
  unfolding serve
  point_to-Answered value =
      let size = chunk_size d in
      let v = value % super_page_size in
      let q = v / size in
      let lo : q * size ≤ v = div-mul-le_self v size in
      let hi : v < q * size + size =
        omega (arith, mod-add-div' v size, mod-lt v r.placed.place.descr.size_pos) in
      elim (dec_lt q d.num_chunks) [
        | no above ↦
            rw
              (mark-slack env page.mem r.placed value
                (omega (arith, lo, mul-le-mul_right size (le_of_not-lt above))))
              (
                _,
                not_retired h value (λ p below inside e.
                    above (let same = Points-unique p q value inside (lo, hi) in rw same at below)),
                both_answer nothing r,
              )
        | yes below_q ↦
            rw (mark-chunk env page.mem r.placed value q below_q lo hi)
              (elim (Bool-cases (page.mem (states_of sp d + q) == quarantined)) [
                | inl is_retired ↦ rw is_retired (
                  _,
                  seen h value q below_q (lo, hi)
                      (retired_chunk (h q) (rw (r.states q below_q) at is_retired)),
                  both_answer nothing (
                      Represents-update _ page.hint q reached r r.hint below_q
                        (load-store8_self page.mem (states_of sp d + q) marked)
                        (λ b high ne. load-store8_ne page.mem (states_of sp d + q) marked b ne)),
                )
                | inr other ↦ rw other (
                  _,
                  not_retired h value (λ p below inside e.
                      other_state q other below_q
                        (let same = Points-unique p q value inside (lo, hi) in rw same at e)),
                  both_answer nothing r,
                )
              ])
      ]

  pub end_scan-Answered : Answered end_scan
  unfolding serve
  end_scan-Answered =
      let (m', eq, each, outside, _, _, _) = sweep_lem env page.mem r.placed in
      rw eq (
        _,
        swept_all h,
        both_answer nothing (record {
          placed = IsSuperPage-kept r.placed (
              outside (get_shadow_ptr super_page_metadata sp)
                (slot_apart r.placed.place r.placed.place));
          hint = r.hint;
          states = λ p below. each p below ∙ ap swept (r.states p below) ∙ swept-byte_of (h p);
        }),
      )
