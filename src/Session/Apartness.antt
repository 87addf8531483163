-- ===== src/Session/Apartness.antt =====
-- Blocks of different chunks have no byte in common.
use sanitizers.Base.{
  Mem, ℕ, ◌+◌, ◌*◌, ◌<◌, ◌≤◌, ◌≡◌, ◌≢◌, ◌⊎◌, inl, inr, refl, sym, ap, ◌∙◌, arith, List,
}
use native.Mathlib.Decide.{ℕ_discrete, dec_lt}
use native.Mathlib.Nat.{mul-le-mul_right}
use sanitizers.Layout.{super_page_size}
use sanitizers.SizeClass.{SizeClassDescr, chunk_size}
use sanitizers.Tags.{Target, apply_address_tag}
use sanitizers.Tags.Address.{untag-tag}
use sanitizers.SuperPage.{Env, states_of, address_of_chunk}
use sanitizers.SuperPage.Chunk.{
  IsPlaced, IsSuperPage, chunk_end, address_of_chunk_lem, chunk-InAllocator, IsSuperPage,
}
use sanitizers.SuperPage.Meta.{states_apart}
use sanitizers.Allocator.State.{World}
use sanitizers.Allocator.Allocate.Pages.{page_at}
use sanitizers.Allocator.Untag.{UsesAliases}
use sanitizers.Allocator.Scans.Marks.{same_class}
use sanitizers.Allocator.Scans.Sweeps.{Located, state_at, address_at}
use sanitizers.Session.{
  Block, block_start, IsHeld, Apart, Every, nothing, each, AllApart, nothing_apart, each_apart,
  Removed, first, later,
}

pub block_start_lem :
    {env : Env} {w : World} {b : Block}
    → UsesAliases env.target
    → (h : IsHeld env w b)
    → block_start env.target b
      ≡ page_at h.place.range_num h.place.idx + h.place.chunk * chunk_size h.place.d
block_start_lem {env} {w} {b} u h =
    let l = h.place in
    let (lo, hi) = chunk-InAllocator l.page.place l.chunk l.below in
    ap (λ p. apply_address_tag env.target p 0) h.pointer
    ∙ untag-tag env.target u.few (address_of_chunk (page_at l.range_num l.idx) l.chunk l.d) h.tag lo
        hi h.small
    ∙ address_of_chunk_lem l.page.place l.chunk l.below

-- Chunks of one super page.
chunks_apart :
    (sp size p p' n n' : ℕ)
    → p ≢ p'
    → n ≤ size
    → n' ≤ size
    → (sp + p * size + n ≤ sp + p' * size) ⊎ (sp + p' * size + n' ≤ sp + p * size)
chunks_apart sp size p p' n n' ne fits fits' = elim (dec_lt p p') [
  | yes before ↦ inl (omega (arith, mul-le-mul_right size before))
  | no behind ↦
      let past : p' < p = omega (arith, behind, ne) in
      inr (omega (arith, mul-le-mul_right size past))
]

same_page_apart :
    {sp sp' : ℕ} {d d' : SizeClassDescr} (p p' n n' : ℕ)
    → sp ≡ sp'
    → d ≡ d'
    → states_of sp d + p ≢ states_of sp' d' + p'
    → n ≤ chunk_size d
    → n' ≤ chunk_size d'
    → (sp + p * chunk_size d + n ≤ sp' + p' * chunk_size d')
      ⊎ (sp' + p' * chunk_size d' + n' ≤ sp + p * chunk_size d)
same_page_apart {sp} {sp'} {d} {d'} p p' n n' e e' ne fits fits' =
    let ne' : states_of sp' d' + p ≢ states_of sp' d' + p' = rw (e, e') at ne in
    rw (e, e')
      (chunks_apart sp' (chunk_size d') p p' n n' (λ same. ne' (rw same refl)) (rw e' at fits)
        fits')

pages_apart :
    {sp sp' : ℕ} {d d' : SizeClassDescr} (p p' n n' : ℕ)
    → IsPlaced sp d
    → IsPlaced sp' d'
    → p < d.num_chunks
    → p' < d'.num_chunks
    → sp ≢ sp'
    → n ≤ chunk_size d
    → n' ≤ chunk_size d'
    → (sp + p * chunk_size d + n ≤ sp' + p' * chunk_size d')
      ⊎ (sp' + p' * chunk_size d' + n' ≤ sp + p * chunk_size d)
pages_apart {sp} {sp'} p p' n n' s s' below below' ne fits fits' =
    let inside = chunk_end s p below in
    let inside' = chunk_end s' p' below' in
    elim (dec_lt sp sp') [
      | yes before ↦
          let apart : sp + super_page_size ≤ sp' = omega (arith, before, s.aligned, s'.aligned) in
          inl (omega (arith, apart, inside, fits))
      | no behind ↦
          let apart : sp' + super_page_size ≤ sp =
            omega (arith, behind, ne, s.aligned, s'.aligned) in
          inr (omega (arith, apart, inside', fits'))
    ]

-- Chunks with different states are apart.
pub located_apart :
    {env : Env} {m : Mem} {n0 n1 : ℕ} (l l' : Located env m n0 n1)
    → state_at l ≢ state_at l'
    → (address_at l' < address_at l) ⊎ (address_at l + chunk_size l.d ≤ address_at l')
located_apart {env} {m} l l' ne =
    let here = address_of_chunk_lem l.page.place l.chunk l.below in
    let there = address_of_chunk_lem l'.page.place l'.chunk l'.below in
    let positive = l'.page.place.descr.size_pos in
    elim (ℕ_discrete (page_at l.range_num l.idx) (page_at l'.range_num l'.idx)) [
      | yes same ↦
          let page : IsSuperPage env m (page_at l'.range_num l'.idx) l.d = rw same at l.page in
          elim (same_page_apart l.chunk l'.chunk (chunk_size l.d) (chunk_size l'.d) same
            (same_class page l'.page) ne (omega arith) (omega arith)) [
              | inl before ↦ inr (omega (arith, before, here, there))
              | inr behind ↦ inl (omega (arith, behind, here, there, positive))
            ]
      | no other ↦
          elim (pages_apart l.chunk l'.chunk (chunk_size l.d) (chunk_size l'.d) l.page.place
            l'.page.place l.below l'.below other (omega arith) (omega arith)) [
              | inl before ↦ inr (omega (arith, before, here, there))
              | inr behind ↦ inl (omega (arith, behind, here, there, positive))
            ]
    ]

module _ {env : Env} {w : World} {b b' : Block} (u : UsesAliases env.target) (h : IsHeld env w b)
    (h' : IsHeld env w b') where
  sp : ℕ
  sp = page_at h.place.range_num h.place.idx

  sp' : ℕ
  sp' = page_at h'.place.range_num h'.place.idx

  pub Apart-states : state_at h.place ≢ state_at h'.place → Apart env.target b b'
  unfolding sp sp'
  Apart-states ne =
      rw (block_start_lem u h, block_start_lem u h')
        (elim (ℕ_discrete sp sp') [
          | yes same ↦
              let page : IsSuperPage env w.mem sp' h.place.d = rw same at h.place.page in
              same_page_apart h.place.chunk h'.place.chunk b.1 b'.1 same
                (same_class page h'.place.page) ne h.fits h'.fits
          | no other ↦
              pages_apart h.place.chunk h'.place.chunk b.1 b'.1 h.place.page.place
                h'.place.page.place h.place.below h'.place.below other h.fits h'.fits
        ])

  pub states-Apart : Apart env.target b b' → state_at h.place ≢ state_at h'.place
  unfolding sp sp'
  states-Apart apart e = elim (ℕ_discrete sp sp') [
    | no other ↦
        states_apart h.place.chunk h'.place.chunk h.place.page.place h'.place.page.place other
          h.place.below h'.place.below e
    | yes same ↦
        let page : IsSuperPage env w.mem sp' h.place.d = rw same at h.place.page in
        let class = same_class page h'.place.page in
        let e' : states_of sp' h'.place.d + h.place.chunk
            ≡ states_of sp' h'.place.d + h'.place.chunk =
          rw (same, class) at e in
        let chunk : h.place.chunk ≡ h'.place.chunk = omega (arith, e') in
        let start : block_start env.target b ≡ block_start env.target b' =
          block_start_lem u h ∙ rw (same, class, chunk) refl ∙ sym (block_start_lem u h') in
        elim apart [
          | inl before ↦ omega (arith, before, start, h.nonempty)
          | inr behind ↦ omega (arith, behind, start, h'.nonempty)
        ]
  ]

pub Apart-sym : (t : Target) (b b' : Block) → Apart t b b' → Apart t b' b
Apart-sym t b b' (inl before) = inr before
Apart-sym t b b' (inr behind) = inl behind

pub Every-Removed :
    {P : Block → Type 0} {b : Block} {bs rest : List Block}
    → Every P bs
    → Removed b bs rest
    → P b × Every P rest
Every-Removed nothing r = elim r [ ]
Every-Removed (each p all) first = (p, all)
Every-Removed (each p all) (later r) =
    let (here, others) = Every-Removed all r in (here, each p others)

pub AllApart-Removed :
    {t : Target} {b : Block} {bs rest : List Block}
    → AllApart t bs
    → Removed b bs rest
    → Every (Apart t b) rest × AllApart t rest
AllApart-Removed nothing_apart r = elim r [ ]
AllApart-Removed (each_apart here all) first = (here, all)
AllApart-Removed {t = t} {b = b} (each_apart here all) (later {a} r) =
    let (mine, rest_apart) = AllApart-Removed all r in
    let (with_a, others) = Every-Removed here r in
    (each (Apart-sym t a b with_a) mine, each_apart others rest_apart)

pub Every-map :
    {P Q : Block → Type 0} {bs : List Block} → ((b : Block) → P b → Q b) → Every P bs → Every Q bs
Every-map f nothing = nothing
Every-map f (each {b} p all) = each (f b p) (Every-map f all)

-- With two properties at once.
pub Every-both :
    {P Q R : Block → Type 0} {bs : List Block}
    → ((b : Block) → P b → Q b → R b)
    → Every P bs
    → Every Q bs
    → Every R bs
Every-both f nothing nothing = nothing
Every-both f (each {b} p ps) (each q qs) = each (f b p q) (Every-both f ps qs)
