-- ===== src/Large/Headers.antt =====
-- The header before a large chunk.
use sanitizers.Base.{
  Mem, load64, store64, load64-store64_self, load64-store64_ne, ok, trap, add64, sub64, ℕ, ◌+◌, ◌^◌,
  ◌<◌, ◌≡◌, refl, ◌∙◌, ◌≢◌, ◌↔◌, Bool, arith,
}
use sanitizers.Large.{
  left_header_magic, right_header_magic, write_header, get_header, large_chunk_size,
  large_deallocate,
}

-- A header is read back: a pointer one page behind it passes the check, its chunk size is what was
-- written less a page, and `Deallocate` gives back the whole mapping from the header on.
pub write_header_lem :
    (m : Mem) (hdr size : ℕ) (protect : Bool)
    → hdr + 2 ^ 12 < 2 ^ 64
    → size < 2 ^ 64
    → (large_chunk_size (write_header m hdr size) (hdr + 2 ^ 12) ≡ ok (sub64 size (2 ^ 12)))
      × (large_deallocate (write_header m hdr size) (hdr + 2 ^ 12) protect
          ≡ ok (hdr, size, protect))
unfolding large_chunk_size large_deallocate get_header write_header
write_header_lem m hdr size protect h hs =
    let back : sub64 (hdr + 2 ^ 12) (2 ^ 12) ≡ hdr = omega arith in
    let at8 : add64 hdr 8 ≡ hdr + 8 = omega arith in
    let at16 : add64 hdr 16 ≡ hdr + 16 = omega arith in
    let first = load64-store64_self m hdr left_header_magic (omega arith) in
    let m1 = store64 m hdr left_header_magic in
    let m2 = store64 m1 (hdr + 8) size in
    let m3 = store64 m2 (hdr + 16) right_header_magic in
    let left : load64 m3 hdr ≡ left_header_magic =
      load64-store64_ne m2 (hdr + 16) right_header_magic hdr (omega arith)
      ∙ load64-store64_ne m1 (hdr + 8) size hdr (omega arith)
      ∙ first in
    let length : load64 m3 (hdr + 8) ≡ size =
      load64-store64_ne m2 (hdr + 16) right_header_magic (hdr + 8) (omega arith)
      ∙ load64-store64_self m1 (hdr + 8) size hs in
    rw (back, at8, at16, left, at8, length) (refl, refl)

-- The check of the header traps exactly if both of its magic words differ.
pub get_header-trap :
    (m : Mem) (ptr : ℕ)
    → (get_header m ptr ≡ trap) ↔ (
        (load64 m (sub64 ptr (2 ^ 12)) ≢ left_header_magic)
        × (load64 m (add64 (sub64 ptr (2 ^ 12)) 16) ≢ right_header_magic))
unfolding get_header
get_header-trap m ptr = ground arith
