-- ===== src/Mark/Target.antt =====
-- The object that a candidate pointer stands for, and the heaps in which it is well defined.
use boehmgc.Base.{
  ℕ, ◌+◌, ◌-◌, ◌*◌, ◌/◌, ◌%◌, ◌≤◌, ◌<◌, ◌≡◌, ◌≢◌, refl, true, false, Option, none, some, arith,
  if◌then◌else◌, Bool-cases, inl, inr, ◌⊎◌,
}
use boehmgc.Headers.{hblksize, Hdr, header, Lookup, found, header_cache_miss}
use boehmgc.Mark.{Heap, plausible, object_of}

-- A length in whole words, or a bitmap.
abbrev pub Plain : ℕ → Type 0
Plain descr = (descr % 8 ≡ 0) ⊎ (descr % 4 ≡ 1)

-- `hhdr` is what a lookup of `p` gives: the header of its block, with a map for its objects.
pub record IsHdr (h : Heap) (p : ℕ) (hhdr : Hdr) : Type 0 where
  pub own : h.index (hhdr.hb_block / hblksize) ≡ header hhdr
  pub placed : hhdr.large_block ≡ false → hhdr.hb_block ≡ p / hblksize * hblksize
  pub small_map : hhdr.large_block ≡ false → (i : ℕ) → hhdr.hb_map i ≤ i
  pub large_map : hhdr.large_block ≡ true → (i : ℕ) → 0 < hhdr.hb_map i
  pub plain : Plain hhdr.hb_descr
  pub above : 8 ≤ hhdr.hb_block

abbrev pub lookup : Heap → ℕ → Option Lookup
lookup h p = header_cache_miss h.index h.all_interior_pointers p

-- Lookups end and find headers of their blocks.
pub record IsHeap (h : Heap) : Type 0 where
  pub ends : (p : ℕ) → plausible h p ≡ true → lookup h p ≢ none
  pub hdrs : (p : ℕ) (hhdr : Hdr) → lookup h p ≡ some (found hhdr) → IsHdr h p hhdr

abbrev pub object_at : Hdr → Option (ℕ × ℕ) → Option (Hdr × ℕ)
object_at hhdr none = none
object_at hhdr (some (gran, base)) = some (hhdr, gran)

abbrev pub found_object : Heap → ℕ → Option Lookup → Option (Hdr × ℕ)
found_object h p (some (found hhdr)) = object_at hhdr (object_of h p hhdr)
found_object h p other = none

-- The object that `p` stands for, as its header and the granule of its mark bit.
unfoldable pub target : Heap → ℕ → Option (Hdr × ℕ)
target h p = if plausible h p then found_object h p (lookup h p) else none

abbrev pub base_of : Hdr → ℕ → ℕ
base_of hhdr gran = hhdr.hb_block + gran * 16

small_base :
    (p off gran byte block : ℕ)
    → block ≡ p / 4096 * 4096
    → gran ≡ p % 4096 / 16
    → byte ≡ p % 4096 % 16
    → off ≤ gran
    → p - (off * 16 + byte) ≡ block + (gran - off) * 16
small_base p off gran byte block e f g l = omega arith

pub object_of-base :
    (h : Heap) (p : ℕ) (hhdr : Hdr) (gran base : ℕ)
    → IsHdr h p hhdr
    → object_of h p hhdr ≡ some (gran, base)
    → base ≡ base_of hhdr gran
unfolding object_of
object_of-base h p hhdr gran base w e = elim (Bool-cases hhdr.large_block) [
  | inl b ↦ let pos = w.large_map b (p % hblksize / 16) in ground arith
  | inr b ↦
      let off = hhdr.hb_map (p % hblksize / 16) in
      let low = w.small_map b (p % hblksize / 16) in
      let start = w.placed b in
      let place =
        small_base p off (p % hblksize / 16) (p % hblksize % 16) hhdr.hb_block start refl refl
          low in
      ground arith
]
