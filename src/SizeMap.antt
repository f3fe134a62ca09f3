-- ===== src/SizeMap.antt =====
-- The table of size classes, GC_size_map: GC_init_size_map of misc.c, which fills it for the tiny
-- sizes, and GC_extend_size_map of malloc.c, which fills it on demand. The table has an element for
-- each size up to MAXOBJBYTES; `none` is an access behind it, or a loop that has used up its fuel.
pub mod Loops
pub mod Fit
pub mod Extend
mod Tests
use boehmgc.Base.{
  ℕ, zero, suc, ◌+◌, ◌-◌, ◌*◌, ◌/◌, ◌^◌, Bool, Option, none, some, if◌then◌else◌, ◌==◌, ltb, leb,
  update,
}

abbrev pub maxobjbytes : ℕ
maxobjbytes = 2048

abbrev pub maxobjgranules : ℕ
maxobjgranules = 128

abbrev pub hblk_granules : ℕ
hblk_granules = 256

abbrev pub tiny_freelists : ℕ
tiny_freelists = 25

abbrev pub extra_bytes : Bool → ℕ
extra_bytes all_interior_pointers = if all_interior_pointers then 1 else 0

abbrev pub sizet_sat_add : ℕ → ℕ → ℕ
sizet_sat_add a b = if ltb a (2 ^ 64 - 1 - b) then a + b else 2 ^ 64 - 1

abbrev pub rounded_up_granules : Bool → ℕ → ℕ
rounded_up_granules aip lb = sizet_sat_add lb (15 + extra_bytes aip) / 16

-- The sizes up to `n`, after the loop over them.
unfoldable pub init_upto : Bool → ℕ → ℕ → ℕ
init_upto aip zero = update (λ i. 0) 0 1
init_upto aip (suc n) = update (init_upto aip n) (suc n) (rounded_up_granules aip (suc n))

unfoldable pub init_size_map : Bool → ℕ → ℕ
init_size_map aip = init_upto aip ((tiny_freelists - 1) * 16 - extra_bytes aip)

-- `while (GC_size_map[low_limit] != 0) low_limit++;`
unfoldable pub first_free : (ℕ → ℕ) → ℕ → ℕ → Option ℕ
first_free m zero low_limit = none
first_free m (suc fuel) low_limit =
    let rest = first_free m fuel (suc low_limit) in
    if ltb maxobjbytes low_limit then none else if m low_limit == 0 then some low_limit else rest

-- The loop that fills in the section.
unfoldable pub fill_section : ℕ → ℕ → ℕ → ℕ → (ℕ → ℕ) → Option (ℕ → ℕ)
fill_section granule_sz byte_sz zero low_limit m = none
fill_section granule_sz byte_sz (suc fuel) low_limit m =
    let rest =
      fill_section granule_sz byte_sz fuel (suc low_limit) (update m low_limit granule_sz) in
    if leb low_limit byte_sz then (if ltb maxobjbytes low_limit then none else rest) else some m

-- An even number of granules, at most MAXOBJGRANULES, and more if as many objects fit a block.
abbrev pub even_capped : ℕ → ℕ
even_capped granule_sz =
    let even = (granule_sz + 1) / 2 * 2 in if ltb maxobjgranules even then maxobjgranules else even

abbrev pub spread : ℕ → ℕ
spread granule_sz = hblk_granules / (hblk_granules / granule_sz) / 2 * 2

-- The size for the section that begins at `low_limit`, where smaller sizes are in use.
abbrev pub stretched : Bool → ℕ → ℕ → ℕ
stretched aip orig_granule_sz low_limit =
    let granule_sz = rounded_up_granules aip low_limit in
    let more = granule_sz + granule_sz / 8 in
    if ltb more orig_granule_sz then orig_granule_sz else more

unfoldable pub fill_from : Bool → ℕ → ℕ → ℕ → (ℕ → ℕ) → Option (ℕ → ℕ)
fill_from aip fuel granule_sz low_limit m =
    let size = spread (even_capped granule_sz) in
    fill_section size (size * 16 - extra_bytes aip) fuel low_limit m

unfoldable pub extend_size_map : Bool → ℕ → ℕ → (ℕ → ℕ) → Option (ℕ → ℕ)
extend_size_map aip fuel i m =
    let orig_granule_sz = rounded_up_granules aip i in
    let byte_sz = orig_granule_sz * 16 in
    let smaller_than_i = byte_sz - byte_sz / 8 in
    if ltb maxobjbytes smaller_than_i
    then none
    else if m smaller_than_i == 0
    then elim (first_free m fuel (byte_sz - byte_sz / 4)) [
      | none ↦ none
      | some low_limit ↦ fill_from aip fuel orig_granule_sz low_limit m
    ]
    else elim (first_free m fuel (smaller_than_i + 1)) [
      | none ↦ none
      | some low_limit ↦ fill_from aip fuel (stretched aip orig_granule_sz low_limit) low_limit m
    ]
