-- ===== src/Headers.antt =====
-- headers.c: the map from addresses to block headers. The index, a tree of two levels, is a table with
-- an entry for each block number; addresses are in bytes.

pub mod Counts
mod Tests
use boehmgc.Base.{
  ℕ, zero, suc, ◌+◌, ◌-◌, ◌*◌, ◌/◌, Bool, true, false, Option, none, some, ltb, leb, ◌==◌,
  if◌then◌else◌, ◌≡◌, refl,
}

abbrev pub hblksize : ℕ
hblksize = 4096

abbrev pub max_jump : ℕ
max_jump = 4095

-- What marking reads of struct hblkhdr; the flags LARGE_BLOCK, FREE_BLK and IGNORE_OFF_PAGE are Booleans.
pub record Hdr : Type 0 where
  pub hb_block : ℕ
  pub hb_sz : ℕ
  pub hb_descr : ℕ
  pub hb_map : ℕ → ℕ
  pub large_block : Bool
  pub is_free : Bool
  pub ignore_off_page : Bool

-- An entry of the index: 0, a count of blocks to go back, or a header.
pub data Entry : Type 0 where
  null : Entry
  forwarding : ℕ → Entry
  header : Hdr → Entry

abbrev pub Index : Type 0
Index = ℕ → Entry

-- GET_HDR
abbrev pub get_hdr : Index → ℕ → Entry
get_hdr index p = index (p / hblksize)

-- The loop of GC_header_cache_miss that goes back to the header of a large object.
unfoldable pub go_back : Index → ℕ → ℕ → ℕ → Option (ℕ × Hdr)
go_back index zero current count = none
go_back index (suc k) current count =
    let current' = current - hblksize * count in
    elim (get_hdr index current') [
      | null ↦ go_back index k current' 0
      | forwarding n ↦ go_back index k current' n
      | header hhdr ↦ some (current', hhdr)
    ]

-- What a lookup gives: a header, or none, and then with or without a note in the black list.
pub data Lookup : Type 0 where
  found : Hdr → Lookup
  black_listed : Lookup
  ignored : Lookup

-- GC_header_cache_miss; `none` is a loop that does not end.
unfoldable pub header_cache_miss : Index → Bool → ℕ → Option Lookup
header_cache_miss index all_interior_pointers p = elim (get_hdr index p) [
  | null ↦ some black_listed
  | forwarding n ↦
      let interior : Option Lookup =
        elim (go_back index (suc (p / hblksize)) (p / hblksize * hblksize) n) [
          | none ↦ none
          | some (current, hhdr) ↦
              if hhdr.ignore_off_page
              then some ignored
              else if hhdr.is_free
              then some black_listed
              else if leb hhdr.hb_sz (p - current)
              then some black_listed
              else some (found hhdr)
        ] in
      if all_interior_pointers then interior else some ignored
  | header hhdr ↦ if hhdr.is_free then some black_listed else some (found hhdr)
]

-- SET_HDR
unfoldable pub set_hdr : Index → ℕ → Entry → Index
set_hdr index block e = λ i. if i == block then e else index i

-- OBJ_SZ_TO_BLOCKS
abbrev pub obj_sz_to_blocks : ℕ → ℕ
obj_sz_to_blocks sz = (sz + 4095) / hblksize

-- The loop of GC_install_counts over the `n` blocks from block `block + i` on.
unfoldable pub install_loop : ℕ → ℕ → ℕ → Index → Index
install_loop block zero i index = index
install_loop block (suc n) i index =
    install_loop block n (i + 1)
      (set_hdr index (block + i) (forwarding (if ltb max_jump i then max_jump else i)))

-- GC_install_counts for block number `block`; `get_index` says whether there is memory for the
-- bottom level of the index.
unfoldable pub install_counts : Bool → ℕ → ℕ → Index → Bool × Index
install_counts get_index block sz index =
    if get_index
    then (true, install_loop block (obj_sz_to_blocks sz - 1) 1 index)
    else (false, index)

unfoldable pub remove_loop : ℕ → ℕ → ℕ → Index → Index
remove_loop block zero i index = index
remove_loop block (suc n) i index = remove_loop block n (i + 1) (set_hdr index (block + i) null)

unfoldable pub remove_counts : ℕ → ℕ → Index → Index
remove_counts block sz index =
    let all = remove_loop block (obj_sz_to_blocks sz - 1) 1 index in
    if leb sz hblksize then index else elim (index (block + 1)) [ null ↦ index | other ↦ all ]

pub header_cache_miss-header :
    (index : Index) (interior : Bool) (p : ℕ) (hhdr : Hdr)
    → get_hdr index p ≡ header hhdr
    → hhdr.is_free ≡ false
    → header_cache_miss index interior p ≡ some (found hhdr)
unfolding header_cache_miss
header_cache_miss-header index interior p hhdr e f = rw (e, f, header_cache_miss) refl

pub header_cache_miss-null :
    (index : Index) (interior : Bool) (p : ℕ)
    → get_hdr index p ≡ null
    → header_cache_miss index interior p ≡ some black_listed
unfolding header_cache_miss
header_cache_miss-null index interior p e = rw (e, header_cache_miss) refl
