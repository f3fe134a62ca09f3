-- ===== src/FreeLists.antt =====
-- The lists of free heap blocks of allchblk.c: GC_hblk_fl_from_blocks, GC_enough_large_bytes_left,
-- GC_remove_from_fl_at, GC_remove_from_fl, GC_add_to_fl, GC_get_first_part and GC_split_block.
-- A block is its address in bytes, and a header is found by the block that it describes. `none` is
-- a read through a null header.
pub mod Index
pub mod Chain
pub mod Add
pub mod Unlink
pub mod Remove
pub mod AddRemove
pub mod Enough
pub mod Sound
pub mod FirstPart
mod Tests
use boehmgc.Base.{
  update, ℕ, zero, suc, ◌+◌, ◌-◌, ◌*◌, ◌/◌, ◌%◌, ◌^◌, Bool, true, false, Option, none, some, ltb,
  leb, ◌==◌, if◌then◌else◌,
}

abbrev pub hblksize : ℕ
hblksize = 4096

abbrev pub unique_threshold : ℕ
unique_threshold = 32

abbrev pub huge_threshold : ℕ
huge_threshold = 256

abbrev pub fl_compression : ℕ
fl_compression = 8

abbrev pub n_hblk_fls : ℕ
n_hblk_fls = (huge_threshold - unique_threshold) / fl_compression + unique_threshold

unfoldable pub hblk_fl_from_blocks : ℕ → ℕ
hblk_fl_from_blocks blocks_needed =
    if leb blocks_needed unique_threshold
    then blocks_needed
    else if leb huge_threshold blocks_needed
    then n_hblk_fls
    else (blocks_needed - unique_threshold) / fl_compression + unique_threshold

-- The fields of struct hblkhdr that the lists use; `free_blk` is that bit of hb_flags.
pub record Header : Type 0 where
  pub hb_next : ℕ
  pub hb_prev : ℕ
  pub hb_sz : ℕ
  pub free_blk : Bool

-- GC_hblkfreelist, GC_free_bytes, and the headers; 0 is NULL.
pub record Lists : Type 0 where
  pub hblkfreelist : ℕ → ℕ
  pub free_bytes : ℕ → ℕ
  pub hdr : ℕ → Option Header

-- A write to fields of the header of `p`.
unfoldable pub modify : ℕ → (Header → Header) → Lists → Option Lists
modify p f s = elim (s.hdr p) [
  | none ↦ none
  | some hhdr ↦ some (record s { hdr = update s.hdr p (some (f hhdr)) })
]

infixl 5 ◌>>=◌
abbrev pub ◌>>=◌ : {A B : Type 0} → Option A → (A → Option B) → Option B
o >>= f = elim o [ none ↦ none | some a ↦ f a ]

-- The loop from list `n` down; at list 0 both outcomes of its test return 0.
enough_from : (ℕ → ℕ) → ℕ → ℕ → ℕ → ℕ
enough_from free_bytes max_large bytes zero = 0
enough_from free_bytes max_large bytes (suc n) =
    let b = (bytes + free_bytes (suc n)) % 2 ^ 64 in
    let rest = enough_from free_bytes max_large b n in if leb max_large b then suc n else rest

pub enough_large_bytes_left : Lists → ℕ → ℕ → ℕ
unfolding enough_from
enough_large_bytes_left s large_allocd_bytes max_large_allocd_bytes =
    enough_from s.free_bytes max_large_allocd_bytes large_allocd_bytes n_hblk_fls

unfoldable pub remove_from_fl_at : ℕ → ℕ → Lists → Option Lists
remove_from_fl_at h index s = do
  hhdr ← s.hdr h
  s₁ ←
      if hhdr.hb_prev == 0
      then some (record s { hblkfreelist = update s.hblkfreelist index hhdr.hb_next })
      else modify hhdr.hb_prev (λ phdr. record phdr { hb_next = hhdr.hb_next }) s
  hhdr₁ ← s₁.hdr h
  let s₂ : Lists = record s₁ {
    free_bytes = update s₁.free_bytes index ((s₁.free_bytes index + 2 ^ 64 - hhdr₁.hb_sz) % 2 ^ 64);
  }
  if hhdr₁.hb_next == 0
      then some s₂
      else modify hhdr₁.hb_next (λ nhdr. record nhdr { hb_prev = hhdr₁.hb_prev }) s₂

unfoldable pub remove_from_fl : ℕ → Lists → Option Lists
remove_from_fl h s = do
  hhdr ← s.hdr h
  remove_from_fl_at h (hblk_fl_from_blocks (hhdr.hb_sz / hblksize)) s

unfoldable pub add_to_fl : ℕ → Lists → Option Lists
add_to_fl h s = do
  hhdr ← s.hdr h
  let index = hblk_fl_from_blocks (hhdr.hb_sz / hblksize)
  let second = s.hblkfreelist index
  s₁ ←
      modify h (λ hh. record hh { hb_next = second; hb_prev = 0 })
        (record s {
          hblkfreelist = update s.hblkfreelist index h;
          free_bytes = update s.free_bytes index ((s.free_bytes index + hhdr.hb_sz) % 2 ^ 64);
        })
  s₂ ←
      if second == 0
      then some s₁
      else modify second (λ second_hdr. record second_hdr { hb_prev = h }) s₁
  modify h (λ hh. record hh { free_blk = true }) s₂

-- `fresh` is what GC_install_header returns for the remainder: a header with any contents, or NULL.
-- The result is the block, or 0. The callers ask for at most hb_sz bytes.
unfoldable pub get_first_part : Option Header → ℕ → ℕ → ℕ → Lists → Option (ℕ × Lists)
get_first_part fresh h bytes index s = do
  hhdr ← s.hdr h
  s₁ ← remove_from_fl_at h index s
  if hhdr.hb_sz == bytes then some (h, s₁) else elim fresh [
    | none ↦ some (0, s₁)
    | some r ↦
        add_to_fl (h + bytes) (record s₁ {
          hdr =
              update s₁.hdr (h + bytes)
                (some (record r { hb_sz = hhdr.hb_sz - bytes; free_blk = false }));
        })
        >>= λ s₂. some (h, s₂)
  ]

-- `nhdr` is the header that the caller has just installed for `n`.
unfoldable pub split_block : ℕ → ℕ → ℕ → Lists → Option Lists
unfolding add_to_fl modify
split_block h n index s = do
  hhdr ← s.hdr h
  let total_size = hhdr.hb_sz
  let h_size = n - h
  let prev = hhdr.hb_prev
  let next = hhdr.hb_next
  s₁ ←
      modify n
        (λ nhdr. record {
          hb_prev = prev;
          hb_next = next;
          hb_sz = total_size - h_size;
          free_blk = false;
        })
        s
  s₂ ←
      if prev == 0
      then some (record s₁ { hblkfreelist = update s₁.hblkfreelist index n })
      else modify prev (λ phdr. record phdr { hb_next = n }) s₁
  s₃ ← if next == 0 then some s₂ else modify next (λ hh. record hh { hb_prev = n }) s₂
  s₄ ←
      modify h (λ hh. record hh { hb_sz = h_size })
        (record s₃ {
          free_bytes =
              update s₃.free_bytes index ((s₃.free_bytes index + 2 ^ 64 - h_size) % 2 ^ 64);
        })
  s₅ ← add_to_fl h s₄
  modify n (λ nhdr. record nhdr { free_blk = true }) s₅
