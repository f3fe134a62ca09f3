-- ===== src/BlackList.antt =====
-- blacklst.c: the black lists, in which false pointers are noted by the block that they hit.
-- A page_hash_table is read bit by bit; bit i of word j is bit 64 * j + i. Addresses are in bytes.
pub mod Query
pub mod Cycle
mod Tests
use boehmgc.Base.{
  ℕ, zero, suc, ◌+◌, ◌-◌, ◌*◌, ◌/◌, ◌%◌, ◌^◌, Bool, true, false, ◌||◌, ◌&&◌, not, Option, none,
  some, List, [], ◌∷◌, ltb, leb, ◌==◌, if◌then◌else◌,
}

abbrev pub hblksize : ℕ
hblksize = 4096

abbrev pub Table : Type 0
Table = ℕ → Bool

-- PHT_HASH, for 2 ^ 18 entries.
unfoldable pub pht_hash : ℕ → ℕ
pht_hash addr = addr / hblksize % 2 ^ 18

-- set_pht_entry_from_index
unfoldable pub set_pht_entry : Table → ℕ → Table
set_pht_entry bl index = λ i. if i == index then true else bl i

-- The bits of the word of `index`, from `n` bits on down, are all 0.
pub word_is_zero : Table → ℕ → ℕ → Bool
word_is_zero bl base zero = true
word_is_zero bl base (suc n) = not (bl (base + n)) && word_is_zero bl base n

-- GC_clear_bl
abbrev pub clear_bl : Table
clear_bl _ = false

-- A section of the heap, GC_heap_sects[i].
pub record HeapSect : Type 0 where
  pub start : ℕ
  pub bytes : ℕ

-- The static variables of blacklst.c and what it reads of others.
pub record BlackLists : Type 0 where
  pub all_interior_pointers : Bool
  pub old_normal_bl : Table
  pub incomplete_normal_bl : Table
  pub old_stack_bl : Table
  pub incomplete_stack_bl : Table
  pub total_stack_black_listed : ℕ
  pub black_list_spacing : ℕ
  pub heapsize : ℕ
  pub heap_sects : List HeapSect

-- GC_add_to_black_list_normal: `no_header` is `HDR(p) == 0`, `modws_valid` GC_modws_valid_offsets.
unfoldable pub add_to_black_list_normal : (ℕ → Bool) → Bool → ℕ → BlackLists → BlackLists
unfolding set_pht_entry pht_hash
add_to_black_list_normal modws_valid no_header p b =
    if modws_valid (p % 8) && (no_header || b.old_normal_bl (pht_hash p))
    then record b { incomplete_normal_bl = set_pht_entry b.incomplete_normal_bl (pht_hash p) }
    else b

unfoldable pub add_to_black_list_stack : Bool → ℕ → BlackLists → BlackLists
unfolding set_pht_entry pht_hash
add_to_black_list_stack no_header p b =
    if no_header || b.old_stack_bl (pht_hash p)
    then record b { incomplete_stack_bl = set_pht_entry b.incomplete_stack_bl (pht_hash p) }
    else b

-- The loop of GC_is_black_listed over the blocks from `h` on, at block `i`: the address of the
-- block to go on with, or `none` for NULL. The outer `none` is a loop out of fuel.
pub black_listed_loop : Table → Table → ℕ → ℕ → ℕ → ℕ → Option (Option ℕ)
black_listed_loop old incomplete h nblocks zero i = none
black_listed_loop old incomplete h nblocks (suc k) i =
    let index = pht_hash (h + i * hblksize) in
    let base = index / 64 * 64 in
    let easy = word_is_zero old base 64 && word_is_zero incomplete base 64 in
    let i' = if easy then i + (64 - index % 64) else i + 1 in
    let rest = black_listed_loop old incomplete h nblocks k i' in
    if not easy && (old index || incomplete index)
    then some (some (h + (i + 1) * hblksize))
    else if leb nblocks i'
    then some none
    else rest

unfoldable pub is_black_listed : BlackLists → ℕ → ℕ → Option (Option ℕ)
is_black_listed b h len =
    let index = pht_hash h in
    if not b.all_interior_pointers && (b.old_normal_bl index || b.incomplete_normal_bl index)
    then some (some (h + hblksize))
    else black_listed_loop b.old_stack_bl b.incomplete_stack_bl h (len / hblksize)
        (len / hblksize + 1) 0

-- GC_number_stack_black_listed, over the `n` blocks from `h` on.
pub number_stack_black_listed : Table → ℕ → ℕ → ℕ
number_stack_black_listed old h zero = 0
number_stack_black_listed old h (suc n) =
    (if old (pht_hash h) then 1 else 0) + number_stack_black_listed old (h + hblksize) n

pub sum_sects : Table → List HeapSect → ℕ
unfolding number_stack_black_listed
sum_sects old [] = 0
sum_sects old (s ∷ ss) =
    number_stack_black_listed old s.start (s.bytes / hblksize) + sum_sects old ss

pub total_stack_black_listed : Table → List HeapSect → ℕ
unfolding sum_sects
total_stack_black_listed old ss = sum_sects old ss * hblksize

-- The bound on a step of the heap's growth, in blocks, without LARGE_CONFIG.
abbrev pub maxhincr : ℕ
maxhincr = 2048

-- The end of GC_promote_black_lists, from the total on.
pub new_spacing : ℕ → ℕ → ℕ → ℕ
new_spacing total heapsize spacing =
    let s = if total == 0 then spacing else hblksize * (heapsize / total) in
    let s' = if ltb s (3 * hblksize) then 3 * hblksize else s in
    if ltb (maxhincr * hblksize) s' then maxhincr * hblksize else s'

unfoldable pub promote_black_lists : BlackLists → BlackLists
unfolding total_stack_black_listed new_spacing
promote_black_lists b =
    let total = total_stack_black_listed b.incomplete_stack_bl b.heap_sects in
    record b {
      old_normal_bl = b.incomplete_normal_bl;
      old_stack_bl = b.incomplete_stack_bl;
      incomplete_normal_bl = if b.all_interior_pointers then b.old_normal_bl else clear_bl;
      incomplete_stack_bl = clear_bl;
      total_stack_black_listed = total;
      black_list_spacing = new_spacing total b.heapsize b.black_list_spacing;
    }

unfoldable pub unpromote_black_lists : BlackLists → BlackLists
unpromote_black_lists b = record b {
  incomplete_normal_bl =
      if b.all_interior_pointers then b.incomplete_normal_bl else b.old_normal_bl;
  incomplete_stack_bl = b.old_stack_bl;
}
