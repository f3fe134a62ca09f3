-- ===== src/BlackList/Cycle.antt =====
-- How long a false pointer is remembered: GC_add_to_black_list_stack, GC_promote_black_lists and
-- GC_is_black_listed together.
use boehmgc.Base.{ℕ, ◌*◌, ◌/◌, ◌≤◌, ◌≡◌, ◌≢◌, refl, Bool, true, ◌||◌, some, none, arith}
use boehmgc.BlackList.{
  hblksize, pht_hash, BlackLists, add_to_black_list_stack, is_black_listed, promote_black_lists,
  new_spacing, maxhincr,
}
use boehmgc.BlackList.Query.{clean-of-none, none-of-unlisted}

module _ (b : BlackLists) (no_header : Bool) (p h len : ℕ)
    (hit : (no_header || b.old_stack_bl (pht_hash p)) ≡ true)
    (same_block : p / hblksize ≡ h / hblksize) (some_block : hblksize ≤ len) where
  -- A false pointer `p` from the stack into the block of `h`, which has no header or was black
  -- listed before, black lists the block at once: GC_is_black_listed accepts no range from `h` on
  -- of at least HBLKSIZE bytes.
  add-is_black_listed : is_black_listed (add_to_black_list_stack no_header p b) h len ≢ some none
  unfolding add_to_black_list_stack pht_hash
  add-is_black_listed e =
      let c = (clean-of-none (add_to_black_list_stack no_header p b) h len e).1 0 (omega arith) in
      ground arith

  -- Let `p` be a false pointer from the stack into the block of `h`, and let that block have no
  -- header or be on the old stack black list. After GC_add_to_black_list_stack of `p` and the
  -- GC_promote_black_lists that ends the collection, GC_is_black_listed accepts no range from `h`
  -- on of at least HBLKSIZE bytes.
  pub add-promote-is_black_listed :
      is_black_listed (promote_black_lists (add_to_black_list_stack no_header p b)) h len
      ≢ some none
  unfolding add_to_black_list_stack promote_black_lists pht_hash
  add-promote-is_black_listed e =
      let c =
        (clean-of-none (promote_black_lists (add_to_black_list_stack no_header p b)) h len e).1 0
          (omega arith) in
      ground arith

-- After two GC_promote_black_lists in a row, with no false pointer in between, GC_is_black_listed
-- accepts every range.
promote-promote-clean :
    (b : BlackLists) (h len : ℕ)
    → is_black_listed (promote_black_lists (promote_black_lists b)) h len ≡ some none
unfolding promote_black_lists
promote-promote-clean b h len =
    none-of-unlisted (promote_black_lists (promote_black_lists b)) h len (ground arith) (λ j. refl)

-- The spacing that GC_promote_black_lists computes lies between 3 blocks and MAXHINCR blocks.
pub spacing_bounds :
    (b : BlackLists)
    → (3 * hblksize ≤ (promote_black_lists b).black_list_spacing)
      × ((promote_black_lists b).black_list_spacing ≤ maxhincr * hblksize)
unfolding promote_black_lists new_spacing
spacing_bounds b = ground arith
