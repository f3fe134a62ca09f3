-- ===== src/BlackList/Tests.antt =====
-- The black list theorems at a heap of two blocks.
use boehmgc.Base.{ℕ, ◌≡◌, ◌≢◌, refl, true, some, none, Option, arith, ◌==◌, [], ◌∷◌}
use boehmgc.BlackList.{
  BlackLists, clear_bl, is_black_listed, promote_black_lists, add_to_black_list_stack,
}
use boehmgc.BlackList.Query.{Answer, is_black_listed-Answer}
use boehmgc.BlackList.Cycle.{add-promote-is_black_listed}

-- Block 6 is black listed for the stack.
abbrev lists : BlackLists
lists = record {
  all_interior_pointers = true;
  old_normal_bl = clear_bl;
  incomplete_normal_bl = clear_bl;
  old_stack_bl = λ i. i == 6;
  incomplete_stack_bl = clear_bl;
  total_stack_black_listed = 4096;
  black_list_spacing = 20480;
  heapsize = 8192;
  heap_sects = (record { start = 20480; bytes = 8192 }) ∷ [];
}

is_black_listed-Answer_example :
    (o : Option ℕ) × (is_black_listed lists 20480 8192 ≡ some o) × Answer lists 20480 8192 o
is_black_listed-Answer_example = is_black_listed-Answer lists 20480 8192

add-promote-is_black_listed_example :
    is_black_listed (promote_black_lists (add_to_black_list_stack true 20488 lists)) 20480 4096
    ≢ some none
add-promote-is_black_listed_example =
    add-promote-is_black_listed lists true 20488 20480 4096 refl (omega arith) (omega arith)
