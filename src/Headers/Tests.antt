-- ===== src/Headers/Tests.antt =====
-- The theorems on headers at an object of three blocks.
use boehmgc.Base.{ℕ, ◌+◌, ◌<◌, ◌≡◌, refl, true, false, some, arith, ◌==◌, if◌then◌else◌}
use boehmgc.Headers.{
  Hdr, null, header, Index, found, header_cache_miss, obj_sz_to_blocks, install_counts,
  remove_counts,
}
use boehmgc.Headers.Counts.{install_counts-found, remove_counts-install_counts}

abbrev three_blocks : Hdr
three_blocks = record {
  hb_block = 20480;
  hb_sz = 12288;
  hb_descr = 12288;
  hb_map = λ i. 1;
  large_block = true;
  is_free = false;
  ignore_off_page = false;
}

-- Only the header of block 5 is installed.
abbrev index : Index
index i = if i == 5 then header three_blocks else null

install_counts-found_example :
    header_cache_miss (install_counts true 5 12288 index).1 true 30000 ≡ some (found three_blocks)
install_counts-found_example =
    install_counts-found 5 12288 30000 true index three_blocks refl refl refl (omega arith)
      (omega arith)

free_behind : (j : ℕ) → 5 < j → j < 5 + obj_sz_to_blocks 12288 → index j ≡ null
free_behind j l m = ground arith

remove_counts-install_counts_example :
    remove_counts 5 12288 (install_counts true 5 12288 index).1 6 ≡ index 6
remove_counts-install_counts_example = remove_counts-install_counts 5 12288 index free_behind 6
