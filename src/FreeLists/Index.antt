-- ===== src/FreeLists/Index.antt =====
-- Which list a size belongs to.
use boehmgc.Base.{ℕ, ◌≤◌, ◌<◌, ◌≡◌, arith}
use boehmgc.FreeLists.{hblk_fl_from_blocks, n_hblk_fls, unique_threshold}

-- GC_hblk_fl_from_blocks stays within the array, never puts a larger block on an earlier list, and
-- keeps one list for each size up to UNIQUE_THRESHOLD: only blocks of that size are on it.
hblk_fl_from_blocks_lem :
    (a b : ℕ)
    → (hblk_fl_from_blocks a ≤ n_hblk_fls)
      × (a ≤ b → hblk_fl_from_blocks a ≤ hblk_fl_from_blocks b)
      × (hblk_fl_from_blocks a ≡ hblk_fl_from_blocks b → a < unique_threshold → a ≡ b)
unfolding hblk_fl_from_blocks
hblk_fl_from_blocks_lem a b = (ground arith, λ h. ground arith, λ e l. ground arith)
