-- ===== src/SizeMap/Tests.antt =====
-- The table of size classes after the start, extended for objects of 400 bytes.
use boehmgc.Base.{ℕ, ◌<◌, ◌≡◌, refl, false, some, arith}
use boehmgc.SizeMap.{init_upto, init_size_map, extend_size_map}
use boehmgc.SizeMap.Extend.{IsSizeMap, init_size_map-IsSizeMap, extend_size_map-IsSizeMap}

not_yet : init_size_map false 400 ≡ 0
unfolding init_size_map init_upto
not_yet = refl

extend_size_map-IsSizeMap_example :
    (m' : ℕ → ℕ) × (extend_size_map false 2050 400 (init_size_map false) ≡ some m')
    × IsSizeMap false m'
    × (0 < m' 400)
    × ((j : ℕ) → 0 < init_size_map false j → 0 < m' j)
extend_size_map-IsSizeMap_example =
    extend_size_map-IsSizeMap false 2050 400 (init_size_map false) (init_size_map-IsSizeMap false)
      (omega arith) not_yet (omega arith)
