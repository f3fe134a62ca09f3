-- ===== src/NewHblk/Tests.antt =====
-- The free list of a block of objects of three words.
use boehmgc.Base.{◌≡◌, true, some, arith}
use boehmgc.Memory.{Mem}
use boehmgc.NewHblk.{build_fl}
use boehmgc.NewHblk.Spec.{Built}
use boehmgc.NewHblk.Build.{last_object, build_fl-Built}

abbrev ones : Mem
ones _ = 1

build_fl-Built_example :
    (m' : Mem) × (build_fl 8192 3 true 640 ones ≡ some (last_object 8192 3, m'))
    × Built true 8192 24 640 ones (last_object 8192 3) m'
build_fl-Built_example = build_fl-Built 8192 640 ones 3 true (omega arith) (omega arith)
