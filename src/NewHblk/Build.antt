-- ===== src/NewHblk/Build.antt =====
-- GC_build_fl, whichever case its `switch` takes.
use boehmgc.Base.{
  ℕ, ◌+◌, ◌-◌, ◌*◌, ◌/◌, ◌≤◌, ◌<◌, ◌≡◌, Bool, true, false, some, arith, ◌==◌, ℕ_discrete,
}
use boehmgc.Memory.{Mem}
use boehmgc.NewHblk.{hblksize, build_fl}
use boehmgc.NewHblk.Small.{
  build_fl_clear2-Built, build_fl2-Built, build_fl_clear4-Built, build_fl4-Built,
}
use boehmgc.NewHblk.Any.{build_fl_any-Built}
use boehmgc.NewHblk.Spec.{Built}

-- Where the last object of a block starts.
abbrev pub last_object : ℕ → ℕ → ℕ
last_object h sz = h + (hblksize / (8 * sz) - 1) * (8 * sz)

module _ (h list : ℕ) (m : Mem) where
  e16 : h + hblksize - 16 ≡ h + 255 * 16
  e16 = omega arith

  e32 : h + hblksize - 32 ≡ h + 127 * 32
  e32 = omega arith

  build_two :
      (clear : Bool)
      → (m' : Mem) × (build_fl h 2 clear list m ≡ some (last_object h 2, m'))
        × Built clear h 16 list m (last_object h 2) m'
  unfolding build_fl
  build_two true = rw e16 at (build_fl_clear2-Built h list m)
  build_two false = rw e16 at (build_fl2-Built h list m)

  build_four :
      (clear : Bool)
      → (m' : Mem) × (build_fl h 4 clear list m ≡ some (last_object h 4, m'))
        × Built clear h 32 list m (last_object h 4) m'
  unfolding build_fl
  build_four true = rw e32 at (build_fl_clear4-Built h list m)
  build_four false = rw e32 at (build_fl4-Built h list m)

  -- GC_build_fl ends, for every object size of `sz` words that fits a block, and gives the last object: from it
  -- the links lead through all the objects of the block, by descending address, to the old list.
  -- With `clear` every word of an object behind its link is zero, and memory outside the block is as
  -- it was.
  pub build_fl-Built :
      (sz : ℕ) (clear : Bool)
      → 0 < sz
      → 8 * sz ≤ hblksize
      → (m' : Mem) × (build_fl h sz clear list m ≡ some (last_object h sz, m'))
        × Built clear h (8 * sz) list m (last_object h sz) m'
  unfolding build_fl
  build_fl-Built sz clear pos fits = elim (ℕ_discrete sz 2) [
    | yes two ↦ rw two (build_two clear)
    | no n2 ↦ elim (ℕ_discrete sz 4) [
      | yes four ↦ rw four (build_four clear)
      | no n4 ↦
          let not2 : (sz == 2) ≡ false = ground arith in
          let not4 : (sz == 4) ≡ false = ground arith in
          rw (not2, not4) (build_fl_any-Built clear h sz list m pos fits)
    ]
  ]
