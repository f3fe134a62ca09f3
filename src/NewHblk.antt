-- ===== src/NewHblk.antt =====
-- GC_build_fl and its four special cases in new_hblk.c: the free list of a fresh block.
-- Addresses are in bytes, `sz` is in words of 8 bytes as in the source. Each loop runs on fuel,
-- and `none` is a loop that the fuel did not see to its end.
pub mod Spec
pub mod Small
pub mod Any
pub mod Build
mod Tests
use boehmgc.Base.{
  ℕ, zero, suc, ◌+◌, ◌-◌, ◌*◌, Bool, ◌&&◌, Option, none, some, ltb, leb, ◌==◌, if◌then◌else◌,
}
use boehmgc.Memory.{Mem, store}

abbrev pub hblksize : ℕ
hblksize = 4096

-- `BZERO(h, n)`
unfoldable pub bzero : Mem → ℕ → ℕ → Mem
bzero m h n = λ a. if leb h a && ltb a (h + n) then 0 else m a

-- The loop of the four special cases, `for (; p < lim; p += stride)` round the writes `fill` of one
-- round, which link to the object `back` bytes before `p`; it returns `p - back`.
pub fill_loop : (ℕ → ℕ → Mem → Mem) → ℕ → ℕ → ℕ → ℕ → ℕ → Mem → Option (ℕ × Mem)
fill_loop fill stride back lim zero p m = none
fill_loop fill stride back lim (suc k) p m =
    let rest = fill_loop fill stride back lim k (p + stride) (fill p (p - back) m) in
    if ltb p lim then rest else some (p - back, m)

-- Two objects of two words, cleared.
pub fill_clear2 : ℕ → ℕ → Mem → Mem
unfolding store
fill_clear2 p link m = store (store (store (store m p link) (p + 8) 0) (p + 16) p) (p + 24) 0

pub build_fl_clear2 : ℕ → ℕ → Mem → Option (ℕ × Mem)
unfolding fill_loop fill_clear2
build_fl_clear2 h ofl m =
    fill_loop fill_clear2 32 16 (h + hblksize) hblksize (h + 32) (fill_clear2 h ofl m)

-- One object of four words, cleared.
pub fill_clear4 : ℕ → ℕ → Mem → Mem
unfolding store
fill_clear4 p link m = store (store (store (store m p link) (p + 8) 0) (p + 16) 0) (p + 24) 0

pub build_fl_clear4 : ℕ → ℕ → Mem → Option (ℕ × Mem)
unfolding fill_loop fill_clear4
build_fl_clear4 h ofl m =
    fill_loop fill_clear4 32 32 (h + hblksize) hblksize (h + 32) (fill_clear4 h ofl m)

-- Two objects of two words, not cleared.
pub fill2 : ℕ → ℕ → Mem → Mem
unfolding store
fill2 p link m = store (store m p link) (p + 16) p

pub build_fl2 : ℕ → ℕ → Mem → Option (ℕ × Mem)
unfolding fill_loop fill2
build_fl2 h ofl m = fill_loop fill2 32 16 (h + hblksize) hblksize (h + 32) (fill2 h ofl m)

-- Two objects of four words, not cleared.
pub fill4 : ℕ → ℕ → Mem → Mem
unfolding store
fill4 p link m = store (store m p link) (p + 32) p

pub build_fl4 : ℕ → ℕ → Mem → Option (ℕ × Mem)
unfolding fill_loop fill4
build_fl4 h ofl m = fill_loop fill4 64 32 (h + hblksize) hblksize (h + 64) (fill4 h ofl m)

-- The general case: `p` starts at the second object, `prev` is the one before it.
pub any_loop : ℕ → ℕ → ℕ → ℕ → ℕ → Mem → Option (ℕ × Mem)
any_loop sz last_object zero p prev m = none
any_loop sz last_object (suc k) p prev m =
    let rest = any_loop sz last_object k (p + 8 * sz) p (store m p prev) in
    if leb p last_object then rest else some (p, m)

pub build_fl_any : ℕ → ℕ → Bool → ℕ → Mem → Option (ℕ × Mem)
unfolding bzero store
build_fl_any h sz clear list m =
    elim (any_loop sz (h + hblksize - 8 * sz) hblksize (h + 8 * sz) h
      (if clear then bzero m h hblksize else m)) [
        | none ↦ none
        | some (p, m') ↦ some (p - 8 * sz, store m' h list)
      ]

-- The `switch` on the size, and its default.
pub build_fl : ℕ → ℕ → Bool → ℕ → Mem → Option (ℕ × Mem)
build_fl h sz clear list m =
    if sz == 2
    then (if clear then build_fl_clear2 h list m else build_fl2 h list m)
    else if sz == 4
    then (if clear then build_fl_clear4 h list m else build_fl4 h list m)
    else build_fl_any h sz clear list m
