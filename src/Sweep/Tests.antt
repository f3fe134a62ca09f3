-- ===== src/Sweep/Tests.antt =====
-- The sweep theorems at a block of two objects of half a block each.
use boehmgc.Base.{ℕ, ◌+◌, ◌*◌, ◌/◌, ◌<◌, ◌≡◌, Bool, true, false, some, [], arith, ◌==◌}
use boehmgc.Sweep.{hblksize, Sweep, Marks, reclaim_clear, disclaim_and_reclaim}
use boehmgc.Sweep.Spec.{Blank}
use boehmgc.Sweep.Step.{Swept, by_marks}
use boehmgc.Sweep.Reclaim.{reclaim_clear-Swept}
use boehmgc.Sweep.Disclaim.{stays, Marked, disclaim_and_reclaim-Swept}
use boehmgc.Sweep.Generic.{Header, reclaim_generic, kept, is_uncollectable, reclaim_generic-Swept}

-- The first object is marked.
abbrev first_marked : ℕ → Bool
first_marked b = b == 0

abbrev before : Sweep
before = record { list = 640; count = 48; mem = λ a. a + 1 }

abbrev marks : Marks
marks = record { bits = first_marked; n_marks = 1 }

-- The notifier keeps the object at 8192 + 2048.
abbrev wants : ℕ → Bool
wants p = p == 10240

abbrev hhdr : Header
hhdr = record { obj_kind = 2; has_disclaim = true; marks = marks }

reclaim_generic-Swept_example :
    (m : Marks) × (s' : Sweep) × (reclaim_generic wants false 8192 hhdr 2048 true before
      ≡ some (m, s'))
    × Swept (kept wants true marks) 2048 0 8192 (hblksize / 2048) [] 640 before s'
    × (is_uncollectable 2 ≡ true → (j : ℕ) → j < hblksize / 2048 → m.bits (j * (2048 / 16)) ≡ true)
reclaim_generic-Swept_example =
    reclaim_generic-Swept wants false 8192 2048 128 (omega arith) (omega arith) (omega arith) hhdr
      true before (omega arith)

reclaim_clear-Swept_example :
    (s' : Sweep) × (reclaim_clear first_marked 8192 2048 before ≡ some s')
    × Swept (by_marks first_marked) 2048 0 8192 (hblksize / 2048) [] 640 before s'
    × Blank (by_marks first_marked) 2048 0 8192 (hblksize / 2048) s'.mem
reclaim_clear-Swept_example =
    reclaim_clear-Swept first_marked 8192 2048 256 (omega arith) (omega arith) (omega arith) before
      (omega arith)

disclaim_and_reclaim-Swept_example :
    (m' : Marks) × (s' : Sweep) × (disclaim_and_reclaim wants 8192 2048 marks before
      ≡ some (m', s'))
    × Swept (stays first_marked wants) 2048 0 8192 (hblksize / 2048) [] 640 before s'
    × Blank (stays first_marked wants) 2048 0 8192 (hblksize / 2048) s'.mem
    × Marked (stays first_marked wants) 2048 0 8192 (hblksize / 2048) marks m'
disclaim_and_reclaim-Swept_example =
    disclaim_and_reclaim-Swept wants 8192 2048 128 (omega arith) (omega arith) (omega arith) marks
      before (omega arith)
