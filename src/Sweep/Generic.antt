-- ===== src/Sweep/Generic.antt =====
-- GC_reclaim_generic of reclaim.c, with GC_set_hdr_marks and GC_clear_hdr_marks of mark.c. The mark
-- words of a header are read bit by bit: bit i of word j is mark bit 64 * j + i.
use boehmgc.Base.{
  ℕ, ◌*◌, ◌/◌, ◌%◌, ◌^◌, ◌≤◌, ◌<◌, ◌≡◌, ap, ◌∙◌, Bool, true, false, ◌||◌, Option, none, some, [],
  arith, ltb, leb, ◌==◌, if◌then◌else◌,
}
use mathlib.Core.Option
use boehmgc.Sweep.{hblksize, Sweep, Marks, reclaim_clear, reclaim_uninit, disclaim_and_reclaim}
use boehmgc.Sweep.Step.{Swept, by_marks}
use boehmgc.Sweep.Reclaim.{reclaim_clear-Swept, reclaim_uninit-Swept}
use boehmgc.Sweep.Disclaim.{stays, disclaim_and_reclaim-Swept}

-- FINAL_MARK_BIT(sz) with a mark bit per granule; MAXOBJBYTES is half a block.
unfoldable pub final_mark_bit : ℕ → ℕ
final_mark_bit sz = if ltb (hblksize / 2) sz then hblksize / 16 else sz * (hblksize / sz) / 16

-- Whole words below the last one, and in the last word the bits up to `n_marks % 64`.
unfoldable pub set_hdr_marks : ℕ → Marks → Marks
unfolding final_mark_bit
set_hdr_marks sz m =
    let last = final_mark_bit sz in
    record {
      bits = λ b.
          if ltb (b / 64) (last / 64)
          then true
          else if (b / 64) == (last / 64)
          then leb (b % 64) (last % 64)
          else m.bits b;
      n_marks = hblksize / sz;
    }

unfoldable pub clear_hdr_marks : ℕ → Marks → Marks
unfolding final_mark_bit
clear_hdr_marks sz m = record { bits = λ b. b == final_mark_bit sz; n_marks = 0 }

-- What GC_reclaim_generic reads of a header.
pub record Header : Type 0 where
  pub obj_kind : ℕ
  pub has_disclaim : Bool
  pub marks : Marks

-- IS_UNCOLLECTABLE(k): the kinds 2 and 3.
unfoldable pub is_uncollectable : ℕ → Bool
is_uncollectable k = k / 2 * 2 == 2

-- Which of the three sweeps: by HAS_DISCLAIM, and else by whether objects are cleared.
unfoldable pub reclaim_by :
    (ℕ → Bool) → Bool → Bool → ℕ → ℕ → Marks → Sweep → Option (Marks × Sweep)
reclaim_by disclaim true clear hbp sz m s = disclaim_and_reclaim disclaim hbp sz m s
reclaim_by disclaim false true hbp sz m s =
    Option.map (λ s'. (m, s')) (reclaim_clear m.bits hbp sz s)
reclaim_by disclaim false false hbp sz m s =
    Option.map (λ s'. (m, s')) (reclaim_uninit m.bits hbp sz s)

-- `init` is the kind's `ok_init`, `debugging` is GC_debugging_started.
unfoldable pub reclaim_generic :
    (ℕ → Bool) → Bool → ℕ → Header → ℕ → Bool → Sweep → Option (Marks × Sweep)
reclaim_generic disclaim debugging hbp hhdr sz init s =
    elim (reclaim_by disclaim hhdr.has_disclaim (init || debugging) hbp sz hhdr.marks s) [
      | none ↦ none
      | some (m, s') ↦ some (if is_uncollectable hhdr.obj_kind then set_hdr_marks sz m else m, s')
    ]

-- Which objects a sweep keeps.
abbrev pub kept : (ℕ → Bool) → Bool → Marks → ℕ → ℕ → Bool
kept disclaim true m = stays m.bits disclaim
kept disclaim false m = by_marks m.bits

set_hdr_marks-below :
    (sz : ℕ) (m : Marks) (b : ℕ) → b ≤ final_mark_bit sz → (set_hdr_marks sz m).bits b ≡ true
unfolding set_hdr_marks
set_hdr_marks-below sz m b h = ground arith

le-final_mark_bit :
    (sz g j : ℕ)
    → sz ≡ 16 * g
    → 0 < g
    → sz ≤ hblksize / 2
    → j ≤ hblksize / sz
    → j * (sz / 16) ≤ final_mark_bit sz
unfolding final_mark_bit
le-final_mark_bit sz g j whole pos small le =
    let e : sz / 16 ≡ g = omega arith in
    let far : j * g ≤ hblksize / sz * g = grind arith in
    let f : sz * (hblksize / sz) / 16 ≡ hblksize / sz * g =
      ap (λ t. t * (hblksize / sz) / 16) whole ∙ times g (hblksize / sz) in
    ground arith
  where
    times : (g n : ℕ) → 16 * g * n / 16 ≡ n * g
    times g n = omega arith

-- GC_set_hdr_marks, for objects of `g` granules, at most half a block, marks every object of the
-- block, and the end of the last one.
pub set_hdr_marks-marked :
    (sz g : ℕ) (m : Marks) (j : ℕ)
    → sz ≡ 16 * g
    → 0 < g
    → sz ≤ hblksize / 2
    → j ≤ hblksize / sz
    → (set_hdr_marks sz m).bits (j * (sz / 16)) ≡ true
set_hdr_marks-marked sz g m j whole pos small le =
    set_hdr_marks-below sz m (j * (sz / 16)) (le-final_mark_bit sz g j whole pos small le)

module _ (disclaim : ℕ → Bool) (debugging : Bool) (hbp sz g : ℕ) (whole : sz ≡ 16 * g) (pos : 0 < g)
    (fits : sz ≤ hblksize / 2) (hhdr : Header) (init : Bool) (s : Sweep)
    (small : s.count < 2 ^ 64) where
  finish : Marks → Marks
  finish m = if is_uncollectable hhdr.obj_kind then set_hdr_marks sz m else m

  finish-marked :
      (m : Marks)
      → is_uncollectable hhdr.obj_kind ≡ true
      → (j : ℕ) → j < hblksize / sz
      → (finish m).bits (j * (sz / 16)) ≡ true
  unfolding finish
  finish-marked m u j lt = rw u (set_hdr_marks-marked sz g m j whole pos fits (omega arith))

  reclaim_by-Swept :
      (has_disclaim clear : Bool) (m : Marks)
      → (m' : Marks) × (s' : Sweep) × (reclaim_by disclaim has_disclaim clear hbp sz m s
          ≡ some (m', s'))
        × Swept (kept disclaim has_disclaim m) sz 0 hbp (hblksize / sz) [] s.list s s'
  unfolding reclaim_by Option.map
  reclaim_by-Swept true clear m =
      let (m', s', run, t, _, _) =
        disclaim_and_reclaim-Swept disclaim hbp sz g whole pos (omega arith) m s small in
      (m', s', run, t)
  reclaim_by-Swept false true m =
      let (s', run, t, _) =
        reclaim_clear-Swept m.bits hbp sz (2 * g) (omega arith) (omega arith) (omega arith) s
          small in
      (m, s', rw run, t)
  reclaim_by-Swept false false m =
      let (s', run, t) =
        reclaim_uninit-Swept m.bits hbp sz (2 * g) (omega arith) (omega arith) (omega arith) s
          small in
      (m, s', rw run, t)

  -- For objects of `g` granules, at most half a block, and a byte counter below 2 ^ 64,
  -- GC_reclaim_generic ends, whichever of the three sweeps it takes: the objects that the block
  -- keeps are untouched, the others are chained in front of the old list and counted, and in a
  -- block of an uncollectable kind every object is marked at the end.
  pub reclaim_generic-Swept :
      (m : Marks) × (s' : Sweep) × (reclaim_generic disclaim debugging hbp hhdr sz init s
        ≡ some (m, s'))
      × Swept (kept disclaim hhdr.has_disclaim hhdr.marks) sz 0 hbp (hblksize / sz) [] s.list s s'
      × (is_uncollectable hhdr.obj_kind ≡ true
          → (j : ℕ) → j < hblksize / sz
          → m.bits (j * (sz / 16)) ≡ true)
  unfolding finish reclaim_generic
  reclaim_generic-Swept =
      let (m, s', run, t) = reclaim_by-Swept hhdr.has_disclaim (init || debugging) hhdr.marks in
      (finish m, s', rw (run, reclaim_generic), t, finish-marked m)
