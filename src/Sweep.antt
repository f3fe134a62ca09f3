-- ===== src/Sweep.antt =====
-- The sweep of one small-object block: GC_clear_block, GC_reclaim_clear, GC_reclaim_uninit,
-- GC_disclaim_and_reclaim and GC_reclaim_generic of reclaim.c.
-- Addresses and sizes are in bytes, a word is 8 bytes, a mark bit stands for a granule of 16
-- bytes. Each loop runs on fuel, and `none` is a loop that the fuel did not see to its end.
pub mod Spec
pub mod Clear
pub mod Step
pub mod Reclaim
pub mod Disclaim
pub mod Generic
mod Tests
use boehmgc.Base.{
  ℕ, zero, suc, ◌+◌, ◌-◌, ◌/◌, ◌%◌, ◌^◌, Bool, true, false, Option, none, some, List, ◌∷◌, ltb, leb,
  ◌==◌, if◌then◌else◌,
}
use boehmgc.Memory.{Mem, store}

abbrev pub hblksize : ℕ
hblksize = 4096

-- The free list under construction, the byte counter that the caller passes (a word, by its bit
-- pattern) and memory.
pub record Sweep : Type 0 where
  pub list : ℕ
  pub count : ℕ
  pub mem : Mem

-- `while ((word)p < (word)q) { *p++ = 0; }`
pub clear_words : ℕ → ℕ → ℕ → Mem → Option (ℕ × Mem)
clear_words zero p q m = none
clear_words (suc k) p q m =
    let rest = clear_words k (p + 8) q (store m p 0) in if ltb p q then rest else some (p, m)

-- The object's link word is skipped, the others are cleared; gives the address behind it.
pub clear_block : ℕ → ℕ → Sweep → Option (ℕ × Sweep)
unfolding clear_words
clear_block p sz s = elim (clear_words sz (p + 8) (p + sz) s.mem) [
  | none ↦ none
  | some (p', m) ↦ some (p', record s { mem = m; count = (s.count + sz) % 2 ^ 64 })
]

-- `obj_link(p) = list; list = p;`
pub push : ℕ → Sweep → Sweep
unfolding store
push p s = record s { mem = store s.mem p s.list; list = p }

-- `p` and `bit_no` advance together, and `plim` is where the last object may start.
pub reclaim_clear_loop : (ℕ → Bool) → ℕ → ℕ → ℕ → ℕ → ℕ → Sweep → Option Sweep
reclaim_clear_loop marks sz plim zero bit_no p s = none
reclaim_clear_loop marks sz plim (suc k) bit_no p s =
    let marked = reclaim_clear_loop marks sz plim k (bit_no + sz / 16) (p + sz) s in
    let unmarked : Option Sweep = elim (clear_block p sz (push p s)) [
      | none ↦ none
      | some (p', s') ↦ reclaim_clear_loop marks sz plim k (bit_no + sz / 16) p' s'
    ] in
    if leb p plim then (if marks bit_no then marked else unmarked) else some s

pub reclaim_clear : (ℕ → Bool) → ℕ → ℕ → Sweep → Option Sweep
unfolding reclaim_clear_loop clear_block push
reclaim_clear marks hbp sz s =
    reclaim_clear_loop marks sz (hbp + hblksize - sz) (hblksize + 1) 0 hbp s

-- The bytes found are counted apart, and added to the counter behind the loop.
pub reclaim_uninit_loop : (ℕ → Bool) → ℕ → ℕ → ℕ → ℕ → ℕ → ℕ → Sweep → Option (ℕ × Sweep)
reclaim_uninit_loop marks sz plim zero bit_no p n_bytes_found s = none
reclaim_uninit_loop marks sz plim (suc k) bit_no p n_bytes_found s =
    let n = if marks bit_no then n_bytes_found else (n_bytes_found + sz) % 2 ^ 64 in
    let s' = if marks bit_no then s else push p s in
    let rest = reclaim_uninit_loop marks sz plim k (bit_no + sz / 16) (p + sz) n s' in
    if leb p plim then rest else some (n_bytes_found, s)

pub reclaim_uninit : (ℕ → Bool) → ℕ → ℕ → Sweep → Option Sweep
unfolding reclaim_uninit_loop push
reclaim_uninit marks hbp sz s =
    elim (reclaim_uninit_loop marks sz (hbp + hblksize - sz) (hblksize + 1) 0 hbp 0 s) [
      | none ↦ none
      | some (n, s') ↦ some (record s' { count = (s'.count + n) % 2 ^ 64 })
    ]

-- The mark bits and `hb_n_marks` of a header, where the sweep sets bits too.
pub record Marks : Type 0 where
  pub bits : ℕ → Bool
  pub n_marks : ℕ

-- `set_mark_bit_from_hdr(hhdr, bit_no); hhdr -> hb_n_marks++;`
unfoldable pub keep_object : ℕ → Marks → Marks
keep_object bit_no m = record m {
  bits = λ b. if b == bit_no then true else m.bits b;
  n_marks = m.n_marks + 1;
}

-- `disclaim` is the client's notifier, which says whether an unmarked object must stay.
pub disclaim_loop : (ℕ → Bool) → ℕ → ℕ → ℕ → ℕ → ℕ → Marks → Sweep → Option (Marks × Sweep)
disclaim_loop disclaim sz plim zero bit_no p m s = none
disclaim_loop disclaim sz plim (suc k) bit_no p m s =
    let kept =
      disclaim_loop disclaim sz plim k (bit_no + sz / 16) (p + sz)
        (if m.bits bit_no then m else keep_object bit_no m) s in
    let freed : Option (Marks × Sweep) = elim (clear_block p sz (push p s)) [
      | none ↦ none
      | some (p', s') ↦ disclaim_loop disclaim sz plim k (bit_no + sz / 16) p' m s'
    ] in
    if leb p plim
    then (if m.bits bit_no then kept else (if disclaim p then kept else freed))
    else some (m, s)

pub disclaim_and_reclaim : (ℕ → Bool) → ℕ → ℕ → Marks → Sweep → Option (Marks × Sweep)
unfolding disclaim_loop clear_block push keep_object
disclaim_and_reclaim disclaim hbp sz m s =
    disclaim_loop disclaim sz (hbp + hblksize - sz) (hblksize + 1) 0 hbp m s
