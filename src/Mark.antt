-- ===== src/Mark.antt =====
-- mark.c: the mark stack and GC_mark_from, with GC_push_contents_hdr of include/private/gc_pmark.h.
-- One mark bit for each granule; no parallel marking, no pointer fix-up, a word is read as a whole.

pub mod Target
pub mod Push
pub mod Consider
pub mod Scan
pub mod Round
pub mod Trace
mod Tests
use boehmgc.Base.{
  ℕ, zero, suc, ◌+◌, ◌-◌, ◌*◌, ◌/◌, ◌%◌, ◌^◌, Bool, true, false, ◌&&◌, ◌||◌, not, Option, none,
  some, List, [], ◌∷◌, ltb, leb, ◌==◌, if◌then◌else◌, length, drop,
}
use boehmgc.Memory.{Mem}
use boehmgc.ObjMap.{Offsets}
use boehmgc.BlackList.{BlackLists, add_to_black_list_normal, add_to_black_list_stack}
use boehmgc.Headers.{
  hblksize, Hdr, Entry, null, forwarding, header, Index, get_hdr, Lookup, found, black_listed,
  ignored, header_cache_miss,
}

-- struct GC_ms_entry
pub record Mse : Type 0 where
  pub mse_start : ℕ
  pub mse_descr : ℕ

-- What marking reads and does not change. `procs` is GC_mark_procs with the clients' procedures, as
-- functions of the start and the environment that push what they find.
pub record Heap : Type 0 where
  pub memory : Mem
  pub index : Index
  pub offsets : Offsets
  pub all_interior_pointers : Bool
  pub least_ha : ℕ
  pub greatest_ha : ℕ
  pub mark_stack_size : ℕ

-- What marking changes: the mark stack with its top first, hb_marks and hb_n_marks of the header of
-- each block, the black lists, and GC_mark_state as far as it is MS_INVALID.
pub record Marker : Type 0 where
  pub stack : List Mse
  pub marks : ℕ → ℕ → Bool
  pub n_marks : ℕ → ℕ
  pub black : BlackLists
  pub invalid : Bool
  pub too_small : Bool

-- GC_MARK_STACK_DISCARDS
abbrev pub discards : ℕ
discards = 512

infixl 5 ◌>>=◌
abbrev pub ◌>>=◌ : {A B : Type 0} → Option A → (A → Option B) → Option B
o >>= f = elim o [ none ↦ none | some a ↦ f a ]

abbrev pub is_null : Entry → Bool
is_null null = true
is_null _ = false

-- GC_ADD_TO_BLACK_LIST_NORMAL
unfoldable pub add_to_black_list : Heap → ℕ → Marker → Marker
add_to_black_list h p s =
    let no_header = is_null (get_hdr h.index p) in
    let black' =
      if h.all_interior_pointers
      then add_to_black_list_stack no_header p s.black
      else add_to_black_list_normal h.offsets.modws_valid_offsets no_header p s.black in
    record s { black = black' }

-- GC_push_obj, with GC_signal_mark_stack_overflow.
unfoldable pub push_obj : Heap → ℕ → Hdr → Marker → Marker
push_obj h obj hhdr s =
    let e : Mse = record { mse_start = obj; mse_descr = hhdr.hb_descr } in
    if hhdr.hb_descr == 0
    then s
    else if leb h.mark_stack_size (length s.stack)
    then record s { stack = e ∷ drop discards s.stack; invalid = true; too_small = true }
    else record s { stack = e ∷ s.stack }

-- The validity tests of GC_push_contents_hdr: the granule of the object and its base, or `none` for a
-- displacement that is not valid.
unfoldable pub object_of : Heap → ℕ → Hdr → Option (ℕ × ℕ)
object_of h current hhdr =
    let displ = current % hblksize in
    let gran_displ = displ / 16 in
    let gran_offset = hhdr.hb_map gran_displ in
    let byte_offset = displ % 16 in
    let obj_displ = current - hhdr.hb_block in
    let small_displ = gran_offset * 16 + byte_offset in
    if gran_offset == 0 && byte_offset == 0
    then some (gran_displ, current)
    else if hhdr.large_block
    then (if obj_displ == displ && not (h.offsets.valid_offsets obj_displ)
        then none
        else some (0, hhdr.hb_block))
    else if not (h.offsets.valid_offsets small_displ)
    then none
    else some (gran_displ - gran_offset, current - small_displ)

-- SET_MARK_BIT_EXIT_IF_SET and INCR_MARKS, for a bit that is not set.
unfoldable pub set_mark : ℕ → ℕ → Marker → Marker
set_mark block gran s = record s {
  marks = λ b g. if b == block && g == gran then true else s.marks b g;
  n_marks = λ b. if b == block then s.n_marks b + 1 else s.n_marks b;
}

-- GC_push_contents_hdr, with do_offset_check.
unfoldable pub push_contents_hdr : Heap → ℕ → Hdr → Marker → Marker
push_contents_hdr h current hhdr s = elim (object_of h current hhdr) [
  | none ↦ add_to_black_list h current s
  | some (gran, base) ↦
      if s.marks hhdr.hb_block gran then s else push_obj h base hhdr (set_mark hhdr.hb_block gran s)
]

-- PUSH_CONTENTS
unfoldable pub push_contents : Heap → ℕ → Marker → Option Marker
push_contents h current s = elim (header_cache_miss h.index h.all_interior_pointers current) [
  | none ↦ none
  | some (found hhdr) ↦ some (push_contents_hdr h current hhdr s)
  | some black_listed ↦ some (add_to_black_list h current s)
  | some ignored ↦ some s
]

-- The preliminary test of a candidate pointer.
unfoldable pub plausible : Heap → ℕ → Bool
plausible h current = leb h.least_ha current && ltb current h.greatest_ha

unfoldable pub consider : Heap → ℕ → Marker → Option Marker
consider h current s = if plausible h current then push_contents h current s else some s

-- The loop that looks for the candidate to defer, from `limit` down: the candidate and the new limit.
unfoldable pub find_deferred : Heap → ℕ → ℕ → ℕ → Option (ℕ × ℕ)
find_deferred h zero current_p limit = none
find_deferred h (suc k) current_p limit =
    let deferred = h.memory limit in
    let rest = find_deferred h k current_p (limit - 8) in
    if plausible h deferred
    then some (deferred, limit - 8)
    else if ltb (limit - 8) current_p
    then none
    else rest

-- The loop from `current_p` up to `limit`.
unfoldable pub scan_up : Heap → ℕ → ℕ → ℕ → Marker → Option Marker
scan_up h zero current_p limit s = none
scan_up h (suc k) current_p limit s =
    let more = consider h (h.memory current_p) s >>= λ s'. scan_up h k (current_p + 8) limit s' in
    if leb current_p limit then more else some s

-- The scan of a range after the search for the candidate to defer.
unfoldable pub scan_found : Heap → ℕ → ℕ → Option (ℕ × ℕ) → Marker → Option Marker
scan_found h fuel current_p none s = some s
scan_found h fuel current_p (some (deferred, limit)) s =
    scan_up h fuel current_p limit s >>= λ s'. push_contents h deferred s'

-- The scan of a range; `limit` is the end of the last word.
unfoldable pub scan_range : Heap → ℕ → ℕ → Marker → Option Marker
scan_range h current_p limit s =
    let fuel = suc ((limit - current_p) / 8) in
    scan_found h fuel current_p (find_deferred h fuel current_p (limit - 8)) s

-- The loop over a bitmap, of at most 64 rounds.
unfoldable pub scan_bitmap : Heap → ℕ → ℕ → ℕ → Marker → Option Marker
scan_bitmap h zero descr current_p s = some s
scan_bitmap h (suc k) descr current_p s =
    let word = if leb (2 ^ 63) descr then consider h (h.memory current_p) s else some s in
    let rest = word >>= λ s'. scan_bitmap h k (descr * 2 % 2 ^ 64) (current_p + 8) s' in
    if descr == 0 then some s else rest

-- The descriptor that a GC_DS_PER_OBJECT descriptor leads to, 0 for an object of a free list.
unfoldable pub object_descr : Heap → ℕ → ℕ → ℕ
object_descr h current_p descr =
    let type_descr = h.memory current_p in
    if ltb descr (2 ^ 63)
    then h.memory (current_p + descr - 3)
    else if type_descr == 0
    then 0
    else h.memory ((type_descr + 2 * 2 ^ 64 - (descr + (16 - 3))) % 2 ^ 64)

module _ (procs : ℕ → ℕ → Marker → Option Marker) (h : Heap) where
  -- A round of the loop of GC_mark_from for `current_p` and `descr`, off the stack already: the new
  -- state and the credit that it takes. `procs` is the effect of the clients' mark procedures, by
  -- descriptor and start.
  unfoldable pub mark_entry : ℕ → ℕ → ℕ → Marker → Option (Marker × ℕ)
  mark_entry zero current_p descr s = none
  mark_entry (suc retries) current_p descr s =
      let split : Mse = record { mse_start = current_p + 1016; mse_descr = descr - 1016 } in
      let large =
        scan_range h current_p (current_p + 1016) (record s { stack = split ∷ s.stack }) in
      let small = scan_range h current_p (current_p + descr) s in
      let bitmap = scan_bitmap h 64 (descr - 1) current_p s in
      let charge = λ (cost : ℕ) (s' : Marker). let r : Option (Marker × ℕ) = some (s', cost) in r in
      let descr' = object_descr h current_p descr in
      let retry = mark_entry retries current_p descr' s in
      if descr % 4 == 0
      then (if leb 1024 descr
          then large >>= charge 1016
          else if ltb descr 8
          then some (s, 0)
          else small >>= charge descr)
      else if descr % 4 == 1
      then bitmap >>= charge 256
      else if descr % 4 == 2
      then procs descr current_p s >>= charge 100
      else if descr' == 0
      then some (s, 0)
      else retry

  -- GC_mark_from: `spent` is HBLKSIZE less the credit, `fuel` a bound of the rounds.
  unfoldable pub mark_from : ℕ → ℕ → ℕ → Marker → Option Marker
  mark_from retries zero spent s = none
  mark_from retries (suc fuel) spent s = elim (s.stack) [
    | [] ↦ some s
    | e ∷ rest ↦
        let round =
          mark_entry retries e.mse_start e.mse_descr (record s { stack = rest }) >>= λ (s', cost).
          mark_from retries fuel (spent + cost) s' in
        if leb spent hblksize then round else some s
  ]

  -- Rounds of GC_mark_from until the mark stack is empty.
  unfoldable pub mark_until_empty : ℕ → ℕ → ℕ → Marker → Option Marker
  mark_until_empty retries rounds zero s = none
  mark_until_empty retries rounds (suc fuel) s = elim (s.stack) [
    | [] ↦ some s
    | e ∷ rest ↦ mark_from retries rounds 0 s >>= λ s'. mark_until_empty retries rounds fuel s'
  ]
