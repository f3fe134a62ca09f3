-- ===== src/Policy.antt =====
-- When to collect: min_bytes_allocd, GC_adj_bytes_allocd and GC_should_collect of alloc.c. Words
-- wrap at 2 ^ 64, and a signed word is the word with the same bits. The stack pointer is an argument.
-- The stack grows down, and the static variables are the record Policy.
pub mod Bounds
mod Tests
use boehmgc.Base.{ℕ, ◌+◌, ◌-◌, ◌*◌, ◌/◌, ◌%◌, ◌^◌, Bool, true, false, if◌then◌else◌, ◌==◌, ltb, leb}

pub record Policy : Type 0 where
  pub need_to_lock : Bool
  pub total_stacksize : ℕ
  pub stackbottom : ℕ
  pub root_size : ℕ
  pub composite_in_use : ℕ
  pub atomic_in_use : ℕ
  pub free_space_divisor : ℕ
  pub incremental : Bool
  pub min_bytes_allocd_minimum : ℕ
  pub non_gc_bytes : ℕ
  pub non_gc_bytes_at_gc : ℕ
  pub bytes_allocd : ℕ
  pub bytes_dropped : ℕ
  pub bytes_freed : ℕ
  pub finalizer_bytes_freed : ℕ
  pub bytes_finalized : ℕ
  pub gc_no : ℕ
  pub last_heap_growth_gc_no : ℕ
  pub should_start_incremental_collection : Bool
  pub disable_automatic_collection : Bool
  pub last_min_bytes_allocd : ℕ
  pub last_gc_no : ℕ

-- Subtraction of words.
abbrev pub minus : ℕ → ℕ → ℕ
minus a b = (a + (2 ^ 64 - b % 2 ^ 64)) % 2 ^ 64

-- The order of signed words.
abbrev pub less_signed : ℕ → ℕ → Bool
less_signed a b = ltb ((a + 2 ^ 63) % 2 ^ 64) ((b + 2 ^ 63) % 2 ^ 64)

unfoldable pub min_bytes_allocd : ℕ → Policy → ℕ
min_bytes_allocd approx_sp s =
    let stack_size = if s.need_to_lock then s.total_stacksize else minus s.stackbottom approx_sp in
    let total_root_size = (2 * stack_size + s.root_size) % 2 ^ 64 in
    let scan_size = (2 * s.composite_in_use + s.atomic_in_use / 4 + total_root_size) % 2 ^ 64 in
    let divided = scan_size / s.free_space_divisor in
    let result = if s.incremental then divided / 2 else divided in
    if ltb s.min_bytes_allocd_minimum result then result else s.min_bytes_allocd_minimum

-- The bytes allocated, less those freed or allocated for explicit management.
unfoldable pub net_bytes : Policy → ℕ
net_bytes s =
    let expl_managed = minus s.non_gc_bytes s.non_gc_bytes_at_gc in
    minus
      ((minus ((s.bytes_allocd + s.bytes_dropped) % 2 ^ 64) s.bytes_freed + s.finalizer_bytes_freed)
        % 2 ^ 64)
      expl_managed

-- The two bounds on the bytes, with the finalized bytes added in between.
unfoldable pub bound_bytes : ℕ → ℕ → ℕ → ℕ
bound_bytes allocd finalized net =
    let capped = if less_signed allocd net then allocd else net in
    let counted = (capped + finalized) % 2 ^ 64 in
    if less_signed counted (allocd / 8) then allocd / 8 else counted

unfoldable pub adj_bytes_allocd : Policy → ℕ
adj_bytes_allocd s = bound_bytes s.bytes_allocd s.bytes_finalized (net_bytes s)

-- The minimum is computed once for each collection.
unfoldable pub renew : ℕ → Policy → Policy
renew approx_sp s =
    if s.last_gc_no == s.gc_no
    then s
    else record s { last_min_bytes_allocd = min_bytes_allocd approx_sp s; last_gc_no = s.gc_no }

unfoldable pub decide : Policy → Bool × Policy
decide s =
    if s.should_start_incremental_collection
    then (true, record s { should_start_incremental_collection = false })
    else if s.disable_automatic_collection
    then (false, s)
    else if s.last_heap_growth_gc_no == s.gc_no
    then (true, s)
    else (leb s.last_min_bytes_allocd (adj_bytes_allocd s), s)

unfoldable pub should_collect : ℕ → Policy → Bool × Policy
should_collect approx_sp s = decide (renew approx_sp s)
