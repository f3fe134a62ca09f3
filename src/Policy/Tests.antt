-- ===== src/Policy/Tests.antt =====
-- The decision to collect, of a heap with a million bytes in use.
use boehmgc.Base.{false, refl, arith, ◌≡◌}
use boehmgc.Policy.{Policy, should_collect, min_bytes_allocd}
use boehmgc.Policy.Bounds.{Decision, threshold, should_collect-Decision}

abbrev policy : Policy
policy = record {
  need_to_lock = false;
  total_stacksize = 0;
  stackbottom = 20000;
  root_size = 4000;
  composite_in_use = 800000;
  atomic_in_use = 200000;
  free_space_divisor = 3;
  incremental = false;
  min_bytes_allocd_minimum = 1;
  non_gc_bytes = 0;
  non_gc_bytes_at_gc = 0;
  bytes_allocd = 600000;
  bytes_dropped = 0;
  bytes_freed = 0;
  finalizer_bytes_freed = 0;
  bytes_finalized = 0;
  gc_no = 7;
  last_heap_growth_gc_no = 3;
  should_start_incremental_collection = false;
  disable_automatic_collection = false;
  last_min_bytes_allocd = 5;
  last_gc_no = 6;
}

computed : threshold 12000 policy ≡ 556666
unfolding threshold min_bytes_allocd
computed = refl

should_collect-Decision_example :
    Decision policy (threshold 12000 policy) (should_collect 12000 policy)
should_collect-Decision_example =
    should_collect-Decision 12000 policy (omega arith) (omega arith) refl refl
