-- ===== src/Policy/Bounds.antt =====
-- How late and how early GC_should_collect asks for a collection.
use boehmgc.Base.{
  ℕ, ◌+◌, ◌/◌, ◌%◌, ◌^◌, ◌≤◌, ◌<◌, ◌≡◌, refl, Bool, true, false, arith, ◌==◌, ==_iff, if◌then◌else◌,
  Bool-cases, leb, ltb→lt, ltb_false→le, leb→le, leb_false→lt, inl, inr, ◌⊎◌,
}
use boehmgc.Policy.{
  Policy, less_signed, min_bytes_allocd, net_bytes, bound_bytes, adj_bytes_allocd, renew, decide,
  should_collect,
}

-- Whatever the other counters say, the adjusted bytes are between an eighth of the bytes allocated
-- and the bytes allocated with the bytes finalized.
bound_bytes_lem :
    (allocd finalized net : ℕ)
    → allocd < 2 ^ 62
    → finalized < 2 ^ 62
    → net < 2 ^ 64
    → (allocd / 8 ≤ bound_bytes allocd finalized net)
      × (bound_bytes allocd finalized net ≤ allocd + finalized)
unfolding bound_bytes
bound_bytes_lem allocd finalized net a f n = elim (Bool-cases (less_signed allocd net)) [
  | inl e ↦
      let c = ltb→lt ((allocd + 2 ^ 63) % 2 ^ 64) ((net + 2 ^ 63) % 2 ^ 64) e in
      rw e (last allocd (omega arith))
  | inr e ↦
      let c = ltb_false→le ((allocd + 2 ^ 63) % 2 ^ 64) ((net + 2 ^ 63) % 2 ^ 64) e in
      rw e (last net (omega arith))
]
  where
    last :
        (capped : ℕ)
        → ((capped ≤ allocd) ⊎ ((2 ^ 63 ≤ capped) × (capped < 2 ^ 64)))
        → (allocd / 8 ≤ (
            if less_signed ((capped + finalized) % 2 ^ 64) (allocd / 8)
            then allocd / 8
            else (capped + finalized) % 2 ^ 64))
          × ((if less_signed ((capped + finalized) % 2 ^ 64) (allocd / 8)
                then allocd / 8
                else (capped + finalized) % 2 ^ 64)
              ≤ allocd + finalized)
    last capped h = elim (Bool-cases (less_signed ((capped + finalized) % 2 ^ 64) (allocd / 8))) [
      | inl e ↦ rw e (omega arith, omega arith)
      | inr e ↦
          let c =
            ltb_false→le (((capped + finalized) % 2 ^ 64 + 2 ^ 63) % 2 ^ 64)
              ((allocd / 8 + 2 ^ 63) % 2 ^ 64) e in
          rw e (omega arith, omega arith)
    ]

net_bytes-lt : (s : Policy) → net_bytes s < 2 ^ 64
unfolding net_bytes
net_bytes-lt s = omega arith

-- The bytes to allocate before a collection, which stay the same until the next one.
unfoldable pub threshold : ℕ → Policy → ℕ
threshold approx_sp s =
    if s.last_gc_no == s.gc_no then s.last_min_bytes_allocd else min_bytes_allocd approx_sp s

abbrev pub Decision : Policy → ℕ → Bool × Policy → Type 0
Decision s least (answer, s') =
    ((answer ≡ true) ⊎ (s.bytes_allocd / 8 < least))
    × ((answer ≡ false)
        ⊎ (least ≤ s.bytes_allocd + s.bytes_finalized)
        ⊎ (s.last_heap_growth_gc_no ≡ s.gc_no))
    × (s'.last_min_bytes_allocd ≡ least)
    × (s'.last_gc_no ≡ s.gc_no)

decide-Decision :
    (s : Policy)
    → s.bytes_allocd < 2 ^ 62
    → s.bytes_finalized < 2 ^ 62
    → s.should_start_incremental_collection ≡ false
    → s.disable_automatic_collection ≡ false
    → s.last_gc_no ≡ s.gc_no
    → Decision s s.last_min_bytes_allocd (decide s)
unfolding decide adj_bytes_allocd net_bytes
decide-Decision s a f start enabled now =
    let (low, high) =
      bound_bytes_lem s.bytes_allocd s.bytes_finalized (net_bytes s) a f (net_bytes-lt s) in
    elim (Bool-cases (s.last_heap_growth_gc_no == s.gc_no)) [
      | inl e ↦
          rw (start, enabled, e)
            (inl refl, inr (inr ((==_iff s.last_heap_growth_gc_no s.gc_no).0 e)), refl, now)
      | inr e ↦
          let adjusted : ℕ = bound_bytes s.bytes_allocd s.bytes_finalized (net_bytes s) in
          elim (Bool-cases (leb s.last_min_bytes_allocd adjusted)) [
            | inl d ↦
                let l = leb→le s.last_min_bytes_allocd adjusted d in
                rw (start, enabled, e, d) (inl refl, inr (inl (omega arith)), refl, now)
            | inr d ↦
                let l = leb_false→lt s.last_min_bytes_allocd adjusted d in
                rw (start, enabled, e, d) (inr (omega arith), inl refl, refl, now)
          ]
    ]

-- Let automatic collection be enabled and no incremental collection be due. Then GC_should_collect
-- asks for a collection, or an eighth of the bytes allocated is below the minimum of this cycle; and
-- it does not ask, or the bytes allocated with the bytes finalized reach the minimum, or the heap has
-- grown in this cycle. So it is whatever the counters of freed, dropped and explicitly managed bytes
-- say. The minimum is computed at the first call of a cycle and kept for the others.
pub should_collect-Decision :
    (approx_sp : ℕ) (s : Policy)
    → s.bytes_allocd < 2 ^ 62
    → s.bytes_finalized < 2 ^ 62
    → s.should_start_incremental_collection ≡ false
    → s.disable_automatic_collection ≡ false
    → Decision s (threshold approx_sp s) (should_collect approx_sp s)
unfolding should_collect renew threshold
should_collect-Decision approx_sp s a f start enabled =
    elim (Bool-cases (s.last_gc_no == s.gc_no)) [
      | inl e ↦ rw e (decide-Decision s a f start enabled ((==_iff s.last_gc_no s.gc_no).0 e))
      | inr e ↦ rw e (
          decide-Decision
            (record s {
              last_min_bytes_allocd = min_bytes_allocd approx_sp s;
              last_gc_no = s.gc_no;
            })
            a f start enabled refl)
    ]
