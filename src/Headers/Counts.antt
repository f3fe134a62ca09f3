-- ===== src/Headers/Counts.antt =====
-- With its forwarding counts, a large object is found from each of its addresses.
use boehmgc.Base.{
  ℕ, zero, suc, ◌+◌, ◌-◌, ◌*◌, ◌/◌, ◌≤◌, ◌<◌, ◌≡◌, ◌≢◌, refl, Bool, true, false, not, ◌||◌, lt→ltb,
  le→ltb_false, Option, some, arith, ltb, leb, ◌==◌, if◌then◌else◌, Bool-cases, inl, inr, ◌⊎◌, ap,
  sym, subst, ==_iff, ◌∙◌, dec_lt, lt→leb_false, leb→le, leb_false→lt, ltb→lt,
}
use boehmgc.Headers.{
  hblksize, max_jump, Hdr, Entry, null, forwarding, header, Index, go_back, Lookup, found, ignored,
  header_cache_miss, set_hdr, obj_sz_to_blocks, install_loop, install_counts, remove_loop,
  remove_counts, header_cache_miss-header,
}

abbrev pub jump : ℕ → ℕ
jump i = if ltb max_jump i then max_jump else i

set_hdr-same : (index : Index) (b : ℕ) (e : Entry) (i : ℕ) → i ≡ b → set_hdr index b e i ≡ e
unfolding set_hdr
set_hdr-same index b e i q = rw ((==_iff i b).1 q) refl

set_hdr-other : (index : Index) (b : ℕ) (e : Entry) (i : ℕ) → i ≢ b → set_hdr index b e i ≡ index i
unfolding set_hdr
set_hdr-other index b e i q = rw (apart i b q) refl
  where
    apart : (a b : ℕ) → a ≢ b → (a == b) ≡ false
    apart a b q = ground arith

install_loop-outside :
    (block n i : ℕ) (index : Index) (j : ℕ)
    → (j < block + i) ⊎ (block + i + n ≤ j)
    → install_loop block n i index j ≡ index j
unfolding install_loop
install_loop-outside block zero i index j out = refl
install_loop-outside block (suc n) i index j out =
    install_loop-outside block n (i + 1) (set_hdr index (block + i) (forwarding (jump i))) j
      (elim out [ inl l ↦ inl (omega arith) | inr r ↦ inr (omega arith) ])
    ∙ set_hdr-other index (block + i) (forwarding (jump i)) j
        (λ e. elim out [ inl l ↦ omega arith | inr r ↦ omega arith ])

install_loop-inside :
    (block n i : ℕ) (index : Index) (j : ℕ)
    → i ≤ j
    → j < i + n
    → install_loop block n i index (block + j) ≡ forwarding (jump j)
unfolding install_loop
install_loop-inside block zero i index j low high = absurd (omega arith)
install_loop-inside block (suc n) i index j low high = elim (dec_lt i j) [
  | yes l ↦
      install_loop-inside block n (i + 1) (set_hdr index (block + i) (forwarding (jump i))) j
        (omega arith) (omega arith)
  | no l ↦
      let same : i ≡ j = omega arith in
      install_loop-outside block n (i + 1) (set_hdr index (block + i) (forwarding (jump i)))
        (block + j) (inl (omega arith))
      ∙ set_hdr-same index (block + i) (forwarding (jump i)) (block + j) (omega arith)
      ∙ ap (λ v. forwarding (jump v)) same
]

go_back-header :
    (index : Index) (k current count b : ℕ) (hhdr : Hdr)
    → current - hblksize * count ≡ b * hblksize
    → index b ≡ header hhdr
    → go_back index (suc k) current count ≡ some (b * hblksize, hhdr)
unfolding go_back
go_back-header index k current count b hhdr e h =
    let block : (current - hblksize * count) / hblksize ≡ b = omega arith in
    let h' = ap index block ∙ h in
    let same : ◌≡◌ {A = Option (ℕ × Hdr)} (some (current - hblksize * count, hhdr))
        (some (b * hblksize, hhdr)) =
      ap (λ v. some (v, hhdr)) e in
    rw (h', go_back) same

go_back-forwarding :
    (index : Index) (k current count b n : ℕ)
    → current - hblksize * count ≡ b * hblksize
    → index b ≡ forwarding n
    → go_back index (suc k) current count ≡ go_back index k (b * hblksize) n
unfolding go_back
go_back-forwarding index k current count b n e h =
    let block : (current - hblksize * count) / hblksize ≡ b = omega arith in
    let h' = ap index block ∙ h in
    let same = ap (λ v. go_back index k v n) e in rw (h', go_back) same

jump-far : (i : ℕ) → ltb max_jump i ≡ true → jump i ≡ max_jump
jump-far i e = rw e refl

jump-near : (i : ℕ) → ltb max_jump i ≡ false → jump i ≡ i
jump-near i e = rw e refl

-- From the block `i` of an object with counts, the loop goes back to its first block.
go_back-first :
    (index : Index) (block : ℕ) (hhdr : Hdr) (n k i : ℕ)
    → index block ≡ header hhdr
    → ((j : ℕ) → 1 ≤ j → j < n → index (block + j) ≡ forwarding (jump j))
    → 1 ≤ i
    → i < n
    → i ≤ k
    → go_back index k ((block + i) * hblksize) (jump i) ≡ some (block * hblksize, hhdr)
go_back-first index block hhdr n zero i h c one l enough = absurd (omega arith)
go_back-first index block hhdr n (suc k) i h c one l enough = elim (Bool-cases (ltb max_jump i)) [
  | inl far ↦
      let far' = ltb→lt max_jump i far in
      let count = jump-far i far in
      go_back-forwarding index k ((block + i) * hblksize) (jump i) (block + (i - max_jump))
        (jump (i - max_jump)) (omega arith) (c (i - max_jump) (omega arith) (omega arith))
      ∙ go_back-first index block hhdr n k (i - max_jump) h c (omega arith) (omega arith)
          (omega arith)
  | inr near ↦
      let count = jump-near i near in
      go_back-header index k ((block + i) * hblksize) (jump i) block hhdr (omega arith) h
]

-- What a lookup gives behind the first block of an object in use.
abbrev pub behind_first : Bool → Hdr → Lookup
behind_first all_interior_pointers hhdr =
    if not all_interior_pointers || hhdr.ignore_off_page then ignored else found hhdr

interior :
    (index : Index) (aip : Bool) (p n current : ℕ) (hhdr : Hdr)
    → index (p / hblksize) ≡ forwarding n
    → go_back index (suc (p / hblksize)) (p / hblksize * hblksize) n ≡ some (current, hhdr)
    → hhdr.is_free ≡ false
    → leb hhdr.hb_sz (p - current) ≡ false
    → header_cache_miss index aip p ≡ some (behind_first aip hhdr)
unfolding header_cache_miss
interior index false p n current hhdr e back live inside = rw (e, header_cache_miss) refl
interior index true p n current hhdr e back live inside = elim (Bool-cases (hhdr.ignore_off_page)) [
  | inl off ↦ rw (e, header_cache_miss) (rw (back, off) refl)
  | inr on ↦ rw (e, header_cache_miss) (rw (back, on, live, inside) refl)
]

-- After GC_install_counts, a lookup at an address of an object in use finds its header, in the first
-- block of the object always, and behind it if interior pointers are recognised and the object does
-- not ignore them off its first page (IGNORE_OFF_PAGE). Behind the first block it gives nothing
-- otherwise, and black lists nothing.
pub install_counts-found :
    (block sz p : ℕ) (aip : Bool) (index : Index) (hhdr : Hdr)
    → index block ≡ header hhdr
    → hhdr.hb_sz ≡ sz
    → hhdr.is_free ≡ false
    → block * hblksize ≤ p
    → p < block * hblksize + sz
    → header_cache_miss (install_counts true block sz index).1 aip p
      ≡ some (if ltb p (block * hblksize + hblksize) then found hhdr else behind_first aip hhdr)
unfolding install_counts
install_counts-found block sz p aip index hhdr h size live low high =
    let n = obj_sz_to_blocks sz in
    let index' = install_loop block (n - 1) 1 index in
    let first : index' block ≡ header hhdr =
      install_loop-outside block (n - 1) 1 index block (inl (omega arith)) ∙ h in
    elim (dec_lt block (p / hblksize)) [
      | no l ↦
          let here : p / hblksize ≡ block = omega arith in
          let near = lt→ltb p (block * hblksize + hblksize) (omega arith) in
          rw near (header_cache_miss-header index' aip p hhdr (ap index' here ∙ first) live)
      | yes l ↦
          let i = p / hblksize - block in
          let here : block + i ≡ p / hblksize = omega arith in
          let inside : leb hhdr.hb_sz (p - block * hblksize) ≡ false =
            lt→leb_false hhdr.hb_sz (p - block * hblksize) (omega arith) in
          let counts : (j : ℕ) → 1 ≤ j → j < n → index' (block + j) ≡ forwarding (jump j) =
            λ j low high. install_loop-inside block (n - 1) 1 index j low (omega arith) in
          let entry = counts i (omega arith) (omega arith) in
          let back =
            go_back-first index' block hhdr n (suc (p / hblksize)) i first counts (omega arith)
              (omega arith) (omega arith) in
          let far = le→ltb_false p (block * hblksize + hblksize) (omega arith) in
          rw far (
            interior index' aip p (jump i) (block * hblksize) hhdr
              (subst (λ v. index' v ≡ forwarding (jump i)) here entry)
              (subst
                (λ v.
                  go_back index' (suc (p / hblksize)) (v * hblksize) (jump i)
                  ≡ some (block * hblksize, hhdr))
                here back)
              live inside)
    ]

remove_loop-outside :
    (block n i : ℕ) (index : Index) (j : ℕ)
    → (j < block + i) ⊎ (block + i + n ≤ j)
    → remove_loop block n i index j ≡ index j
unfolding remove_loop
remove_loop-outside block zero i index j out = refl
remove_loop-outside block (suc n) i index j out =
    remove_loop-outside block n (i + 1) (set_hdr index (block + i) null) j
      (elim out [ inl l ↦ inl (omega arith) | inr r ↦ inr (omega arith) ])
    ∙ set_hdr-other index (block + i) null j
        (λ e. elim out [ inl l ↦ omega arith | inr r ↦ omega arith ])

remove_loop-inside :
    (block n i : ℕ) (index : Index) (j : ℕ)
    → i ≤ j
    → j < i + n
    → remove_loop block n i index (block + j) ≡ null
unfolding remove_loop
remove_loop-inside block zero i index j low high = absurd (omega arith)
remove_loop-inside block (suc n) i index j low high = elim (dec_lt i j) [
  | yes l ↦
      remove_loop-inside block n (i + 1) (set_hdr index (block + i) null) j (omega arith)
        (omega arith)
  | no l ↦
      remove_loop-outside block n (i + 1) (set_hdr index (block + i) null) (block + j)
        (inl (omega arith))
      ∙ set_hdr-same index (block + i) null (block + j) (omega arith)
]

-- GC_remove_counts after GC_install_counts leaves the index as it was, if it had no entries behind
-- the first block of the object.
pub remove_counts-install_counts :
    (block sz : ℕ) (index : Index)
    → ((j : ℕ) → block < j → j < block + obj_sz_to_blocks sz → index j ≡ null)
    → (j : ℕ) → remove_counts block sz (install_counts true block sz index).1 j ≡ index j
unfolding install_counts remove_counts
remove_counts-install_counts block sz index free j =
    let n = obj_sz_to_blocks sz in
    let index' = install_loop block (n - 1) 1 index in
    elim (Bool-cases (leb sz hblksize)) [
      | inl small ↦
          let small' = leb→le sz hblksize small in
          rw small (
            install_loop-outside block (n - 1) 1 index j
              (elim (dec_lt j (block + 1)) [ yes l ↦ inl l | no l ↦ inr (omega arith) ]))
      | inr large ↦
          let large' = leb_false→lt sz hblksize large in
          let first = install_loop-inside block (n - 1) 1 index 1 (omega arith) (omega arith) in
          rw (large, first)
            (elim (dec_lt block j) [
              | no l ↦
                  remove_loop-outside block (n - 1) 1 index' j (inl (omega arith))
                  ∙ install_loop-outside block (n - 1) 1 index j (inl (omega arith))
              | yes l ↦ elim (dec_lt j (block + n)) [
                | no m ↦
                    remove_loop-outside block (n - 1) 1 index' j (inr (omega arith))
                    ∙ install_loop-outside block (n - 1) 1 index j (inr (omega arith))
                | yes m ↦
                    let here : block + (j - block) ≡ j = omega arith in
                    ap (remove_loop block (n - 1) 1 index') (sym here)
                    ∙ remove_loop-inside block (n - 1) 1 index' (j - block) (omega arith)
                        (omega arith)
                    ∙ sym (free j l m)
              ]
            ])
    ]
