-- ===== src/Specific/Race.antt =====
-- The slow path of GC_getspecific takes no lock: between its steps other threads write.
use boehmgc.Base.{
  ℕ, zero, suc, ◌+◌, ◌≤◌, ◌≡◌, ◌≢◌, refl, sym, ap, ◌∙◌, subst, Option, none, some, arith, ◌==◌,
  ==_iff, Bool-cases, inl, inr, ◌⊎◌, update,
}
use boehmgc.Specific.{Tse, Tsd, hash_of, publish, set_qtid, unlink}
use boehmgc.Specific.Chain.{Walk, Walk-same, Walk-fresh, Walk-Unlinked, Walk-unique}
use boehmgc.Specific.Keys.{head, Holds, Fresh}
use boehmgc.Specific.Frame.{set_qtid-links, set_qtid-values, shorter-same, shorter-Unlinked}
use boehmgc.Specific.Write.{Walk-end, publish-same}

-- One write of another thread, while the reader `self` is at the entry `cur`: a new entry, of which
-- the reader does not know, is put on a chain; an entry is taken off; an entry gets a quick thread
-- identifier or loses it; the cache is written.
pub data Write (self cur : ℕ) (s : Tsd) : Tsd → Type 0 where
  published : (t v p : ℕ) → t ≢ self → Fresh s p → cur ≢ p → Write self cur s (publish t v p s)
  first_off :
      (t x : ℕ)
      → x ≢ 0
      → (s.tses x).thread ≢ self
      → s.hash (hash_of t) ≡ x
      → Write self cur s (unlink (hash_of t) 0 x s)
  later_off :
      (t prev x : ℕ)
      → prev ≢ 0
      → x ≢ 0
      → (s.tses x).thread ≢ self
      → (s.tses prev).next ≡ x
      → Write self cur s (unlink (hash_of t) prev x s)
  tagged : (x q : ℕ) → (s.tses x).thread ≢ self → Write self cur s (set_qtid x q s)
  put : (i x : ℕ) → Write self cur s (record s { cache = update s.cache i x })

-- The loop of the reader, `n` rounds of it, with writes in between.
pub data Run (self : ℕ) : ℕ → Tsd → ℕ → Tsd → ℕ → Type 0 where
  stop : (s : Tsd) (cur : ℕ) → Run self 0 s cur s cur
  write :
      (n : ℕ) (s s' t : Tsd) (cur last : ℕ)
      → Write self cur s s'
      → Run self n s' cur t last
      → Run self n s cur t last
  round :
      (n : ℕ) (s t : Tsd) (cur last : ℕ)
      → cur ≢ 0
      → (s.tses cur).thread ≢ self
      → Run self n s (s.tses cur).next t last
      → Run self (suc n) s cur t last

-- A write leaves the reader its way to the same entry with the same value, and makes it no longer.
Kept : ℕ → ℕ → ℕ → ℕ → Tsd → Tsd → Type 0
Kept self k cur e s s' =
    (j : ℕ) × (j ≤ k) × Walk s'.tses self j cur e × ((s'.tses e).value ≡ (s.tses e).value)

unlink_later :
    (h prev x : ℕ) (s : Tsd)
    → prev ≢ 0
    → (unlink h prev x s).tses
      ≡ update s.tses prev (record (s.tses prev) { next = (s.tses x).next })
unfolding unlink
unlink_later h prev x s d = elim (Bool-cases (prev == 0)) [
  | inl e ↦ absurd (d ((==_iff prev 0).0 e))
  | inr e ↦ rw e refl
]

Write-Kept :
    (self k cur e : ℕ) (s s' : Tsd)
    → Write self cur s s'
    → Walk s.tses self k cur e
    → Kept self k cur e s s'
unfolding Kept unlink
Write-Kept self k cur e s s' (published t v p d fresh at) w = (
  k,
  omega arith,
  Walk-fresh s.tses s'.tses p self k cur e (publish-same s t v p fresh) fresh.tses at w,
  ap (λ (x : Tse). x.value)
      (publish-same s t v p fresh e (Walk-end s.tses p self k cur e fresh.tses at w)),
)
Write-Kept self k cur e s s' (first_off t x x0 d first) w = (k, omega arith, w, refl)
Write-Kept self k cur e s s' (later_off t prev x p0 x0 d link) w =
    let (j, l, v) =
      Walk-Unlinked s.tses (update s.tses prev (record (s.tses prev) { next = (s.tses x).next }))
        prev x self k cur e (shorter-Unlinked s.tses prev x link) x0 d w in
    let same = sym (unlink_later (hash_of t) prev x s p0) in
    (
      j,
      l,
      subst (λ (m : ℕ → Tse). Walk m self j cur e) same v,
      subst (λ (m : ℕ → Tse). (m e).value ≡ (s.tses e).value) same
          (shorter-same s.tses prev x (λ y. y.value) refl e),
    )
Write-Kept self k cur e s s' (tagged x q d) w = (
  k,
  omega arith,
  Walk-same s.tses s'.tses self k cur e (set_qtid-links x q s) w,
  set_qtid-values x q s e,
)
Write-Kept self k cur e s s' (put i x) w = (k, omega arith, w, refl)

Run-Kept :
    (self n k cur last e : ℕ) (s t : Tsd)
    → Run self n s cur t last
    → Walk s.tses self k cur e
    → (j : ℕ) × (j + n ≤ k) × Walk t.tses self j last e × ((t.tses e).value ≡ (s.tses e).value)
unfolding Kept
Run-Kept self n k cur last e s t (stop _ _) w = (k, omega arith, w, refl)
Run-Kept self n k cur last e s t (write _ _ s' _ _ _ step run) w =
    let (i, l, v, same) = Write-Kept self k cur e s s' step w in
    let (j, l', v', same') = Run-Kept self n i cur last e s' t run v in
    (j, omega arith, v', same' ∙ same)
Run-Kept self n zero cur last e s t (round m _ _ _ _ c0 d run) (at, inl z) = absurd (c0 z)
Run-Kept self n zero cur last e s t (round m _ _ _ _ c0 d run) (at, inr own) = absurd (d own)
Run-Kept self n (suc k) cur last e s t (round m _ _ _ _ c0 d run) w =
    let (j, l, v, same) = Run-Kept self m k (s.tses cur).next last e s t run w.2 in
    (j, omega arith, v, same)

-- What the reader returns at the entry where its loop ends.
abbrev pub Answer : Tsd → Option ℕ → ℕ → Type 0
Answer t none last = last ≡ 0
Answer t (some v) last = (last ≢ 0) × ((t.tses last).value ≡ v)

-- While other threads set and remove their own values and write the cache, in any order and between
-- any steps, the loop of the slow path of GC_getspecific makes at most as many rounds as the way
-- was long at its start, and where its test ends it, it is at the entry with the value that the
-- reading thread had at the start, or at NULL if it had none.
pub Run-Answer :
    (self : ℕ) (s : Tsd) (o : Option ℕ)
    → Holds s self o
    → (k : ℕ) × ((n last : ℕ) (t : Tsd)
        → Run self n s (head s self) t last
        → (n ≤ k) × (((last ≡ 0) ⊎ ((t.tses last).thread ≡ self)) → Answer t o last))
Run-Answer self s none l = (
  l.steps,
  λ n last t run.
      let (j, le, w, same) = Run-Kept self n l.steps (head s self) last 0 s t run l.way in
      (omega arith, λ stops. Walk-unique t.tses self 0 j last last 0 (refl, stops) w),
)
Run-Answer self s (some v) (e, own, val) = (
  own.steps,
  λ n last t run.
      let (j, le, w, same) = Run-Kept self n own.steps (head s self) last e s t run own.way in
      (
        omega arith,
        λ stops.
            let at = Walk-unique t.tses self 0 j last last e (refl, stops) w in
            (λ z. own.valid (sym at ∙ z), ap (λ a. (t.tses a).value) at ∙ same ∙ val),
      ),
)
