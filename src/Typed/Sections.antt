-- ===== src/Typed/Sections.antt =====
-- The two scans of a bitmap in GC_make_descriptor, for its last bit and for an initial section.
use boehmgc.Base.{
  ℕ, zero, suc, ◌+◌, ◌≤◌, ◌<◌, ◌≡◌, sym, ◌∙◌, subst, Bool, true, false, arith, ◌==◌, ==_iff,
  Bool-cases, inl, inr,
}
use boehmgc.Typed.{get_bit, set_bits_end, initial_section}

pub set_bits_end-below : (bm : ℕ → ℕ) (k : ℕ) → set_bits_end bm k ≤ k
unfolding set_bits_end
set_bits_end-below bm zero = omega arith
set_bits_end-below bm (suc k) =
    let rest = set_bits_end-below bm k in
    elim (Bool-cases (get_bit bm k)) [ inl e ↦ rw e (omega arith) | inr e ↦ rw e (omega arith) ]

-- No bit is set from the end on.
pub set_bits_end-above :
    (bm : ℕ → ℕ) (k i : ℕ) → i < k → get_bit bm i ≡ true → i < set_bits_end bm k
unfolding set_bits_end
set_bits_end-above bm zero i l s = omega arith
set_bits_end-above bm (suc k) i l s = elim (Bool-cases (get_bit bm k)) [
  | inl e ↦ rw e l
  | inr e ↦ rw e (set_bits_end-above bm k i (other e) s)
]
  where
    clash : {b : Bool} → b ≡ true → b ≡ false → i < k
    clash x y = cc

    other : get_bit bm k ≡ false → i < k
    other e = elim (Bool-cases (i == k)) [
      | inl m ↦ clash (subst (λ v. get_bit bm v ≡ true) ((==_iff i k).0 m) s) e
      | inr m ↦ ground arith
    ]

-- The bit before the end is set.
pub set_bits_end-last :
    (bm : ℕ → ℕ) (k last : ℕ) → set_bits_end bm k ≡ suc last → get_bit bm last ≡ true
unfolding set_bits_end
set_bits_end-last bm zero last e = absurd (omega arith)
set_bits_end-last bm (suc k) last e = elim (Bool-cases (get_bit bm k)) [
  | inl s ↦ subst (λ v. get_bit bm v ≡ true) (pred (rw s at e)) s
  | inr s ↦ set_bits_end-last bm k last (rw s at e)
]
  where
    pred : suc k ≡ suc last → k ≡ last
    pred x = omega arith

pub initial_section-bits :
    (bm : ℕ → ℕ) (i k : ℕ)
    → initial_section bm i k ≡ i + k
    → (j : ℕ) → j < k
    → get_bit bm (i + j) ≡ true
unfolding initial_section
initial_section-bits bm i zero e j l = absurd (omega arith)
initial_section-bits bm i (suc k) e zero l = elim (Bool-cases (get_bit bm i)) [
  | inl s ↦ subst (λ v. get_bit bm v ≡ true) (here i) s
  | inr s ↦ let e' = rw s at e in absurd (omega arith)
]
  where
    here : (i : ℕ) → i ≡ i + 0
    here i = omega arith
initial_section-bits bm i (suc k) e (suc j) l = elim (Bool-cases (get_bit bm i)) [
  | inl s ↦
      let e' = rw s at e in
      subst (λ v. get_bit bm v ≡ true) (next i j)
        (initial_section-bits bm (suc i) k (e' ∙ sym (next i k)) j (omega arith))
  | inr s ↦ let e' = rw s at e in absurd (omega arith)
]
  where
    next : (i j : ℕ) → suc i + j ≡ i + suc j
    next i j = omega arith
