-- ===== src/SizeMap/Loops.antt =====
-- The two loops of GC_extend_size_map.
use boehmgc.Base.{
  update-here, update-other, ℕ, zero, suc, ◌-◌, ◌≤◌, ◌<◌, ◌≡◌, refl, ap, ◌∙◌, Bool, true, false,
  some, arith, ◌==◌, ==_iff, Bool-cases, leb, leb→le, leb_false→lt, le→ltb_false, inl, inr, ◌⊎◌,
  update,
}
use boehmgc.SizeMap.{maxobjbytes, first_free, fill_section}

-- The search ends no later than at a free element.
pub first_free_lem :
    (m : ℕ → ℕ) (fuel low i : ℕ)
    → low ≤ i
    → i ≤ maxobjbytes
    → i - low < fuel
    → m i ≡ 0
    → (at : ℕ) × (first_free m fuel low ≡ some at) × (low ≤ at) × (at ≤ i)
unfolding first_free
first_free_lem m zero low i l within enough free = absurd (omega arith)
first_free_lem m (suc fuel) low i l within enough free =
    let inside = le→ltb_false maxobjbytes low (omega arith) in
    elim (Bool-cases (m low == 0)) [
      | inl e ↦ (low, rw (inside, e) refl, omega arith, l)
      | inr e ↦
          let before = further e in
          let (at, run, above, below) =
            first_free_lem m fuel (suc low) i before within (omega arith) free in
          (at, rw (inside, e) run, omega arith, below)
    ]
  where
    clash : {b : Bool} → b ≡ true → b ≡ false → low < i
    clash x y = cc

    further : (m low == 0) ≡ false → low < i
    further e = elim (Bool-cases (low == i)) [
      | inl q ↦ clash ((==_iff (m low) 0).1 (ap m ((==_iff low i).0 q) ∙ free)) e
      | inr q ↦ ground arith
    ]

-- The table after the section up to `byte_sz`.
pub record Section (g byte_sz low : ℕ) (m m' : ℕ → ℕ) : Type 0 where
  pub inside : (j : ℕ) → low ≤ j → j ≤ byte_sz → m' j ≡ g
  pub outside : (j : ℕ) → ((j < low) ⊎ (byte_sz < j)) → m' j ≡ m j

pub fill_section-Section :
    (g byte_sz fuel low : ℕ) (m : ℕ → ℕ)
    → byte_sz ≤ maxobjbytes
    → suc byte_sz - low < fuel
    → (m' : ℕ → ℕ) × (fill_section g byte_sz fuel low m ≡ some m') × Section g byte_sz low m m'
unfolding fill_section
fill_section-Section g byte_sz zero low m within enough = absurd (omega arith)
fill_section-Section g byte_sz (suc fuel) low m within enough =
    elim (Bool-cases (leb low byte_sz)) [
      | inl e ↦
          let l = leb→le low byte_sz e in
          let inside = le→ltb_false maxobjbytes low (omega arith) in
          let (m', run, s) =
            fill_section-Section g byte_sz fuel (suc low) (update m low g) within (omega arith) in
          (
            m',
            rw (e, inside) run,
            record {
              inside = λ j a b. elim (Bool-cases (j == low)) [
                | inl q ↦
                    let j_low = (==_iff j low).0 q in
                    ap m' j_low ∙ s.outside low (inl (omega arith)) ∙ update-here m low g
                | inr q ↦ s.inside j (ground arith) b
              ];
              outside = λ j d.
                  s.outside j (elim d [ inl x ↦ inl (omega arith) | inr x ↦ inr x ])
                  ∙ update-other m low g j
                      (λ q. elim d [ inl x ↦ absurd (omega arith) | inr x ↦ absurd (omega arith) ]);
            },
          )
      | inr e ↦
          let l = leb_false→lt low byte_sz e in
          (m, rw e refl, record { inside = λ j a b. absurd (omega arith); outside = λ j d. refl })
    ]
