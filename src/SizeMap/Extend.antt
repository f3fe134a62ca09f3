-- ===== src/SizeMap/Extend.antt =====
-- The tables that GC_init_size_map and GC_extend_size_map make.
use boehmgc.Base.{
  ℕ, zero, suc, ◌+◌, ◌-◌, ◌*◌, ◌/◌, ◌^◌, ◌≤◌, ◌<◌, ◌≡◌, refl, Bool, true, false, some, arith, ◌==◌,
  ==_iff, if◌then◌else◌, Bool-cases, leb, lt→ltb, le→ltb_false, leb→le, leb_false→lt, inl, inr, ◌⊎◌,
}
use boehmgc.SizeMap.{
  maxobjbytes, maxobjgranules, extra_bytes, rounded_up_granules, init_upto, init_size_map,
  even_capped, spread, stretched, fill_from, extend_size_map,
}
use boehmgc.SizeMap.Loops.{first_free_lem, Section, fill_section-Section}
use boehmgc.SizeMap.Fit.{spread-even_capped}

-- The tiny sizes are filled in, and an element that is filled in is a number of granules in which
-- an object of that size, with the extra byte, fits, and not more than for the largest small object.
pub record IsSizeMap (aip : Bool) (m : ℕ → ℕ) : Type 0 where
  pub tiny : (j : ℕ) → j + extra_bytes aip ≤ 384 → 0 < m j
  pub fits : (j : ℕ) → 0 < m j → j + extra_bytes aip ≤ m j * 16
  pub bounded : (j : ℕ) → m j ≤ maxobjgranules

extra_bytes_le : (aip : Bool) → extra_bytes aip ≤ 1
extra_bytes_le true = omega arith
extra_bytes_le false = omega arith

rounded_up_granules_eq :
    (aip : Bool) (i : ℕ)
    → i ≤ maxobjbytes
    → rounded_up_granules aip i ≡ (i + (15 + extra_bytes aip)) / 16
rounded_up_granules_eq aip i l =
    let e = extra_bytes_le aip in
    rw (lt→ltb i (2 ^ 64 - 1 - (15 + extra_bytes aip)) (omega arith)) refl

-- A section of the size that the code takes, from at least `i` granules on, covers `i`.
fill_from-IsSizeMap :
    (aip : Bool) (fuel g i low : ℕ) (m : ℕ → ℕ)
    → IsSizeMap aip m
    → 2050 ≤ fuel
    → 0 < g
    → low ≤ i
    → i + extra_bytes aip ≤ maxobjbytes
    → (i + extra_bytes aip ≤ spread (even_capped g) * 16)
    → (m' : ℕ → ℕ) × (fill_from aip fuel g low m ≡ some m')
      × IsSizeMap aip m'
      × (0 < m' i)
      × ((j : ℕ) → 0 < m j → 0 < m' j)
unfolding fill_from
fill_from-IsSizeMap aip fuel g i low m is enough pos l small fit =
    let extra = extra_bytes_le aip in
    let (most, some_granule, even, least) = spread-even_capped g pos in
    let (m', run, s) =
      fill_section-Section (spread (even_capped g)) (spread (even_capped g) * 16 - extra_bytes aip)
        fuel low m (omega arith) (omega arith) in
    (
      m',
      run,
      record {
        tiny = λ j t. more m' s some_granule j (is.tiny j t);
        fits = λ j p. elim (where_is j) [
          | inl i ↦ let e = s.inside j i.0 i.1 in omega arith
          | inr o ↦ let e = s.outside j o in let old = is.fits j in omega (arith, old (omega arith))
        ];
        bounded = λ j. elim (where_is j) [
          | inl i ↦ let e = s.inside j i.0 i.1 in omega arith
          | inr o ↦ let e = s.outside j o in let old = is.bounded j in omega arith
        ];
      },
      (let e = s.inside i l (omega arith) in omega arith),
      more m' s some_granule,
    )
  where
    where_is :
        (j : ℕ)
        → ((low ≤ j) × (j ≤ spread (even_capped g) * 16 - extra_bytes aip))
          ⊎ ((j < low) ⊎ (spread (even_capped g) * 16 - extra_bytes aip < j))
    where_is j = ground arith

    more :
        (m' : ℕ → ℕ)
        → Section (spread (even_capped g)) (spread (even_capped g) * 16 - extra_bytes aip) low m m'
        → 0 < spread (even_capped g)
        → (j : ℕ) → 0 < m j
        → 0 < m' j
    more m' s pos j p = elim (where_is j) [
      | inl i ↦ let e = s.inside j i.0 i.1 in omega arith
      | inr o ↦ let e = s.outside j o in omega arith
    ]

stretched_bounds : (aip : Bool) (orig low : ℕ) → orig ≤ stretched aip orig low
stretched_bounds aip orig low = ground arith

-- GC_extend_size_map for a small size that is not filled in ends, stays inside the table, fills the
-- size in, keeps the sizes that are filled in so, and keeps the table right: in each size class an
-- object of that size, with the extra byte, fits, and no class is above MAXOBJGRANULES.
pub extend_size_map-IsSizeMap :
    (aip : Bool) (fuel i : ℕ) (m : ℕ → ℕ)
    → IsSizeMap aip m
    → 2050 ≤ fuel
    → m i ≡ 0
    → i + extra_bytes aip ≤ maxobjbytes
    → (m' : ℕ → ℕ) × (extend_size_map aip fuel i m ≡ some m')
      × IsSizeMap aip m'
      × (0 < m' i)
      × ((j : ℕ) → 0 < m j → 0 < m' j)
unfolding extend_size_map
extend_size_map-IsSizeMap aip fuel i m is enough free small =
    let extra = extra_bytes_le aip in
    let above = not_tiny (Bool-cases (leb (i + extra_bytes aip) 384)) in
    let round = rounded_up_granules_eq aip i (omega arith) in
    let orig : ℕ = rounded_up_granules aip i in
    let smaller : ℕ = orig * 16 - orig * 16 / 8 in
    let inside = le→ltb_false maxobjbytes smaller (omega arith) in
    elim (Bool-cases (m smaller == 0)) [
      | inl e ↦
          let (low, at, a, b) =
            first_free_lem m fuel (orig * 16 - orig * 16 / 4) i (omega arith) (omega arith)
              (omega arith) free in
          let (most, some_granule, even, least) = spread-even_capped orig (omega arith) in
          let covers = least orig (omega arith) (omega arith) in
          let (m', run, right, filled, kept) =
            fill_from-IsSizeMap aip fuel orig i low m is enough (omega arith) b small
              (omega arith) in
          (m', rw (inside, e, at) run, right, filled, kept)
      | inr e ↦
          let (low, at, a, b) =
            first_free_lem m fuel (smaller + 1) i (omega arith) (omega arith) (omega arith) free in
          let wide = stretched_bounds aip orig low in
          let (most, some_granule, even, least) =
            spread-even_capped (stretched aip orig low) (omega arith) in
          let covers = least orig wide (omega arith) in
          let (m', run, right, filled, kept) =
            fill_from-IsSizeMap aip fuel (stretched aip orig low) i low m is enough (omega arith) b
              small (omega arith) in
          (m', rw (inside, e, at) run, right, filled, kept)
    ]
  where
    not_tiny :
        ((leb (i + extra_bytes aip) 384 ≡ true) ⊎ (leb (i + extra_bytes aip) 384 ≡ false))
        → 384 < i + extra_bytes aip
    not_tiny (inl e) =
        let t = is.tiny i (leb→le (i + extra_bytes aip) 384 e) in absurd (omega arith)
    not_tiny (inr e) = leb_false→lt (i + extra_bytes aip) 384 e

positive : (n : ℕ) → (suc n == 0) ≡ false
positive n = ground arith

init_upto_small :
    (aip : Bool) (n j : ℕ)
    → n + extra_bytes aip ≤ 384
    → ((j ≤ n) × (init_upto aip n j ≡ (if j == 0 then 1 else (j + (15 + extra_bytes aip)) / 16)))
      ⊎ ((n < j) × (init_upto aip n j ≡ 0))
unfolding init_upto
init_upto_small aip zero j l = elim (Bool-cases (j == 0)) [
  | inl e ↦ let z = (==_iff j 0).0 e in inl (omega arith, rw e refl)
  | inr e ↦ inr (ground arith, rw e refl)
]
init_upto_small aip (suc n) j l = elim (Bool-cases (j == suc n)) [
  | inl e ↦
      let q = (==_iff j (suc n)).0 e in
      inl (omega arith, rw (e, q, positive n) (rounded_up_granules_eq aip (suc n) (omega arith)))
  | inr e ↦ elim (init_upto_small aip n j (omega arith)) [
    | inl x ↦ let y = x.0 in inl (omega arith, rw e x.1)
    | inr x ↦ let y = x.0 in inr (ground arith, rw e x.1)
  ]
]

-- GC_init_size_map makes a right table.
pub init_size_map-IsSizeMap : (aip : Bool) → IsSizeMap aip (init_size_map aip)
unfolding init_size_map
init_size_map-IsSizeMap aip = record {
  tiny = λ j t. elim (each j) [
    | inl x ↦ let e = x.1 in ground arith
    | inr x ↦ let l = x.0 in absurd (omega (arith, extra_bytes_le aip))
  ];
  fits = λ j p. elim (each j) [
    | inl x ↦ let e = x.1 in let b = extra_bytes_le aip in ground arith
    | inr x ↦ let e = x.1 in absurd (omega arith)
  ];
  bounded = λ j. elim (each j) [
    | inl x ↦ let (l, e) = x in let b = extra_bytes_le aip in ground arith
    | inr x ↦ let e = x.1 in omega arith
  ];
}
  where
    each :
        (j : ℕ)
        → ((j ≤ 384 - extra_bytes aip)
            × (init_upto aip (384 - extra_bytes aip) j
                ≡ (if j == 0 then 1 else (j + (15 + extra_bytes aip)) / 16)))
          ⊎ ((384 - extra_bytes aip < j) × (init_upto aip (384 - extra_bytes aip) j ≡ 0))
    each j =
        let b = extra_bytes_le aip in init_upto_small aip (384 - extra_bytes aip) j (omega arith)
