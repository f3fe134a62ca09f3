-- ===== src/Cord/Position/Path.antt =====
-- Paths: CORD__extend_path gives the way from the root down to the leaf with the place.
use boehmgc.Base.{
  ℕ, zero, suc, ◌+◌, ◌-◌, ◌≤◌, ◌<◌, ◌≡◌, refl, List, [], ◌∷◌, ◌++◌, arith, leb, length, get_elem?,
  Bool-cases, inl, inr, ap, ◌∙◌, ◌⊎◌, subst, sym, leb→le, leb_false→lt, le→leb, true,
}
use boehmgc.Cord.{Cord, empty, string, concat, function, len}
use boehmgc.Cord.Spec.{text, IsRope, length-text, rope-cord}
use boehmgc.Cord.Balance.Whole.{left_len_of-lem}
use boehmgc.Cord.Position.{Entry, descend}

-- `c` at place `s` is a part of the concatenation at place `t`.
abbrev pub Child : Cord → ℕ → Cord → ℕ → Type 0
Child c s (concat depth ll m left right) t =
    ((c ≡ left) × (s ≡ t)) ⊎ ((c ≡ right) × (s ≡ t + len left))
Child c s other t = ⊥

-- The entries lead from `c` at place `s` up to the root `x` at place 0.
abbrev pub Chain : Cord → Cord → ℕ → List Entry → Type 0
Chain x c s [] = (c ≡ x) × (s ≡ 0)
Chain x c s (e ∷ parents) =
    Child c s e.pe_cord e.pe_start_pos × Chain x e.pe_cord e.pe_start_pos parents

abbrev pub Flat : Cord → Type 0
Flat (string t) = Unit
Flat (function fn m) = Unit
Flat other = ⊥

get_elem?-append-left : (t u : List ℕ) (i : ℕ) → i < length t → get_elem? (t ++ u) i ≡ get_elem? t i
get_elem?-append-left [] u i l = absurd (omega arith)
get_elem?-append-left (c ∷ t) u zero l = refl
get_elem?-append-left (c ∷ t) u (suc i) l = get_elem?-append-left t u i (omega arith)

get_elem?-append-right :
    (t u : List ℕ) (i j : ℕ) → i ≡ length t + j → get_elem? (t ++ u) i ≡ get_elem? u j
get_elem?-append-right [] u i j e = let d : i ≡ j = omega arith in rw d refl
get_elem?-append-right (c ∷ t) u zero j e = absurd (omega arith)
get_elem?-append-right (c ∷ t) u (suc i) j e = get_elem?-append-right t u i j (omega arith)

Child-IsRope : (c : Cord) (s : ℕ) (d : Cord) (t : ℕ) → IsRope d → Child c s d t → IsRope c
Child-IsRope c s (concat depth ll m left right) t h (inl e) = subst IsRope (sym e.0) h.3
Child-IsRope c s (concat depth ll m left right) t h (inr e) = subst IsRope (sym e.0) h.4
Child-IsRope c s empty t h e = absurd e
Child-IsRope c s (string u) t h e = absurd e
Child-IsRope c s (function fn m) t h e = absurd e

pub Chain-IsRope :
    (x c : Cord) (s : ℕ) (parents : List Entry) → IsRope x → Chain x c s parents → IsRope c
Chain-IsRope x c s [] h chain = subst IsRope (sym chain.0) h
Chain-IsRope x c s (e ∷ parents) h chain =
    Child-IsRope c s e.pe_cord e.pe_start_pos
      (Chain-IsRope x e.pe_cord e.pe_start_pos parents h chain.1) chain.0

-- A place in a part is the same place in the whole.
Child-text :
    (c : Cord) (s : ℕ) (d : Cord) (t i : ℕ)
    → IsRope d
    → Child c s d t
    → s ≤ i
    → i < s + len c
    → (t ≤ i) × (i < t + len d) × (get_elem? (text c) (i - s) ≡ get_elem? (text d) (i - t))
Child-text c s (concat depth ll m left right) t i h (inl e) low high =
    let size = length-text left (rope-cord left h.3) in
    let n = ap len (e.0) in
    let same = e.1 in
    let below : i - t < length (text left) = omega arith in
    let m_is = h.2 in
    (
      omega arith,
      omega arith,
      ap (λ v. get_elem? (text v) (i - s)) (e.0)
          ∙ ap (λ v. get_elem? (text left) (i - v)) same
          ∙ sym (get_elem?-append-left (text left) (text right) (i - t) below),
    )
Child-text c s (concat depth ll m left right) t i h (inr e) low high =
    let size = length-text left (rope-cord left h.3) in
    let n = ap len (e.0) in
    let same = e.1 in
    let m_is = h.2 in
    (
      omega arith,
      omega arith,
      ap (λ v. get_elem? (text v) (i - s)) (e.0)
          ∙ sym (get_elem?-append-right (text left) (text right) (i - t) (i - s) (omega arith)),
    )
Child-text c s empty t i h e low high = absurd e
Child-text c s (string u) t i h e low high = absurd e
Child-text c s (function fn m) t i h e low high = absurd e

pub Chain-text :
    (x c : Cord) (s i : ℕ) (parents : List Entry)
    → IsRope x
    → Chain x c s parents
    → s ≤ i
    → i < s + len c
    → get_elem? (text c) (i - s) ≡ get_elem? (text x) i
Chain-text x c s i [] h chain low high =
    let z = chain.1 in
    let e : i - s ≡ i = omega arith in rw e (ap (λ v. get_elem? (text v) i) (chain.0))
Chain-text x c s i (e ∷ parents) h chain low high =
    let (low', high', same) =
      Child-text c s e.pe_cord e.pe_start_pos i
        (Chain-IsRope x e.pe_cord e.pe_start_pos parents h chain.1) (chain.0) low high in
    same ∙ Chain-text x e.pe_cord e.pe_start_pos i parents h chain.1 low' high'

-- What the loop of CORD__extend_path gives: a leaf of `x` that has the place `i`.
abbrev pub Reaches : Cord → ℕ → List Entry × Cord × ℕ × ℕ → Type 0
Reaches x i ([], leaf, top_pos, top_len) = ⊥
Reaches x i (e ∷ parents, leaf, top_pos, top_len) =
    (e.pe_cord ≡ leaf)
    × (e.pe_start_pos ≡ top_pos)
    × (top_len ≡ len leaf)
    × Chain x leaf top_pos parents
    × Flat leaf
    × (top_pos ≤ i)
    × (i < top_pos + top_len)

pub descend-Reaches :
    (x c : Cord) (i s n : ℕ) (parents : List Entry)
    → IsRope c
    → Chain x c s parents
    → n ≡ len c
    → s ≤ i
    → i < s + n
    → Reaches x i (descend c i s n (record { pe_cord = c; pe_start_pos = s } ∷ parents))
unfolding descend
descend-Reaches x empty i s n parents h chain e low high = absurd h
descend-Reaches x (string t) i s n parents h chain e low high =
    (refl, refl, e, chain, tt, low, high)
descend-Reaches x (function fn m) i s n parents h chain e low high =
    (refl, refl, e, chain, tt, low, high)
descend-Reaches x (concat depth ll m left right) i s n parents h chain e low high =
    let l = left_len_of-lem depth ll m left right h in
    let m_is = h.2 in
    rw l (elim (Bool-cases (leb (s + len left) i)) [
      | inl at ↦
          let at' = leb→le (s + len left) i at in
          rw at (
            descend-Reaches x right i (s + len left) (n - len left)
              (record { pe_cord = concat depth ll m left right; pe_start_pos = s } ∷ parents) h.4
              (inr (refl, refl), chain) (omega arith) at' (omega arith))
      | inr at ↦
          let at' = leb_false→lt (s + len left) i at in
          rw at (
            descend-Reaches x left i s (len left)
              (record { pe_cord = concat depth ll m left right; pe_start_pos = s } ∷ parents) h.3
              (inl (refl, refl), chain) refl low at')
    ])

-- From a place behind the cord the loop ends in front of the place.
pub descend-end :
    (c : Cord) (i s n : ℕ) (path : List Entry)
    → IsRope c
    → n ≡ len c
    → s + n ≤ i
    → let (path', leaf, top_pos, top_len) = descend c i s n path in top_pos + top_len ≤ i
unfolding descend
descend-end empty i s n path h e l = absurd h
descend-end (string t) i s n path h e l = l
descend-end (function fn m) i s n path h e l = l
descend-end (concat depth ll m left right) i s n path h e l =
    let size = left_len_of-lem depth ll m left right h in
    let m_is = h.2 in
    let at : leb (s + len left) i ≡ true = le→leb (s + len left) i (omega arith) in
    rw (size, at)
      (descend-end right i (s + len left) (n - len left)
        (record { pe_cord = right; pe_start_pos = s + len left } ∷ path) h.4 (omega arith)
        (omega arith))
