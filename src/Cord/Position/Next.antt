-- ===== src/Cord/Position/Next.antt =====
-- CORD_next moves a position to the next place.
use boehmgc.Base.{
  ℕ, ◌+◌, ◌-◌, ◌≤◌, ◌<◌, ◌≡◌, refl, true, false, some, List, [], ◌∷◌, arith, ltb, ◌==◌,
  if◌then◌else◌, Bool-cases, inl, inr, ap, ◌⊎◌, subst, sym, ltb→lt, ltb_false→le, ==_iff,
}
use boehmgc.Cord.{Function, call, Cord, empty, string, concat, function, len}
use boehmgc.Cord.Spec.{chars, IsRope, rope-positive}
use boehmgc.Cord.Position.{
  Entry, Pos, extend_path, pop_right, function_buf_sz, next_at, next_hard, next,
}
use boehmgc.Cord.Position.Path.{Child, Chain, Flat, Chain-IsRope}
use boehmgc.Cord.Position.Moves.{entry-At, Cached, Here, Valid, At, extend_path-At}

Child-inside :
    (c : Cord) (s : ℕ) (d : Cord) (t : ℕ) → IsRope d → Child c s d t → s + len c ≤ t + len d
Child-inside c s (concat depth ll m left right) t h (inl e) =
    let n = ap len (e.0) in let at = e.1 in let size = h.2 in omega arith
Child-inside c s (concat depth ll m left right) t h (inr e) =
    let n = ap len (e.0) in let at = e.1 in let size = h.2 in omega arith
Child-inside c s empty t h e = absurd e
Child-inside c s (string u) t h e = absurd e
Child-inside c s (function fn m) t h e = absurd e

Chain-inside :
    (x c : Cord) (s : ℕ) (parents : List Entry) → IsRope x → Chain x c s parents → s + len c ≤ len x
Chain-inside x c s [] h chain = let n = ap len (chain.0) in let at = chain.1 in omega arith
Chain-inside x c s (e ∷ parents) h chain = omega (
  arith,
  Child-inside c s e.pe_cord e.pe_start_pos
      (Chain-IsRope x e.pe_cord e.pe_start_pos parents h chain.1) (chain.0),
  Chain-inside x e.pe_cord e.pe_start_pos parents h chain.1,
)

-- A position at place `i` of `x`, or an invalid one if this is the end.
abbrev pub Moved : Cord → ℕ → Pos → Type 0
Moved x i p = ((i < len x) × At x i p) ⊎ ((i ≡ len x) × (p.path ≡ []))

pub same_place : (s t : ℕ) → s ≡ t → (s == t) ≡ true
same_place s t e = (==_iff s t).1 e

pub other_place : (s t : ℕ) → t < s → (s == t) ≡ false
other_place s t l = ground arith

-- At the end of a part, the loop of CORD__next finds the next leaf.
pop_right-Moved :
    (x c : Cord) (s : ℕ) (parents : List Entry) (p : Pos)
    → IsRope x
    → Chain x c s parents
    → p.cur_pos ≡ s + len c
    → Moved x p.cur_pos (pop_right (record { pe_cord = c; pe_start_pos = s }) parents p)
unfolding pop_right
pop_right-Moved x c s [] p h chain at =
    let n = ap len (chain.0) in let z = chain.1 in inr (omega arith, refl)
pop_right-Moved x c s (e ∷ rest) p h chain at =
    up e.pe_cord (chain.0) (Chain-IsRope x e.pe_cord e.pe_start_pos rest h chain.1) chain.1
      (λ d above end. pop_right-Moved x d e.pe_start_pos rest p h above end)
  where
    up :
        (d : Cord)
        → Child c s d e.pe_start_pos
        → IsRope d
        → Chain x d e.pe_start_pos rest
        → ((d' : Cord)
            → Chain x d' e.pe_start_pos rest
            → p.cur_pos ≡ e.pe_start_pos + len d'
            → Moved x p.cur_pos
                (pop_right (record { pe_cord = d'; pe_start_pos = e.pe_start_pos }) rest p))
        → Moved x p.cur_pos (
            if s == e.pe_start_pos
            then extend_path (record { pe_cord = d; pe_start_pos = e.pe_start_pos }) rest p
            else pop_right (record { pe_cord = d; pe_start_pos = e.pe_start_pos }) rest p)
    up empty child r above again = absurd child
    up (string u) child r above again = absurd child
    up (function fn m) child r above again = absurd child
    up (concat depth ll m left right) (inl child) r above again =
        let n = ap len (child.0) in
        let start = child.1 in
        let size = r.2 in
        let pr = rope-positive right r.4 in
        let inside = Chain-inside x (concat depth ll m left right) e.pe_start_pos rest h above in
        rw (same_place s e.pe_start_pos start) (
          inl (
            omega arith,
            extend_path-At x (concat depth ll m left right) e.pe_start_pos rest p h above
                (omega arith) (omega arith),
          ))
    up (concat depth ll m left right) (inr child) r above again =
        let n = ap len (child.0) in
        let start = child.1 in
        let size = r.2 in
        let pl = rope-positive left r.3 in
        rw (other_place s e.pe_start_pos (omega arith))
          (again (concat depth ll m left right) above (omega arith))

limit_bounds :
    (a : ℕ)
    → 0 < a
    → (0 < (if ltb a function_buf_sz then a else function_buf_sz))
      × ((if ltb a function_buf_sz then a else function_buf_sz) ≤ a)
unfolding function_buf_sz
limit_bounds a l = (ground arith, ground arith)

-- A position that holds the next `n` characters of a function.
filled-At :
    (x : Cord) (fn : Function) (m s n : ℕ) (parents : List Entry) (p : Pos)
    → Chain x (function fn m) s parents
    → s ≤ p.cur_pos
    → 0 < n
    → p.cur_pos + n ≤ s + m
    → p.path ≡ record { pe_cord = function fn m; pe_start_pos = s } ∷ parents
    → At x p.cur_pos (record p {
      cur_leaf = chars (call fn) (p.cur_pos - s) n;
      cur_start = p.cur_pos;
      cur_end = p.cur_pos + n;
    })
filled-At x fn m s n parents p chain low one fits path =
    let q = record p {
      cur_leaf = chars (call fn) (p.cur_pos - s) n;
      cur_start = p.cur_pos;
      cur_end = p.cur_pos + n;
    } in
    entry-At x p.cur_pos q (function fn m) s parents path (
      refl,
      chain,
      inr (p.cur_pos - s, n, refl, omega arith, omega arith, omega arith, omega arith, omega arith),
      low,
      omega arith,
    )

-- CORD__next from a leaf, with the next place already in `cur_pos`.
next_at-Moved :
    (x c : Cord) (s : ℕ) (parents : List Entry) (p : Pos)
    → IsRope x
    → Chain x c s parents
    → s ≤ p.cur_pos
    → p.cur_pos ≤ s + len c
    → ((t : List ℕ) → c ≡ string t → p.cur_pos ≡ s + len c)
    → Flat c
    → p.path ≡ record { pe_cord = c; pe_start_pos = s } ∷ parents
    → Moved x p.cur_pos (next_at (record { pe_cord = c; pe_start_pos = s }) parents p)
unfolding next_at
next_at-Moved x empty s parents p h chain low high end flat path = absurd flat
next_at-Moved x (concat _ _ _ _ _) s parents p h chain low high end flat path = absurd flat
next_at-Moved x (string t) s parents p h chain low high end flat path =
    pop_right-Moved x (string t) s parents p h chain (end t refl)
next_at-Moved x (function fn m) s parents p h chain low high end flat path =
    elim (Bool-cases (ltb p.cur_pos (s + m))) [
      | inr at ↦
          let at' = ltb_false→le p.cur_pos (s + m) at in
          rw at (pop_right-Moved x (function fn m) s parents p h chain (omega arith))
      | inl at ↦
          let at' = ltb→lt p.cur_pos (s + m) at in
          let (one, fits) = limit_bounds (s + m - p.cur_pos) (omega arith) in
          let n =
            if ltb (s + m - p.cur_pos) function_buf_sz
            then s + m - p.cur_pos
            else function_buf_sz in
          let inside = Chain-inside x (function fn m) s parents h chain in
          rw at (inl (omega arith, filled-At x fn m s n parents p chain low one (omega arith) path))
    ]

-- The fast way of CORD_next, inside the characters that the position holds.
step-Cached :
    (c : Cord) (s : ℕ) (p : Pos)
    → Cached c s p
    → s ≤ p.cur_pos
    → p.cur_pos + 1 < p.cur_end
    → Cached c s (record p { cur_pos = p.cur_pos + 1 }) × (p.cur_pos + 1 < s + len c)
step-Cached empty s p cached low l = absurd cached
step-Cached (concat _ _ _ _ _) s p cached low l = absurd cached
step-Cached (string t) s p cached low l = let e = cached.2 in (cached, omega arith)
step-Cached (function fn m) s p (inl none_held) low l = absurd (omega arith)
step-Cached (function fn m) s p (inr (k, n, held, start, size, fits, first, last)) low l =
    (inr (k, n, held, start, size, fits, omega arith, omega arith), omega arith)

Cached-Flat : (c : Cord) (s : ℕ) (p : Pos) → Cached c s p → Flat c
Cached-Flat empty s p cached = absurd cached
Cached-Flat (concat _ _ _ _ _) s p cached = absurd cached
Cached-Flat (string t) s p cached = tt
Cached-Flat (function fn m) s p cached = tt

string-end :
    (c : Cord) (s : ℕ) (p : Pos) (t : List ℕ)
    → c ≡ string t
    → Cached c s p
    → p.cur_pos < s + len c
    → p.cur_end ≤ p.cur_pos + 1
    → p.cur_pos + 1 ≡ s + len c
string-end empty s p t e cached high l = absurd cached
string-end (concat _ _ _ _ _) s p t e cached high l = absurd cached
string-end (string u) s p t e cached high l = let e = cached.2 in omega arith
string-end (function fn m) s p t e cached high l = cc

-- CORD_next from a leaf.
next-leaf :
    (x c : Cord) (s : ℕ) (parents : List Entry) (p : Pos)
    → IsRope x
    → Here x p.cur_pos p c s parents
    → p.path ≡ record { pe_cord = c; pe_start_pos = s } ∷ parents
    → (q : Pos) × (next p ≡ some q) × Moved x (p.cur_pos + 1) q
unfolding next next_hard
next-leaf x c s parents p h (at, chain, cached, low, high) path =
    let p' = record p { cur_pos = p.cur_pos + 1 } in
    elim (Bool-cases (ltb (p.cur_pos + 1) p.cur_end)) [
      | inl fast ↦
          let (cached', inside) =
            step-Cached c s p cached low (ltb→lt (p.cur_pos + 1) p.cur_end fast) in
          let whole = Chain-inside x c s parents h chain in
          (
            p',
            rw fast refl,
            inl (
              omega arith,
              entry-At x (p.cur_pos + 1) p' c s parents path
                  (refl, chain, cached', omega arith, inside),
            ),
          )
      | inr hard ↦
          let hard' = ltb_false→le (p.cur_pos + 1) p.cur_end hard in
          (
            next_at (record { pe_cord = c; pe_start_pos = s }) parents p',
            rw (hard, path) refl,
            next_at-Moved x c s parents p' h chain (omega arith) (omega arith)
                (λ t e. string-end c s p t e cached high hard') (Cached-Flat c s p cached) path,
          )
    ]

-- CORD_next from a place of a well formed cord does not abort, and gives a position at the next place,
-- or an invalid one at the end.
pub next-Moved :
    (x : Cord) (i : ℕ) (p : Pos)
    → IsRope x
    → At x i p
    → (q : Pos) × (next p ≡ some q) × Moved x (i + 1) q
next-Moved x i p h at = move p.path refl at
  where
    move :
        (path : List Entry)
        → p.path ≡ path
        → Valid x i p path
        → (q : Pos) × (next p ≡ some q) × Moved x (i + 1) q
    move [] e v = absurd v
    move (e ∷ parents) f v =
        let v' = subst (λ j. Here x j p e.pe_cord e.pe_start_pos parents) (sym v.0) v in
        subst (λ j. (q : Pos) × (next p ≡ some q) × Moved x (j + 1) q) v.0
          (next-leaf x e.pe_cord e.pe_start_pos parents p h v' f)
