-- ===== src/Cord/Position/Prev.antt =====
-- CORD_prev moves a position to the place before.
use boehmgc.Base.{
  ℕ, ◌+◌, ◌-◌, ◌<◌, ◌≡◌, refl, false, none, some, List, [], ◌∷◌, arith, ltb, leb, ◌==◌,
  if◌then◌else◌, Bool-cases, inl, inr, ◌⊎◌, dec_lt, subst, sym, lt→leb_false, ltb→lt, ltb_false→le,
}
use boehmgc.Cord.{Cord, empty, string, concat, function}
use boehmgc.Cord.Spec.{IsRope, rope-positive}
use boehmgc.Cord.Position.{Entry, Pos, extend_path, pop_left, prev_hard, prev}
use boehmgc.Cord.Position.Path.{Child, Chain, Chain-IsRope}
use boehmgc.Cord.Position.Moves.{le→ltb_false, positive, Here, Valid, At, entry-At, extend_path-At}
use boehmgc.Cord.Position.Next.{same_place, other_place}

-- A cord without function nodes.
abbrev pub OfStrings : Cord → Type 0
OfStrings (concat depth ll m left right) = OfStrings left × OfStrings right
OfStrings (function fn m) = ⊥
OfStrings other = Unit

Child-OfStrings : (c : Cord) (s : ℕ) (d : Cord) (t : ℕ) → OfStrings d → Child c s d t → OfStrings c
Child-OfStrings c s (concat depth ll m left right) t h (inl e) = subst OfStrings (sym e.0) h.0
Child-OfStrings c s (concat depth ll m left right) t h (inr e) = subst OfStrings (sym e.0) h.1
Child-OfStrings c s empty t h e = absurd e
Child-OfStrings c s (string u) t h e = absurd e
Child-OfStrings c s (function fn m) t h e = absurd e

Chain-OfStrings :
    (x c : Cord) (s : ℕ) (parents : List Entry) → OfStrings x → Chain x c s parents → OfStrings c
Chain-OfStrings x c s [] h chain = subst OfStrings (sym chain.0) h
Chain-OfStrings x c s (e ∷ parents) h chain =
    Child-OfStrings c s e.pe_cord e.pe_start_pos
      (Chain-OfStrings x e.pe_cord e.pe_start_pos parents h chain.1) chain.0

-- In front of a part, the loop of CORD__prev finds the leaf before.
pop_left-At :
    (x c : Cord) (s : ℕ) (parents : List Entry) (p : Pos)
    → IsRope x
    → Chain x c s parents
    → p.cur_pos + 1 ≡ s
    → (q : Pos) × (pop_left (record { pe_cord = c; pe_start_pos = s }) parents p ≡ some q)
      × At x p.cur_pos q
unfolding pop_left
pop_left-At x c s [] p h chain at = let z = chain.1 in absurd (omega arith)
pop_left-At x c s (e ∷ rest) p h chain at =
    up e.pe_cord (chain.0) (Chain-IsRope x e.pe_cord e.pe_start_pos rest h chain.1) chain.1
      (λ d above end. pop_left-At x d e.pe_start_pos rest p h above end)
  where
    up :
        (d : Cord)
        → Child c s d e.pe_start_pos
        → IsRope d
        → Chain x d e.pe_start_pos rest
        → ((d' : Cord)
            → Chain x d' e.pe_start_pos rest
            → p.cur_pos + 1 ≡ e.pe_start_pos
            → (q : Pos) × (pop_left (record { pe_cord = d'; pe_start_pos = e.pe_start_pos }) rest p
                ≡ some q)
              × At x p.cur_pos q)
        → (q : Pos) × ((if s == e.pe_start_pos
              then pop_left (record { pe_cord = d; pe_start_pos = e.pe_start_pos }) rest p
              else some
                  (extend_path (record { pe_cord = d; pe_start_pos = e.pe_start_pos }) rest p))
            ≡ some q)
          × At x p.cur_pos q
    up empty child r above again = absurd child
    up (string u) child r above again = absurd child
    up (function fn m) child r above again = absurd child
    up (concat depth ll m left right) (inl child) r above again =
        let start = child.1 in
        rw (same_place s e.pe_start_pos start)
          (again (concat depth ll m left right) above (omega arith))
    up (concat depth ll m left right) (inr child) r above again =
        let start = child.1 in
        let size = r.2 in
        let pl = rope-positive left r.3 in
        let d = concat depth ll m left right in
        rw (other_place s e.pe_start_pos (omega arith)) (
          extend_path (record { pe_cord = d; pe_start_pos = e.pe_start_pos }) rest p,
          refl,
          extend_path-At x d e.pe_start_pos rest p h above (omega arith) (omega arith),
        )

prev-entry :
    (e : Entry) (parents : List Entry) (p : Pos) (path : List Entry) (q : Pos)
    → path ≡ e ∷ parents
    → leb e.pe_start_pos (p.cur_pos - 1) ≡ false
    → pop_left e parents (record p { cur_pos = p.cur_pos - 1 }) ≡ some q
    → (elim path [
      | [] ↦ none
      | f ∷ es ↦
          if leb f.pe_start_pos (p.cur_pos - 1)
          then some (record p { cur_pos = p.cur_pos - 1 })
          else pop_left f es (record p { cur_pos = p.cur_pos - 1 })
    ])
      ≡ some q
prev-entry e parents p path q is before step = rw (is, before) step

-- CORD_prev from a string.
prev-leaf :
    (x c : Cord) (s : ℕ) (parents : List Entry) (p : Pos)
    → IsRope x
    → OfStrings c
    → 0 < p.cur_pos
    → Here x p.cur_pos p c s parents
    → p.path ≡ record { pe_cord = c; pe_start_pos = s } ∷ parents
    → (q : Pos) × (prev p ≡ some q) × At x (p.cur_pos - 1) q
unfolding prev prev_hard
prev-leaf x empty s parents p h only pos (at, chain, cached, low, high) path = absurd cached
prev-leaf x (concat _ _ _ _ _) s parents p h only pos (at, chain, cached, low, high) path =
    absurd cached
prev-leaf x (function fn m) s parents p h only pos (at, chain, cached, low, high) path = absurd only
prev-leaf x (string t) s parents p h only pos (at, chain, cached, low, high) path =
    let p' = record p { cur_pos = p.cur_pos - 1 } in
    let start = cached.1 in
    let end = cached.2 in
    let full : (p.cur_end == 0) ≡ false = positive p.cur_end (omega arith) in
    elim (Bool-cases (ltb p.cur_start p.cur_pos)) [
      | inl inside ↦
          let inside' = ltb→lt p.cur_start p.cur_pos inside in
          (
            p',
            rw (full, inside) refl,
            entry-At x (p.cur_pos - 1) p' (string t) s parents path
                (refl, chain, cached, omega arith, omega arith),
          )
      | inr first ↦
          let first' = ltb_false→le p.cur_start p.cur_pos first in
          let one : (p.cur_pos == 0) ≡ false = positive p.cur_pos pos in
          let before : leb s (p.cur_pos - 1) ≡ false =
            lt→leb_false s (p.cur_pos - 1) (omega arith) in
          let (q, step, here) = pop_left-At x (string t) s parents p' h chain (omega arith) in
          (
            q,
            rw (full, first, one)
                (prev-entry (record { pe_cord = string t; pe_start_pos = s }) parents p p.path q
                  path before step),
            here,
          )
    ]

prev-first : (p : Pos) → p.cur_pos ≡ 0 → prev p ≡ some (record p { path = [] })
unfolding prev prev_hard
prev-first p e =
    let first : ltb p.cur_start 0 ≡ false = le→ltb_false p.cur_start 0 (omega arith) in
    elim (Bool-cases (p.cur_end == 0)) [
      | inl b ↦ rw (e, first, b) refl
      | inr b ↦ rw (e, first, b) refl
    ]

-- In a cord without function nodes, CORD_prev from a place other than the first does not abort and
-- gives a position at the place before; from the first place it gives an invalid one.
pub prev-At :
    (x : Cord) (i : ℕ) (p : Pos)
    → IsRope x
    → OfStrings x
    → At x i p
    → (q : Pos) × (prev p ≡ some q) × (((0 < i) × At x (i - 1) q) ⊎ ((i ≡ 0) × (q.path ≡ [])))
prev-At x i p h only at = move p.path refl at
  where
    move :
        (path : List Entry)
        → p.path ≡ path
        → Valid x i p path
        → (q : Pos) × (prev p ≡ some q) × (((0 < i) × At x (i - 1) q) ⊎ ((i ≡ 0) × (q.path ≡ [])))
    move [] e v = absurd v
    move (e ∷ parents) f v = elim (dec_lt 0 i) [
      | yes l ↦
          let v' = subst (λ j. Here x j p e.pe_cord e.pe_start_pos parents) (sym v.0) v in
          let same = v.0 in
          let (q, step, here) =
            prev-leaf x e.pe_cord e.pe_start_pos parents p h
              (Chain-OfStrings x e.pe_cord e.pe_start_pos parents only v.1) (omega arith) v' f in
          (q, step, inl (l, subst (λ j. At x (j - 1) q) same here))
      | no l ↦
          let same = v.0 in
          (record p { path = [] }, prev-first p (omega arith), inr (omega arith, refl))
    ]
