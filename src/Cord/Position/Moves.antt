-- ===== src/Cord/Position/Moves.antt =====
-- Positions at a place of a cord: CORD_set_pos and CORD_next give them, CORD_pos_fetch reads them.
use boehmgc.Base.{
  ℕ, zero, suc, ◌+◌, ◌-◌, ◌≤◌, ◌<◌, ◌≡◌, refl, Bool, true, false, Option, none, some, List, [], ◌∷◌,
  arith, ltb, leb, ◌==◌, if◌then◌else◌, length, get_elem?, inl, inr, ap, ◌∙◌, ◌⊎◌, subst, sym,
  le→leb, lt→leb_false, ==_iff,
}
use boehmgc.Cord.{call, Cord, empty, string, concat, function, len}
use boehmgc.Cord.Spec.{chars, text, IsRope}
use boehmgc.Cord.Position.{
  Entry, Pos, descend, set_leaf, extend_path, set_pos, function_fetch, leaf_fetch, pos_fetch,
}
use boehmgc.Cord.Position.Path.{
  Chain, Chain-IsRope, Chain-text, Reaches, descend-Reaches, descend-end,
}

-- The leaf's characters that a position holds: a string, or some characters of a function, or none.
abbrev pub Cached : Cord → ℕ → Pos → Type 0
Cached (string t) s p = (p.cur_leaf ≡ t) × (p.cur_start ≡ s) × (p.cur_end ≡ s + length t)
Cached (function fn m) s p =
    (p.cur_end ≡ 0)
    ⊎ ((k : ℕ) × (n : ℕ) × (p.cur_leaf ≡ chars (call fn) k n)
        × (p.cur_start ≡ s + k)
        × (p.cur_end ≡ s + k + n)
        × (k + n ≤ m)
        × (s + k ≤ p.cur_pos)
        × (p.cur_pos < s + k + n))
Cached other s p = ⊥

pub positive : (n : ℕ) → 0 < n → (n == 0) ≡ false
positive n l = ground arith

pub le→ltb_false : (a b : ℕ) → b ≤ a → ltb a b ≡ false
le→ltb_false a b l = ground arith

-- A position at place `i` of `x`, in the part `c` at place `s`.
abbrev pub Here : Cord → ℕ → Pos → Cord → ℕ → List Entry → Type 0
Here x i p c s parents =
    (p.cur_pos ≡ i) × Chain x c s parents × Cached c s p × (s ≤ i) × (i < s + len c)

abbrev pub Valid : Cord → ℕ → Pos → List Entry → Type 0
Valid x i p [] = ⊥
Valid x i p (e ∷ parents) = Here x i p e.pe_cord e.pe_start_pos parents

-- `p` is at place `i` of `x`.
abbrev pub At : Cord → ℕ → Pos → Type 0
At x i p = Valid x i p p.path

pub entry-At :
    (x : Cord) (i : ℕ) (p : Pos) (c : Cord) (s : ℕ) (parents : List Entry)
    → p.path ≡ record { pe_cord = c; pe_start_pos = s } ∷ parents
    → Here x i p c s parents
    → At x i p
entry-At x i p c s parents e here = subst (λ v. Valid x i p v) (sym e) here

entry-Here :
    (x : Cord) (i : ℕ) (p : Pos) (c d : Cord) (s t : ℕ) (parents : List Entry)
    → c ≡ d
    → s ≡ t
    → Here x i p d t parents
    → Here x i p c s parents
entry-Here x i p c d s t parents e f h =
    subst (λ v. Here x i p v s parents) (sym e) (subst (λ v. Here x i p d v parents) (sym f) h)

Reaches-At :
    (x : Cord) (i : ℕ) (p : Pos) (path : List Entry) (leaf : Cord) (top_pos top_len : ℕ)
    → p.cur_pos ≡ i
    → Reaches x i (path, leaf, top_pos, top_len)
    → Valid x i (record (set_leaf leaf top_pos top_len p) { path = path }) path
unfolding set_leaf
Reaches-At x i p [] leaf top_pos top_len at r = absurd r
Reaches-At x i p (e ∷ parents) (string t) top_pos top_len at r =
    let p' = record p {
      path = e ∷ parents;
      cur_leaf = t;
      cur_start = top_pos;
      cur_end = top_pos + top_len;
    } in
    let n = r.2 in
    let high = r.6 in
    entry-Here x i p' e.pe_cord (string t) e.pe_start_pos top_pos parents r.0 r.1
      (at, r.3, (refl, refl, ap (λ v. top_pos + v) n), r.5, omega arith)
Reaches-At x i p (e ∷ parents) (function fn m) top_pos top_len at r =
    let p' = record p { path = e ∷ parents; cur_end = 0 } in
    let n = r.2 in
    let high = r.6 in
    entry-Here x i p' e.pe_cord (function fn m) e.pe_start_pos top_pos parents r.0 r.1
      (at, r.3, inl refl, r.5, omega arith)
Reaches-At x i p (e ∷ parents) empty top_pos top_len at r = absurd r.4
Reaches-At x i p (e ∷ parents) (concat _ _ _ _ _) top_pos top_len at r = absurd r.4

Reaches-inside :
    (x : Cord) (i : ℕ) (path : List Entry) (leaf : Cord) (top_pos top_len : ℕ)
    → Reaches x i (path, leaf, top_pos, top_len)
    → i < top_pos + top_len
Reaches-inside x i [] leaf top_pos top_len r = absurd r
Reaches-inside x i (e ∷ parents) leaf top_pos top_len r = r.6

-- CORD__extend_path, from a part of `x` that has the place.
pub extend_path-At :
    (x c : Cord) (s : ℕ) (parents : List Entry) (p : Pos)
    → IsRope x
    → Chain x c s parents
    → s ≤ p.cur_pos
    → p.cur_pos < s + len c
    → At x p.cur_pos (extend_path (record { pe_cord = c; pe_start_pos = s }) parents p)
unfolding extend_path
extend_path-At x c s parents p h chain low high =
    let (path, leaf, top_pos, top_len) =
      descend c p.cur_pos s (len c) (record { pe_cord = c; pe_start_pos = s } ∷ parents) in
    let r =
      descend-Reaches x c p.cur_pos s (len c) parents (Chain-IsRope x c s parents h chain) chain
        refl low high in
    let inside : leb (top_pos + top_len) p.cur_pos ≡ false =
      lt→leb_false (top_pos + top_len) p.cur_pos
        (Reaches-inside x p.cur_pos path leaf top_pos top_len r) in
    rw inside (Reaches-At x p.cur_pos p path leaf top_pos top_len refl r)

set_pos-root :
    (x : Cord) (i : ℕ) (p : Pos)
    → IsRope x
    → set_pos x i p
      ≡ extend_path (record { pe_cord = x; pe_start_pos = 0 }) [] (record p { cur_pos = i })
unfolding set_pos
set_pos-root empty i p h = absurd h
set_pos-root (string t) i p h = refl
set_pos-root (concat _ _ _ _ _) i p h = refl
set_pos-root (function fn m) i p h = refl

-- CORD_set_pos with a place in the cord.
pub set_pos-At : (x : Cord) (i : ℕ) (p : Pos) → IsRope x → i < len x → At x i (set_pos x i p)
set_pos-At x i p h l =
    subst (λ q. At x i q) (sym (set_pos-root x i p h))
      (extend_path-At x x 0 [] (record p { cur_pos = i }) h (refl, refl) (omega arith)
        (omega arith))

-- CORD_set_pos with a place behind the cord gives an invalid position.
pub set_pos-end : (x : Cord) (i : ℕ) (p : Pos) → IsRope x → len x ≤ i → (set_pos x i p).path ≡ []
unfolding extend_path
set_pos-end x i p h l = ap (λ q. q.path) (set_pos-root x i p h) ∙ last
  where
    last :
        (extend_path (record { pe_cord = x; pe_start_pos = 0 }) [] (record p { cur_pos = i })).path
        ≡ []
    last =
        let (path, leaf, top_pos, top_len) =
          descend x i 0 (len x) (record { pe_cord = x; pe_start_pos = 0 } ∷ []) in
        let past =
          descend-end x i 0 (len x) (record { pe_cord = x; pe_start_pos = 0 } ∷ []) h refl
            (omega arith) in
        let at : leb (top_pos + top_len) i ≡ true = le→leb (top_pos + top_len) i past in rw at refl

get_elem?-chars : (fn : ℕ → ℕ) (j n i : ℕ) → i < n → get_elem? (chars fn j n) i ≡ some (fn (j + i))
get_elem?-chars fn j zero i l = absurd (omega arith)
get_elem?-chars fn j (suc n) zero l = let e : j + 0 ≡ j = omega arith in rw e refl
get_elem?-chars fn j (suc n) (suc i) l =
    let e : j + suc i ≡ suc j + i = omega arith in
    rw e (get_elem?-chars fn (suc j) n i (omega arith))

read_leaf :
    (leaf t : List ℕ) (start s i : ℕ)
    → leaf ≡ t
    → start ≡ s
    → s ≤ i
    → leaf_fetch leaf start i ≡ get_elem? t (i - s)
unfolding leaf_fetch
read_leaf leaf t start s i e f low =
    rw (e, f) (if_in (get_elem? t (i - s)) (ltb i s) (le→ltb_false i s low))
  where
    if_in : (o : Option ℕ) (b : Bool) → b ≡ false → (if b then none else o) ≡ o
    if_in o b e = rw e refl

-- What CORD_pos_fetch reads where there is a character: this one.
fetch-leaf :
    (c : Cord) (s i : ℕ) (p : Pos) (parents : List Entry) (e : Entry)
    → p.path ≡ e ∷ parents
    → e.pe_cord ≡ c
    → e.pe_start_pos ≡ s
    → IsRope c
    → p.cur_pos ≡ i
    → Cached c s p
    → s ≤ i
    → i < s + len c
    → pos_fetch p ≡ get_elem? (text c) (i - s)
unfolding pos_fetch function_fetch
fetch-leaf empty s i p parents e path f g h at cached low high = absurd h
fetch-leaf (concat _ _ _ _ _) s i p parents e path f g h at cached low high = absurd cached
fetch-leaf (string t) s i p parents e path f g h at cached low high =
    let size = cached.2 in
    let full : (p.cur_end == 0) ≡ false = positive p.cur_end (omega arith) in
    rw (full, at) (read_leaf p.cur_leaf t p.cur_start s i (cached.0) (cached.1) low)
fetch-leaf (function fn m) s i p parents e path f g h at (inl none_held) low high =
    let held : (p.cur_end == 0) ≡ true = (==_iff p.cur_end 0).1 none_held in
    let place : 0 + (i - s) ≡ i - s = omega arith in
    rw (held, path, f, g, at)
      (ap (λ v. some (call fn v)) (sym place)
        ∙ sym (get_elem?-chars (call fn) 0 m (i - s) (omega arith)))
fetch-leaf (function fn m) s i p parents e path f g h at
      (inr (k, n, held, first', size, fits, first, last)) low high =
    let full : (p.cur_end == 0) ≡ false = positive p.cur_end (omega arith) in
    let place : k + (i - (s + k)) ≡ 0 + (i - s) = omega arith in
    rw (full, at)
      (read_leaf p.cur_leaf (chars (call fn) k n) p.cur_start (s + k) i held first' (omega arith)
        ∙ get_elem?-chars (call fn) k n (i - (s + k)) (omega arith)
        ∙ ap (λ v. some (call fn v)) place
        ∙ sym (get_elem?-chars (call fn) 0 m (i - s) (omega arith)))

-- CORD_pos_fetch at a valid position gives the character of the text.
pub pos_fetch-text :
    (x : Cord) (i : ℕ) (p : Pos) → IsRope x → At x i p → pos_fetch p ≡ get_elem? (text x) i
pos_fetch-text x i p h at = fetch p.path refl at
  where
    fetch :
        (path : List Entry) → p.path ≡ path → Valid x i p path → pos_fetch p ≡ get_elem? (text x) i
    fetch [] e v = absurd v
    fetch (e ∷ parents) f v =
        fetch-leaf e.pe_cord e.pe_start_pos i p parents e f refl refl
          (Chain-IsRope x e.pe_cord e.pe_start_pos parents h v.1) v.0 v.2 v.3 v.4
        ∙ Chain-text x e.pe_cord e.pe_start_pos i parents h v.1 v.3 v.4
