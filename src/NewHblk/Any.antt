-- ===== src/NewHblk/Any.antt =====
-- The general case of GC_build_fl: the list is built from the second object on, and the first one is
-- linked to the old list at the end.
use boehmgc.Base.{
  ℕ, zero, suc, ◌+◌, ◌-◌, ◌*◌, ◌/◌, ◌≤◌, ◌<◌, ◌≡◌, refl, ◌∙◌, Bool, true, some, List, [], ◌∷◌, ◌++◌,
  arith, ap, le→leb, lt→leb_false, All, All-mono, subst, if◌then◌else◌,
}
use boehmgc.Memory.{Mem, store, Links, Links-frame}
use boehmgc.NewHblk.{hblksize, bzero, any_loop, build_fl_any}
use boehmgc.NewHblk.Spec.{objects, Grown, Grown-next, Built}

-- The objects from the second on, and the first: all the objects.
objects-suc : (h size k : ℕ) → objects (h + size) size k ++ h ∷ [] ≡ objects h size (suc k)
objects-suc h size zero = ap (λ t. t ∷ []) (omega arith)
objects-suc h size (suc k) =
    let here : h + size + k * size ≡ h + suc k * size = omega arith in
    rw (objects-suc h size k, here)

Links-snoc :
    (m : Mem) (p : ℕ) (xs : List ℕ) (q r : ℕ)
    → Links m p xs q
    → m q ≡ r
    → Links m p (xs ++ q ∷ []) r
Links-snoc m p [] q r l e = (l, e)
Links-snoc m p (x ∷ xs) q r l e = (l.0, Links-snoc m (m x) xs q r l.1 e)

module _ (clear : Bool) (h sz lim : ℕ) (pos : 0 < sz) (room : 8 * sz ≤ lim) where
  -- The loop, `k` objects past the first being linked; memory from the next object on is blank where
  -- the block was cleared.
  any_loop-Grown :
      (fuel n k t : ℕ) (m : Mem)
      → k + n ≡ t
      → n < fuel
      → h + suc k * (8 * sz) + n * (8 * sz) ≤ lim
      → lim < h + suc k * (8 * sz) + suc n * (8 * sz)
      → Grown clear (h + 8 * sz) (8 * sz) k h m (h + k * (8 * sz))
      → (clear ≡ true → (a : ℕ) → h + suc k * (8 * sz) ≤ a → a < lim → m a ≡ 0)
      → (m' : Mem) × (any_loop sz (lim - 8 * sz) fuel (h + suc k * (8 * sz)) (h + k * (8 * sz)) m
          ≡ some (h + suc t * (8 * sz), m'))
        × Grown clear (h + 8 * sz) (8 * sz) t h m' (h + t * (8 * sz))
        × ((a : ℕ) → a < h + suc k * (8 * sz) → m' a ≡ m a)
        × ((a : ℕ) → lim ≤ a → m' a ≡ m a)
  unfolding any_loop store
  any_loop-Grown zero n k t m e f fit last g blank = absurd (omega arith)
  any_loop-Grown (suc fuel) zero k t m e f fit last g blank =
      let done : k ≡ t = omega arith in
      (
        m,
        rw (lt→leb_false (h + suc k * (8 * sz)) (lim - 8 * sz) (omega arith), done),
        rw (← done) g,
        λ a l. refl,
        λ a l. refl,
      )
  any_loop-Grown (suc fuel) (suc n) k t m e f fit last g blank =
      let p = h + suc k * (8 * sz) in
      let here : h + 8 * sz + k * (8 * sz) ≡ p = omega arith in
      let ahead : p + 8 * sz ≡ h + suc (suc k) * (8 * sz) = omega arith in
      let step =
        Grown-next clear (h + 8 * sz) (8 * sz) k h {m' = store m p (h + k * (8 * sz))} (omega arith)
          g (λ a l. ground arith) (ground arith)
          (λ c i z l. ground (arith, blank c (h + 8 * sz + k * (8 * sz) + 8 * i))) in
      let (m', run, grown, below, above) =
        any_loop-Grown fuel n (suc k) t (store m p (h + k * (8 * sz))) (omega arith) (omega arith)
          (omega arith) (omega arith) (rw here at step) (λ c a l u. ground (arith, blank c a)) in
      (
        m',
        rw (le→leb p (lim - 8 * sz) (omega arith)) (rw (← ahead) at run),
        grown,
        λ a l. below a (omega arith) ∙ ground arith,
        λ a l. above a l ∙ ground arith,
      )

objects-above : (h size k : ℕ) → 0 < size → All (λ x. h < x) (objects (h + size) size k)
objects-above h size zero pos = tt
objects-above h size (suc k) pos = (omega arith, objects-above h size k pos)

-- The last store links the first object, in front of which the others stand.
link_first :
    (clear : Bool) (h size n list head : ℕ) (s m : Mem)
    → 0 < size
    → Grown clear (h + size) size n h m head
    → ((a : ℕ) → a < h + size → m a ≡ s a)
    → (clear ≡ true → (a : ℕ) → h ≤ a → a < h + size → s a ≡ 0)
    → Grown clear h size (suc n) list (store m h list) head
unfolding store
link_first clear h size n list head s m pos g below blank = record {
  links =
      subst (λ xs. Links (store m h list) head xs list) (objects-suc h size n)
        (Links-snoc (store m h list) head (objects (h + size) size n) h list
          (Links-frame m (store m h list) head (objects (h + size) size n) h
            (All-mono (objects (h + size) size n) (λ a l. ground arith)
              (objects-above h size n pos))
            g.links)
          (ground arith));
  blank = λ c. elim [
    | zero ↦
        λ i lt p l. ground (arith, below (h + 0 * size + 8 * i), blank c (h + 0 * size + 8 * i))
    | suc j ↦ λ i lt p l. ground (arith, g.blank c j i)
  ];
}

-- The stores of the loop and the last one, over the whole block.
module _ (clear : Bool) (h sz list : ℕ) (m : Mem) (pos : 0 < sz) (fits : 8 * sz ≤ hblksize) where
  start : Mem
  start = if clear then bzero m h hblksize else m

  start_blank : clear ≡ true → (a : ℕ) → h ≤ a → a < h + hblksize → start a ≡ 0
  unfolding start bzero
  start_blank c a l u = ground arith

  start_below : (a : ℕ) → a < h → start a ≡ m a
  unfolding start bzero
  start_below a l = ground arith

  start_above : (a : ℕ) → h + hblksize ≤ a → start a ≡ m a
  unfolding start bzero
  start_above a l = ground arith

  any_block :
      (n : ℕ)
      → suc n * (8 * sz) ≤ hblksize
      → hblksize < suc (suc n) * (8 * sz)
      → (m' : Mem) × (build_fl_any h sz clear list m ≡ some (h + n * (8 * sz), m'))
        × Grown clear h (8 * sz) (suc n) list m' (h + n * (8 * sz))
        × ((a : ℕ) → a < h → m' a ≡ m a)
        × ((a : ℕ) → h + hblksize ≤ a → m' a ≡ m a)
  unfolding build_fl_any start store
  any_block n fit last =
      let here : h + 0 * (8 * sz) ≡ h = omega arith in
      let second : h + 1 * (8 * sz) ≡ h + 8 * sz = omega arith in
      let back : h + suc n * (8 * sz) - 8 * sz ≡ h + n * (8 * sz) = omega arith in
      let few : n < hblksize = grind arith in
      let none_linked : Grown clear (h + 8 * sz) (8 * sz) 0 h start (h + 0 * (8 * sz)) = record {
        links = here;
        blank = λ c j i l. absurd (omega arith);
      } in
      let (m', run, t, below, above) =
        any_loop-Grown clear h sz (h + hblksize) pos (omega arith) hblksize n 0 n start
          (omega arith) few (omega arith) (omega arith) none_linked
          (λ c a l u. start_blank c a (omega arith) u) in
      (
        store m' h list,
        rw ((rw (second, here) at run), build_fl_any) (ap (λ q. some (q, store m' h list)) back),
        link_first clear h (8 * sz) n list (h + n * (8 * sz)) start m' (omega arith) t
            (λ a l. below a (omega arith)) (λ c a l u. start_blank c a l (omega arith)),
        λ a l. ground (arith, below a, start_below a),
        λ a l. ground (arith, above a, start_above a),
      )

  pub build_fl_any-Built :
      (m' : Mem) × (build_fl_any h sz clear list m
        ≡ some (h + (hblksize / (8 * sz) - 1) * (8 * sz), m'))
      × Built clear h (8 * sz) list m (h + (hblksize / (8 * sz) - 1) * (8 * sz)) m'
  build_fl_any-Built =
      let n = hblksize / (8 * sz) - 1 in
      let e : suc n ≡ hblksize / (8 * sz) = grind arith in
      let (m', run, t, below, above) = any_block n (grind arith) (grind arith) in
      (
        m',
        run,
        record {
          grown = subst (λ q. Grown clear h (8 * sz) q list m' (h + n * (8 * sz))) e t;
          below = below;
          above = above;
        },
      )
