-- ===== src/Typed/Bits.antt =====
-- The loop of GC_make_descriptor that reverses the bits, and the words that the collector sees.
use boehmgc.Base.{
  ℕ, zero, suc, ◌+◌, ◌*◌, ◌/◌, ◌%◌, ◌^◌, ◌≤◌, ◌<◌, ◌≡◌, refl, sym, ap, ◌∙◌, subst, Bool, true,
  false, arith, leb, leb→le, Bool-cases, inl, inr, ◌⊎◌, ◌↔◌,
}
use boehmgc.Typed.{get_bit, shift_in, reverse_bits}
use boehmgc.Mark.Push.{BitmapField}

-- The words of the bits from `i` up to `n`, the first at `start`.
abbrev pub Bits : (ℕ → ℕ) → ℕ → ℕ → ℕ → ℕ → Type 0
Bits bm i n start a = (j : ℕ) × (i + j < n) × (get_bit bm (i + j) ≡ true) × (a ≡ start + 8 * j)

-- `d` can be halved `k` times without a rest.
abbrev Halves : ℕ → ℕ → Type 0
Halves zero d = d ≡ d
Halves (suc k) d = (d % 2 ≡ 0) × Halves k (d / 2)

Halves-zero : (k d : ℕ) → d ≡ 0 → Halves k d
Halves-zero zero d z = refl
Halves-zero (suc k) d z = (omega arith, Halves-zero k (d / 2) (omega arith))

Halves-add : (k e d : ℕ) → k ≤ e → Halves k d → Halves k (d + 2 ^ e)
Halves-add zero e d l h = refl
Halves-add (suc k) zero d l h = absurd (omega arith)
Halves-add (suc k) (suc e) d l h =
    let (even, rest) = h in
    let power = double e in
    (
      omega arith,
      subst (λ v. Halves k v) (half power even) (Halves-add k e (d / 2) (omega arith) rest),
    )
  where
    double : (e : ℕ) → 2 ^ suc e ≡ 2 ^ e * 2
    double e = omega arith

    half : 2 ^ suc e ≡ 2 ^ e * 2 → d % 2 ≡ 0 → d / 2 + 2 ^ e ≡ (d + 2 ^ suc e) / 2
    half p q = omega arith

shift_in-set : (d : ℕ) → d < 2 ^ 64 → shift_in true d ≡ d / 2 + 2 ^ 63
unfolding shift_in
shift_in-set d l = elim (Bool-cases (leb (2 ^ 63) (d / 2))) [
  | inl e ↦ let big = leb→le (2 ^ 63) (d / 2) e in absurd (omega arith)
  | inr e ↦ rw e refl
]

shift_in-clear : (d : ℕ) → shift_in false d ≡ d / 2
unfolding shift_in
shift_in-clear d = refl

no_bits : (k start a descr : ℕ) → descr ≡ 0 → BitmapField k descr start a → ⊥
no_bits zero start a descr z f = f
no_bits (suc k) start a descr z (inl f) = let l = f.0 in absurd (omega arith)
no_bits (suc k) start a descr z (inr f) =
    no_bits k (start + 8) a (descr * 2 % 2 ^ 64) (omega arith) f

-- `d` has the reversed bits from `i` up to `n`, and `k` rounds see them.
pub record Reversed (bm : ℕ → ℕ) (i n d k : ℕ) : Type 0 where
  pub below : d < 2 ^ 64
  pub halves : Halves (suc (suc i)) d
  pub fields : (start a : ℕ) → BitmapField k d start a ↔ Bits bm i n start a

Bits-cases :
    (bm : ℕ → ℕ) (i n start a : ℕ)
    → Bits bm i n start a
    → ((get_bit bm i ≡ true) × (a ≡ start)) ⊎ Bits bm (suc i) n (start + 8) a
Bits-cases bm i n start a (zero, l, s, e) =
    inl (subst (λ v. get_bit bm v ≡ true) (here i) s, omega arith)
  where
    here : (i : ℕ) → i + 0 ≡ i
    here i = omega arith
Bits-cases bm i n start a (suc j, l, s, e) =
    inr (j, omega arith, subst (λ v. get_bit bm v ≡ true) (next i j) s, omega arith)
  where
    next : (i j : ℕ) → i + suc j ≡ suc i + j
    next i j = omega arith

Bits-first :
    (bm : ℕ → ℕ) (i n start a : ℕ) → i < n → get_bit bm i ≡ true → a ≡ start → Bits bm i n start a
Bits-first bm i n start a l s e =
    (0, omega arith, subst (λ v. get_bit bm v ≡ true) (here i) s, omega arith)
  where
    here : (i : ℕ) → i ≡ i + 0
    here i = omega arith

Bits-later : (bm : ℕ → ℕ) (i n start a : ℕ) → Bits bm (suc i) n (start + 8) a → Bits bm i n start a
Bits-later bm i n start a (j, l, s, e) =
    (suc j, omega arith, subst (λ v. get_bit bm v ≡ true) (next i j) s, omega arith)
  where
    next : (i j : ℕ) → suc i + j ≡ i + suc j
    next i j = omega arith

-- One more bit at the top.
Reversed-bit :
    (bm : ℕ → ℕ) (i n k d d' : ℕ)
    → i < n
    → ((2 ^ 63 ≤ d') ↔ (get_bit bm i ≡ true))
    → d' * 2 % 2 ^ 64 ≡ d
    → Reversed bm (suc i) n d k
    → (start a : ℕ) → BitmapField (suc k) d' start a ↔ Bits bm i n start a
Reversed-bit bm i n k d d' l top low r start a = (
  λ f. elim f [
    | inl g ↦ Bits-first bm i n start a l (top.0 g.0) g.1
    | inr g ↦
        Bits-later bm i n start a
          ((r.fields (start + 8) a).0 (subst (λ v. BitmapField k v (start + 8) a) low g))
  ],
  λ b. elim (Bits-cases bm i n start a b) [
    | inl g ↦ inl (top.1 g.0, g.1)
    | inr g ↦
        inr (subst (λ v. BitmapField k v (start + 8) a) (sym low) ((r.fields (start + 8) a).1 g))
  ],
)

shift_in-Reversed :
    (bm : ℕ → ℕ) (i n k d : ℕ)
    → i < n
    → i < 62
    → Reversed bm (suc i) n d k
    → Reversed bm i n (shift_in (get_bit bm i) d) (suc k)
shift_in-Reversed bm i n k d l small r =
    let below = r.below in
    let (even, halves) = r.halves in
    elim (Bool-cases (get_bit bm i)) [
      | inl s ↦
          subst (λ v. Reversed bm i n v (suc k))
            (sym (shift_in-set d below) ∙ ap (λ b. shift_in b d) (sym s))
            record {
              below = omega arith;
              halves = Halves-add (suc (suc i)) 63 (d / 2) (omega arith) halves;
              fields =
                  Reversed-bit bm i n k d (d / 2 + 2 ^ 63) l (λ x. s, λ x. omega arith)
                    (omega arith) r;
            }
      | inr s ↦
          subst (λ v. Reversed bm i n v (suc k))
            (sym (shift_in-clear d) ∙ ap (λ b. shift_in b d) (sym s))
            record {
              below = omega arith;
              halves = halves;
              fields =
                  Reversed-bit bm i n k d (d / 2) l (λ x. absurd (omega arith), λ x. clash x s)
                    (omega arith) r;
            }
    ]
  where
    clash : {b : Bool} → b ≡ true → b ≡ false → 2 ^ 63 ≤ d / 2
    clash x y = cc

pub reverse_bits-Reversed :
    (bm : ℕ → ℕ) (i n k d total : ℕ)
    → i < n
    → i < 62
    → total ≡ k + i
    → Reversed bm i n d k
    → Reversed bm 0 n (reverse_bits bm i d) total
unfolding reverse_bits
reverse_bits-Reversed bm zero n k d total l small e r =
    subst (λ v. Reversed bm 0 n d v) (sym (e ∙ none_left k)) r
  where
    none_left : (k : ℕ) → k + 0 ≡ k
    none_left k = omega arith
reverse_bits-Reversed bm (suc i) n k d total l small e r =
    reverse_bits-Reversed bm i n (suc k) (shift_in (get_bit bm i) d) total (omega arith)
      (omega arith) (omega arith) (shift_in-Reversed bm i n k d (omega arith) (omega arith) r)

pub signb-Reversed :
    (bm : ℕ → ℕ) (last m : ℕ)
    → last < 62
    → get_bit bm last ≡ true
    → Reversed bm last (suc last) (2 ^ 63) (suc m)
signb-Reversed bm last m small s = record {
  below = omega arith;
  halves = Halves-add (suc (suc last)) 63 0 (omega arith) (Halves-zero (suc (suc last)) 0 refl);
  fields = λ start a. (
    λ f. elim f [
      | inl g ↦ Bits-first bm last (suc last) start a (omega arith) s g.1
      | inr g ↦ absurd (no_bits m (start + 8) a (2 ^ 63 * 2 % 2 ^ 64) (omega arith) g)
    ],
    λ b. elim (Bits-cases bm last (suc last) start a b) [
      | inl g ↦ inl (omega arith, g.1)
      | inr g ↦ let l = g.1 in absurd (omega arith)
    ],
  );
}
