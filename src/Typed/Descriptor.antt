-- ===== src/Typed/Descriptor.antt =====
-- The words that a descriptor made by GC_make_descriptor names for the collector.
use boehmgc.Base.{
  ℕ, zero, suc, ◌+◌, ◌*◌, ◌%◌, ◌^◌, ◌-◌, ◌≤◌, ◌<◌, ◌≡◌, refl, sym, ◌∙◌, subst, true, none, ltb,
  ltb→lt, Option, arith, ◌==◌, ==_iff, lt→ltb, Bool-cases, inl, inr, ◌↔◌,
}
use boehmgc.Typed.{
  get_bit, set_bits_end, initial_section, reverse_bits, describe, extended, make_descriptor,
}
use boehmgc.Mark.Push.{BitmapField, Field}
use boehmgc.Typed.Sections.{
  set_bits_end-below, set_bits_end-above, set_bits_end-last, initial_section-bits,
}
use boehmgc.Typed.Bits.{Bits, Reversed, reverse_bits-Reversed, signb-Reversed}

-- A length descriptor names the words of bits that are all set.
length-Bits :
    (bm : ℕ → ℕ) (last d start a : ℕ)
    → last < 62
    → d ≡ suc last * 8
    → ((j : ℕ) → j < last → get_bit bm (0 + j) ≡ true)
    → get_bit bm last ≡ true
    → Field start d a ↔ Bits bm 0 (suc last) start a
length-Bits bm last d start a small e all s = (
  λ f. elim f [
    | inl g ↦ let (tag, (i, l, at)) = g in (i, omega arith, set i (omega arith), at)
    | inr g ↦ let tag = g.0 in absurd (omega arith)
  ],
  λ b. let (j, l, x, at) = b in inl (omega arith, (j, omega arith, at)),
)
  where
    here : (i : ℕ) → i ≡ last → last ≡ 0 + i
    here i x = omega arith

    set : (i : ℕ) → i < suc last → get_bit bm (0 + i) ≡ true
    set i l = elim (Bool-cases (i == last)) [
      | inl x ↦ subst (λ v. get_bit bm v ≡ true) (here i ((==_iff i last).0 x)) s
      | inr x ↦ all i (ground arith)
    ]

bitmap-Bits :
    (bm : ℕ → ℕ) (n d start a : ℕ)
    → Reversed bm 0 n d 64
    → Field start (d + 1) a ↔ Bits bm 0 n start a
bitmap-Bits bm n d start a r =
    let (even, rest) = r.halves in
    let even' = rest.0 in
    (
      λ f. elim f [
        | inl g ↦ let tag = g.0 in absurd (omega arith)
        | inr g ↦ (r.fields start a).0 (subst (λ v. BitmapField 64 v start a) (less d) g.1)
      ],
      λ b. inr (
        omega arith,
        subst (λ v. BitmapField 64 v start a) (sym (less d)) ((r.fields start a).1 b),
      ),
    )
  where
    less : (d : ℕ) → d + 1 - 1 ≡ d
    less d = omega arith

nothing-Bits : (bm : ℕ → ℕ) (start a : ℕ) → Field start 0 a ↔ Bits bm 0 0 start a
nothing-Bits bm start a = (
  λ f. elim f [
    | inl g ↦ let (tag, (i, l, at)) = g in absurd (omega arith)
    | inr g ↦ let tag = g.0 in absurd (omega arith)
  ],
  λ b. let l = b.1 in absurd (omega arith),
)

describe-Bits :
    (add_ext_descriptor : ℕ → Option ℕ) (proc : ℕ) (bm : ℕ → ℕ) (n start a : ℕ)
    → n ≤ 62
    → ((last : ℕ) → n ≡ suc last → get_bit bm last ≡ true)
    → Field start (describe add_ext_descriptor proc bm n) a ↔ Bits bm 0 n start a
unfolding describe
describe-Bits add_ext_descriptor proc bm zero start a small set = nothing-Bits bm start a
describe-Bits add_ext_descriptor proc bm (suc last) start a small set =
    let s = set last refl in
    let r =
      reverse_bits-Reversed bm last (suc last) (64 - last) (2 ^ 63) 64 (omega arith) (omega arith)
        (omega arith)
        (subst (λ v. Reversed bm last (suc last) (2 ^ 63) v) (size last small)
          (signb-Reversed bm last (63 - last) (omega arith) s)) in
    let even = (==_iff (reverse_bits bm last (2 ^ 63) % 2) 0).1 r.halves.0 in
    elim (Bool-cases (initial_section bm 0 last == last)) [
      | inl e ↦
          subst (λ v. Field start v a ↔ Bits bm 0 (suc last) start a) (sym (rw e refl))
            (length-Bits bm last (suc last * 8 % 2 ^ 64) start a (omega arith) (omega arith)
              (initial_section-bits bm 0 last
                ((==_iff (initial_section bm 0 last) last).0 e ∙ zero_add last))
              s)
      | inr e ↦
          subst (λ v. Field start v a ↔ Bits bm 0 (suc last) start a)
            (sym (rw (e, lt→ltb last 62 (omega arith), even) refl))
            (bitmap-Bits bm (suc last) (reverse_bits bm last (2 ^ 63)) start a r)
    ]
  where
    size : (last : ℕ) → suc last ≤ 62 → suc (63 - last) ≡ 64 - last
    size last l = omega arith

    zero_add : (last : ℕ) → last ≡ 0 + last
    zero_add last = omega arith

-- For a bitmap of at most 62 words, the descriptor that GC_make_descriptor answers names, by a
-- length or by a bitmap, exactly the words of the object whose bits are set.
pub make_descriptor-Field :
    (add_ext_descriptor : ℕ → Option ℕ) (proc : ℕ) (bm : ℕ → ℕ) (len start a : ℕ)
    → len ≤ 62
    → Field start (make_descriptor add_ext_descriptor proc bm len) a ↔ Bits bm 0 len start a
unfolding make_descriptor
make_descriptor-Field add_ext_descriptor proc bm len start a small =
    let n = set_bits_end-below bm len in
    let (to, from) =
      describe-Bits add_ext_descriptor proc bm (set_bits_end bm len) start a (omega arith)
        (set_bits_end-last bm len) in
    (
      λ f. let (j, l, s, at) = to f in (j, omega arith, s, at),
      λ b.
          let (j, l, s, at) = b in
          let below = set_bits_end-above bm len (0 + j) l s in from (j, below, s, at),
    )

length-conservative :
    (bm : ℕ → ℕ) (n d start a : ℕ) → d ≡ n * 8 → Bits bm 0 n start a → Field start d a
length-conservative bm n d start a e (j, l, x, at) = inl (omega arith, (j, omega arith, at))

describe-conservative :
    (add_ext_descriptor : ℕ → Option ℕ) (proc : ℕ) (bm : ℕ → ℕ) (start a : ℕ)
    → (n : ℕ) → n * 8 < 2 ^ 64
    → add_ext_descriptor n ≡ none
    → ((last : ℕ) → n ≡ suc last → get_bit bm last ≡ true)
    → Bits bm 0 n start a
    → Field start (describe add_ext_descriptor proc bm n) a
unfolding describe extended
describe-conservative add_ext_descriptor proc bm start a zero fits none_left set b =
    (describe-Bits add_ext_descriptor proc bm 0 start a (omega arith) set).1 b
describe-conservative add_ext_descriptor proc bm start a (suc last) fits none_left set b =
    elim (Bool-cases (ltb last 62)) [
      | inl t ↦
          let t' = ltb→lt last 62 t in
          (describe-Bits add_ext_descriptor proc bm (suc last) start a (omega arith) set).1 b
      | inr t ↦ elim (Bool-cases (initial_section bm 0 last == last)) [
        | inl e ↦
            subst (λ v. Field start v a) (sym (rw e refl))
              (length-conservative bm (suc last) (suc last * 8 % 2 ^ 64) start a (omega arith) b)
        | inr e ↦
            subst (λ v. Field start v a) (sym (rw (e, t, none_left) refl))
              (length-conservative bm (suc last) (suc last * 8 % 2 ^ 64) start a (omega arith) b)
      ]
    ]

-- If GC_add_ext_descriptor answers -1, out of memory, for the bits of a bitmap of less than 2 ^ 61
-- bits, the descriptor that GC_make_descriptor answers still names, by a length or by a bitmap, all
-- words of the object whose bits are set.
pub make_descriptor-conservative :
    (add_ext_descriptor : ℕ → Option ℕ) (proc : ℕ) (bm : ℕ → ℕ) (len start a : ℕ)
    → len * 8 < 2 ^ 64
    → add_ext_descriptor (set_bits_end bm len) ≡ none
    → Bits bm 0 len start a
    → Field start (make_descriptor add_ext_descriptor proc bm len) a
unfolding make_descriptor
make_descriptor-conservative add_ext_descriptor proc bm len start a small full (j, l, s, at) =
    let below = set_bits_end-below bm len in
    describe-conservative add_ext_descriptor proc bm start a (set_bits_end bm len) (omega arith)
      full (set_bits_end-last bm len) (j, set_bits_end-above bm len (0 + j) l s, s, at)
