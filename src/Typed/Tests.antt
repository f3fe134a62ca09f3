-- ===== src/Typed/Tests.antt =====
-- The descriptor of a small bitmap.
use boehmgc.Base.{if◌then◌else◌, ◌==◌, ℕ, ◌≡◌, refl, ◌↔◌, ◌^◌, ◌+◌, none, arith}
use boehmgc.Mark.Push.{Field}
use boehmgc.Typed.{
  make_descriptor, describe, set_bits_end, initial_section, reverse_bits, shift_in, get_bit,
}
use boehmgc.Typed.Bits.{Bits}
use boehmgc.Typed.Descriptor.{make_descriptor-Field, make_descriptor-conservative}

-- The bits 0 and 2.
abbrev two_bits : ℕ → ℕ
two_bits w = 5

two_bits_descriptor : make_descriptor (λ n. none) 0 two_bits 3 ≡ 2 ^ 63 + 2 ^ 61 + 1
unfolding make_descriptor describe set_bits_end initial_section reverse_bits shift_in get_bit
two_bits_descriptor = refl

make_descriptor-Field_example :
    Field 8192 (make_descriptor (λ n. none) 0 two_bits 3) 8208 ↔ Bits two_bits 0 3 8192 8208
make_descriptor-Field_example =
    make_descriptor-Field (λ n. none) 0 two_bits 3 8192 8208 (omega arith)

-- The bits 0 and 69.
abbrev far_bits : ℕ → ℕ
far_bits w = if w == 0 then 1 else 32

far_bits-set : Bits far_bits 0 70 4096 4648
unfolding get_bit
far_bits-set = (69, omega arith, refl, omega arith)

make_descriptor-conservative_example : Field 4096 (make_descriptor (λ n. none) 0 far_bits 70) 4648
make_descriptor-conservative_example =
    make_descriptor-conservative (λ n. none) 0 far_bits 70 4096 4648 (omega arith) refl far_bits-set
